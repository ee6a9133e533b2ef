-- ===== src/Api/Upload.antt =====
-- The keys of uploads: a presigned key belongs to its user, and to no other.
mod Keys
use Prim.Native.String.{◌++◌ as str_append}
use text.Mathlib.TextLemmas.{nil-append, cons-append, append_assoc}
use fastapi_realtime_chat_ba.Prelude.{
  ℕ, zero, suc, String, Bool, not, ◌&&◌, List, [], ◌∷◌, leb, ◌==◌, every, every_of, split_at,
  split_at_piece,
}
use fastapi_realtime_chat_ba.Errors.{Result, ok, err}
use fastapi_realtime_chat_ba.Settings.{Settings}
use fastapi_realtime_chat_ba.Externals.{Externals}
use fastapi_realtime_chat_ba.Ids.{hex}
use fastapi_realtime_chat_ba.Auth.{is_user_char}
use fastapi_realtime_chat_ba.Chat.Session.{Session}
use fastapi_realtime_chat_ba.Api.Schemas.{PresignResponse}

abbrev key_of : Result (ℕ × PresignResponse) → String
key_of (ok r) = r.1.key
key_of (err e) = ""

abbrev limit_of : Result (ℕ × PresignResponse) → ℕ
limit_of (ok r) = r.1.max_bytes
limit_of (err e) = 0
