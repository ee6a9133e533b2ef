-- ===== src/Settings.antt =====
-- app/config.py: the settings that the modelled parts read, and their validators.
use fastapi_realtime_chat_ba.Prelude.{
  ℕ, String, Bool, true, false, not, ◌&&◌, Option, some, none, List, [], ◌∷◌, ltb, if◌then◌else◌,
  text_length, is_nil, strip, split_at,
}

pub data AuthMode : Type 0 where
  hs256 : AuthMode
  jwks : AuthMode

pub record Settings : Type 0 where
  pub replica_id : String
  pub auth_mode : AuthMode
  pub jwt_secret : String
  pub jwks_url : Option String
  pub jwt_algorithms : List String
  pub jwt_issuer : Option String
  pub jwt_audience : Option String
  pub jwt_user_claim : String
  pub jwt_leeway_seconds : ℕ
  pub s3_endpoint_url : Option String
  pub s3_public_endpoint_url : Option String
  pub s3_bucket : String
  pub s3_region : String
  pub s3_access_key : Option String
  pub s3_secret_key : Option String
  pub attachment_max_bytes : ℕ
  pub attachment_allowed_mime : List String
  pub presign_expiry_seconds : ℕ
  pub download_url_expiry_seconds : ℕ
  pub message_max_graphemes : ℕ
  pub demo_enabled : Bool

-- The truth of a `str | None`: false for None and for the empty text.
abbrev pub given_text : Option String → Bool
given_text none = false
given_text (some s) = not (is_nil s)

-- `x or y` on them
abbrev pub or_text : Option String → Option String → Option String
or_text s t = if given_text s then s else t

abbrev pub stripped : List String → List String
stripped [] = []
stripped (w ∷ ws) = if is_nil (strip w) then stripped ws else strip w ∷ stripped ws

-- `_split_csv`, on a text; a value of another type passes as it is
unfoldable pub split_csv : String → List String
split_csv value = stripped (split_at b',' value)

-- `_check_auth`: `none` where it passes
pub data AuthProblem : Type 0 where
  short_secret : AuthProblem
  no_jwks_url : AuthProblem

abbrev pub is_hs256 : AuthMode → Bool
is_hs256 hs256 = true
is_hs256 jwks = false

unfoldable pub check_auth : Settings → Option AuthProblem
check_auth s =
    if is_hs256 s.auth_mode && ltb (text_length s.jwt_secret) 32
    then some short_secret
    else if not (is_hs256 s.auth_mode) && not (given_text s.jwks_url)
    then some no_jwks_url
    else none
