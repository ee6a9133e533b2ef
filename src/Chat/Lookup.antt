-- ===== src/Chat/Lookup.antt =====
-- What the helpers of the service return on a valid database, and that they write nothing.
use fastapi_realtime_chat_ba.Prelude.{
  true, String, some, ◌≡◌, refl, sym, subst, inl, inr, find_row, UniqueBy, rows_where_unique,
}
use fastapi_realtime_chat_ba.Errors.{Result, ok, err, Failure}
use fastapi_realtime_chat_ba.Models.{Uuid, Conversation}
use fastapi_realtime_chat_ba.Chat.Session.{Session, Exec, continue}
use fastapi_realtime_chat_ba.Chat.Statements.{has_client_msg_id, is_conversation}
use fastapi_realtime_chat_ba.Chat.Common.{by_client_msg_id, get_conversation, in_conversation}
use fastapi_realtime_chat_ba.Chat.Valid.{same_client_msg_id, client_msg_id-Keyed}

-- After a step that leaves the session as it was, only its result counts.
pub continue_cases {ℓ κ} :
    {A : Type ℓ} {B : Type κ} (P : Result B × Session → Type κ) (f : A → Exec B) (r : Result A)
    (s s' : Session)
    → s' ≡ s
    → ((e : Failure) → r ≡ err e → P (err e, s))
    → ((a : A) → r ≡ ok a → P (f a s))
    → P (continue r f s')
continue_cases P f (ok a) s s' same bad good = subst (λ t. P (f a t)) (sym same) (good a refl)
continue_cases P f (err e) s s' same bad good = subst (λ t. P (err e, t)) (sym same) (bad e refl)

-- A unique key makes `one_or_none` the row of that key.
pub by_client_msg_id_lem :
    (sender_id client_msg_id : String) (s : Session)
    → UniqueBy same_client_msg_id s.working.messages
    → by_client_msg_id sender_id client_msg_id s
      ≡ (ok (find_row (has_client_msg_id sender_id client_msg_id) s.working.messages), s)
unfolding by_client_msg_id
by_client_msg_id_lem sender_id client_msg_id s u =
    elim (rows_where_unique same_client_msg_id (has_client_msg_id sender_id client_msg_id)
      s.working.messages (client_msg_id-Keyed sender_id client_msg_id) u) [
        | inl (missing, empty) ↦ rw (empty, missing) refl
        | inr (m, found, only) ↦ rw (only, found) refl
      ]

-- The conversation of one of its users.
pub get_conversation_lem :
    (user_id : String) (id : Uuid) (c : Conversation) (s : Session)
    → find_row (is_conversation id) s.working.conversations ≡ some c
    → in_conversation user_id c ≡ true
    → get_conversation user_id id s ≡ (ok c, s)
unfolding get_conversation
get_conversation_lem user_id id c s found member = rw (found, member) refl
