-- ===== src/Chat/Common.antt =====
-- The helpers of ChatService.
use fastapi_realtime_chat_ba.Prelude.{
  ℕ, ◌+◌, String, Bool, not, ◌&&◌, ◌||◌, Option, some, none, List, [], ◌∷◌, str_eq, opt_eq,
  if◌then◌else◌, find_row, rows_where, length,
}
use fastapi_realtime_chat_ba.Errors.{ok, AppError, app_error, not_found}
use fastapi_realtime_chat_ba.Models.{
  Uuid, Time, Conversation, Message, MessageOut, EventData, Db, make_event,
}
use fastapi_realtime_chat_ba.Externals.{Externals}
use fastapi_realtime_chat_ba.Ids.{Cursors}
use fastapi_realtime_chat_ba.Chat.Session.{
  Exec, ◌>>=◌, ◌>>◌, pure, lift, raise, gets, modify, one_or_none,
}
use fastapi_realtime_chat_ba.Chat.Statements.{has_client_msg_id, is_conversation, insert_outbox}

-- app/schemas.py
pub record SendMessageRequest : Type 0 where
  pub recipient_id : String
  pub client_msg_id : String
  pub body : Option String
  pub attachment_key : Option String

-- app/text.py
unfoldable pub grapheme_length : Externals → String → ℕ
grapheme_length x text = length (x.find_graphemes text)

abbrev pub download_url : Externals → Option String → Option String
download_url x none = none
download_url x (some key) = if str_eq key "" then none else some (x.generate_presigned_url key)

unfoldable pub to_out : Externals → Cursors → Message → MessageOut
to_out x k m = record {
  id = m.id;
  conversation_id = m.conversation_id;
  sender_id = m.sender_id;
  recipient_id = m.recipient_id;
  client_msg_id = m.client_msg_id;
  body = m.body;
  attachment_key = m.attachment_key;
  attachment_mime = m.attachment_mime;
  attachment_url = download_url x m.attachment_key;
  status = m.status;
  created_at = m.created_at;
  delivered_at = m.delivered_at;
  read_at = m.read_at;
  cursor = k.encode_cursor m.created_at m.id;
}

-- dict.fromkeys: the first of each, in order
unfoldable pub without : String → List String → List String
without u [] = []
without u (v ∷ vs) = let rest = without u vs in if str_eq v u then rest else v ∷ rest

unfoldable pub from_keys : List String → List String
unfolding without
from_keys [] = []
from_keys (u ∷ us) = u ∷ without u (from_keys us)

unfoldable pub stage : Time → EventData → String → List String → Db → Db
unfolding insert_outbox
stage now content event_type [] db = db
stage now content event_type (u ∷ us) db =
    stage now content event_type us (insert_outbox now (make_event event_type content) db u)

unfoldable pub enqueue : Time → List String → String → EventData → Exec (Unit {0})
unfolding stage from_keys
enqueue now recipients event_type content =
    modify (stage now content event_type (from_keys recipients))

unfoldable pub in_conversation : String → Conversation → Bool
in_conversation user_id c = str_eq user_id c.user_a || str_eq user_id c.user_b

unfoldable pub get_conversation : String → Uuid → Exec Conversation
unfolding in_conversation
get_conversation user_id conversation_id = do
  found ← gets (λ db. find_row (is_conversation conversation_id) db.conversations)
  elim found [
    | none ↦ raise (not_found "Conversation not found")
    | some c ↦
        if in_conversation user_id c then pure c else raise (not_found "Conversation not found")
  ]

unfoldable pub by_client_msg_id : String → String → Exec (Option Message)
by_client_msg_id sender_id client_msg_id = do
  rows ← gets (λ db. rows_where (has_client_msg_id sender_id client_msg_id) db.messages)
  lift (one_or_none rows)

-- the comparison of `_replay`
unfoldable pub same_request : Message → SendMessageRequest → Bool
same_request existing req =
    str_eq existing.recipient_id req.recipient_id
    && opt_eq existing.body req.body
    && opt_eq existing.attachment_key req.attachment_key

abbrev pub count_replay : Exec (Unit {0})
count_replay s = (ok tt, record s { messages_replayed = s.messages_replayed + 1 })

abbrev pub idempotency_conflict : AppError
idempotency_conflict =
    app_error 409 "idempotency_conflict" "client_msg_id was already used for another message"

unfoldable pub replay : Externals → Cursors → Message → SendMessageRequest → Exec MessageOut
unfolding same_request
replay x k existing req =
    if not (same_request existing req)
    then raise idempotency_conflict
    else do count_replay; pure (to_out x k existing)
