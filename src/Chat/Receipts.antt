-- ===== src/Chat/Receipts.antt =====
-- app/services/chat.py: ChatService.mark_delivered and ChatService.mark_read
pub mod Delivered
pub mod Read
mod Rules
mod Valid
pub mod Advances
pub mod Progress
pub mod Settled
pub mod Marked
mod Examples
use fastapi_realtime_chat_ba.Prelude.{
  ℕ, String, Bool, true, false, not, ◌&&◌, ◌||◌, Option, some, none, List, [], ◌∷◌, map, str_eq,
  ◌==◌, if◌then◌else◌, rows_where, find_row,
}
use fastapi_realtime_chat_ba.Errors.{app_error, not_found}
use fastapi_realtime_chat_ba.Models.{
  Uuid, Time, Conversation, peer_of, Message, MessageOut, MessageStatus, status_eq, delivered_data,
  read_data, Db,
}
use fastapi_realtime_chat_ba.Externals.{Externals}
use fastapi_realtime_chat_ba.Ids.{Cursors}
use fastapi_realtime_chat_ba.Chat.Session.{
  Session, Exec, ◌>>=◌, ◌>>◌, pure, lift, raise, gets, modify, commit, one_or_none,
}
use fastapi_realtime_chat_ba.Chat.Statements.{has_id, update_messages, key_le}
use fastapi_realtime_chat_ba.Chat.Common.{to_out, enqueue, get_conversation}

-- The rows of `mark_delivered`, and their new values.
unfoldable pub awaits_delivery : String → Uuid → Message → Bool
awaits_delivery user_id message_id m =
    m.id == message_id && (str_eq m.recipient_id user_id && status_eq m.status MessageStatus.sent)

unfoldable pub deliver : Time → Message → Message
deliver now m = record m { status = MessageStatus.delivered; delivered_at = some now }

unfoldable pub not_delivered : Externals → Cursors → String → Uuid → Exec MessageOut
not_delivered x k user_id message_id = do
  found ← gets (λ db. find_row (has_id message_id) db.messages)
  elim found [
    | none ↦ raise (not_found "Message not found")
    | some m ↦
        if not (str_eq user_id m.sender_id || str_eq user_id m.recipient_id)
        then raise (not_found "Message not found")
        else if not (str_eq m.recipient_id user_id)
        then raise (app_error 403 "access_denied" "Only the recipient can confirm delivery")
        else pure (to_out x k m)
  ]

unfoldable pub announce_delivered : Externals → Cursors → Time → Time → Message → Exec MessageOut
announce_delivered x k now staged_at updated = do
  enqueue staged_at (updated.sender_id ∷ []) "message.delivered"
      (delivered_data updated.id updated.conversation_id updated.client_msg_id now)
  commit
  pure (to_out x k updated)

-- the UPDATE … RETURNING of `mark_delivered`
unfoldable pub update_delivered : Time → String → Uuid → Exec (Option Message)
update_delivered now user_id message_id = do
  rows ←
      gets (λ db. map (deliver now) (rows_where (awaits_delivery user_id message_id) db.messages))
  modify (update_messages (awaits_delivery user_id message_id) (deliver now))
  lift (one_or_none rows)

unfoldable pub mark_delivered : Externals → Cursors → Time → Time → String → Uuid → Exec MessageOut
mark_delivered x k now staged_at user_id message_id = do
  updated ← update_delivered now user_id message_id
  elim updated [
    | none ↦ not_delivered x k user_id message_id
    | some m ↦ announce_delivered x k now staged_at m
  ]

-- app/schemas.py
pub record ReadResult : Type 0 where
  pub conversation_id : Uuid
  pub message_ids : List Uuid
  pub read_at : Option Time

-- The rows of `mark_read`, and their new values.
unfoldable pub is_unread_up_to : Uuid → String → Message → Message → Bool
is_unread_up_to conversation_id user_id anchor m =
    m.conversation_id == conversation_id
    && str_eq m.recipient_id user_id
    && not (status_eq m.status MessageStatus.read)
    && key_le m.created_at m.id anchor.created_at anchor.id

-- SQL's coalesce
abbrev pub coalesce : Option Time → Time → Option Time
coalesce none t = some t
coalesce (some u) t = some u

unfoldable pub set_read : Time → Message → Message
set_read now m = record m {
  status = MessageStatus.read;
  read_at = some now;
  delivered_at = coalesce m.delivered_at now;
}

unfoldable pub get_anchor : Conversation → Uuid → Exec Message
get_anchor conversation up_to_message_id = do
  found ← gets (λ db. find_row (has_id up_to_message_id) db.messages)
  elim found [
    | none ↦ raise (not_found "Message not found in this conversation")
    | some anchor ↦
        if not (anchor.conversation_id == conversation.id)
        then raise (not_found "Message not found in this conversation")
        else pure anchor
  ]

unfoldable pub announce_read : Time → Time → String → Conversation → List Uuid → Exec ReadResult
announce_read now staged_at user_id conversation [] =
    pure (record { conversation_id = conversation.id; message_ids = []; read_at = none })
announce_read now staged_at user_id conversation (id ∷ ids) = do
  enqueue staged_at (peer_of conversation user_id ∷ []) "message.read"
      (read_data conversation.id user_id (id ∷ ids) now)
  commit
  pure (record { conversation_id = conversation.id; message_ids = id ∷ ids; read_at = some now })

unfoldable pub read_up_to :
    Externals → Time → Time → String → Conversation → Message → Exec ReadResult
read_up_to x now staged_at user_id conversation anchor =
    let due = is_unread_up_to conversation.id user_id anchor in
    do
      ids ← gets (λ db. x.returned (map (λ m. m.id) (rows_where due db.messages)))
      modify (update_messages due (set_read now))
      announce_read now staged_at user_id conversation ids

unfoldable pub mark_read : Externals → Time → Time → String → Uuid → Uuid → Exec ReadResult
mark_read x now staged_at user_id conversation_id up_to_message_id = do
  conversation ← get_conversation user_id conversation_id
  anchor ← get_anchor conversation up_to_message_id
  read_up_to x now staged_at user_id conversation anchor
