-- ===== src/Chat/Inbox.antt =====
-- app/services/chat.py, list_conversations.
pub mod Last
pub mod Items
mod Examples
use mathlib.Core.Option
use fastapi_realtime_chat_ba.Prelude.{
  ℕ, String, Bool, true, false, not, ◌&&◌, ◌||◌, Option, some, none, List, [], ◌∷◌, map, ltb,
  str_eq, ◌==◌, if◌then◌else◌, rows_where, count_where, order_by, take,
}
use fastapi_realtime_chat_ba.Models.{
  Uuid, Time, Conversation, peer_of, Message, MessageOut, MessageStatus, status_eq, Db,
}
use fastapi_realtime_chat_ba.Externals.{Externals}
use fastapi_realtime_chat_ba.Ids.{Cursors}
use fastapi_realtime_chat_ba.Chat.Session.{Exec, ◌>>=◌, pure, gets}
use fastapi_realtime_chat_ba.Chat.Common.{to_out, in_conversation}
use fastapi_realtime_chat_ba.Chat.Listing.{message_gt, of_conversation}

-- app/schemas.py
pub record ConversationOut : Type 0 where
  pub id : Uuid
  pub peer_id : String
  pub created_at : Time
  pub last_message : Option MessageOut
  pub unread_count : ℕ

-- One row of the statement: the conversation, its last message and the unread count.
pub record Row : Type 0 where
  pub conversation : Conversation
  pub last : Option Message
  pub unread : ℕ

abbrev pub first_row : List Message → Option Message
first_row [] = none
first_row (m ∷ ms) = some m

-- the lateral subquery: ORDER BY created_at DESC, id DESC LIMIT 1
unfoldable pub last_message : Uuid → Db → Option Message
last_message id db = first_row (order_by message_gt (rows_where (of_conversation id) db.messages))

unfoldable pub is_unread : Uuid → String → Message → Bool
is_unread id user_id m =
    m.conversation_id == id
    && str_eq m.recipient_id user_id
    && not (status_eq m.status MessageStatus.read)

unfoldable pub unread : Uuid → String → Db → ℕ
unread id user_id db = count_where (is_unread id user_id) db.messages

abbrev pub row_of : String → Db → Conversation → Row
row_of user_id db c = record {
  conversation = c;
  last = last_message c.id db;
  unread = unread c.id user_id db;
}

-- the time by which the statement orders its rows
abbrev pub active_at : Row → Time
active_at r = elim r.last [ none ↦ r.conversation.created_at | some m ↦ m.created_at ]

abbrev pub later_active : Row → Row → Bool
later_active r q = ltb (active_at q) (active_at r)

-- The statement. Rows of the same time come in the order in which the database finds them.
unfoldable pub conversation_rows : Externals → String → ℕ → Db → List Row
conversation_rows x user_id limit db = take limit (
    order_by later_active
      (map (row_of user_id db) (x.scanned (rows_where (in_conversation user_id) db.conversations))))

unfoldable pub conversation_out : Externals → Cursors → String → Row → ConversationOut
conversation_out x k user_id r = record {
  id = r.conversation.id;
  peer_id = peer_of r.conversation user_id;
  created_at = r.conversation.created_at;
  last_message = Option.map (to_out x k) r.last;
  unread_count = r.unread;
}

unfoldable pub list_conversations : Externals → Cursors → String → ℕ → Exec (List ConversationOut)
list_conversations x k user_id limit = do
  rows ← gets (conversation_rows x user_id limit)
  pure (map (conversation_out x k user_id) rows)
