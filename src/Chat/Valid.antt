-- ===== src/Chat/Valid.antt =====
-- The invariant of the database that the service keeps: the unique keys, the check constraints, and
-- what the columns of one message have to do with one another.
use fastapi_realtime_chat_ba.Prelude.{
  ◌<◌, String, Bool, true, Option, some, none, List, ◌≡◌, arith, ◌==◌, eq_iff, eq_refl, find_row,
  UniqueBy, Keyed, All, find_row_self,
}
use fastapi_realtime_chat_ba.Models.{
  Time, Conversation, peer_of, Message, MessageStatus, sent, delivered, read, Outbox, Db,
}
use fastapi_realtime_chat_ba.Externals.{Externals}
use fastapi_realtime_chat_ba.Chat.Statements.{
  has_client_msg_id, has_id, is_pair, is_conversation, is_some, has_content,
}
use fastapi_realtime_chat_ba.Chat.Common.{in_conversation}

abbrev pub same_client_msg_id : Message → Message → Bool
same_client_msg_id m = has_client_msg_id m.sender_id m.client_msg_id

abbrev pub same_id : Message → Message → Bool
same_id m = has_id m.id

abbrev pub same_pair : Conversation → Conversation → Bool
same_pair c = is_pair c.user_a c.user_b

abbrev pub same_conversation : Conversation → Conversation → Bool
same_conversation c = is_conversation c.id

abbrev pub same_outbox : Outbox → Outbox → Bool
same_outbox o p = p.id == o.id

-- The receipts that a message has at each status.
abbrev pub Receipts : MessageStatus → Option Time → Option Time → Type 0
Receipts sent delivered_at read_at = (delivered_at ≡ none) × (read_at ≡ none)
Receipts delivered delivered_at read_at = (is_some delivered_at ≡ true) × (read_at ≡ none)
Receipts read delivered_at read_at = (is_some delivered_at ≡ true) × (is_some read_at ≡ true)

abbrev pub HasReceipts : Message → Type 0
HasReceipts m = Receipts m.status m.delivered_at m.read_at

-- The message stands in a conversation of its sender and its recipient.
pub record InConversation (cs : List Conversation) (m : Message) : Type 0 where
  pub conversation : Conversation
  pub found : find_row (is_conversation m.conversation_id) cs ≡ some conversation
  pub of_sender : in_conversation m.sender_id conversation ≡ true
  pub peer : peer_of conversation m.sender_id ≡ m.recipient_id

pub record IsValid (x : Externals) (db : Db) : Type 0 where
  pub client_msg_ids : UniqueBy same_client_msg_id db.messages
  pub ids : UniqueBy same_id db.messages
  pub pairs : UniqueBy same_pair db.conversations
  pub conversation_ids : UniqueBy same_conversation db.conversations
  pub outbox_ids : UniqueBy same_outbox db.outbox
  pub below_next : All (λ o. o.id < db.next_outbox_id) db.outbox
  pub sorted_pairs : All (λ c. x.text_lt c.user_a c.user_b ≡ true) db.conversations
  pub contents : All (λ m. has_content m ≡ true) db.messages
  pub receipts : All HasReceipts db.messages
  pub members : All (InConversation db.conversations) db.messages

pub client_msg_id-Keyed : (s c : String) → Keyed same_client_msg_id (has_client_msg_id s c)
client_msg_id-Keyed s c r q h = ground (arith, eq_iff r.sender_id s, eq_iff r.client_msg_id c)

pub pair-Keyed : (a b : String) → Keyed same_pair (is_pair a b)
pair-Keyed a b r q h = ground (arith, eq_iff r.user_a a, eq_iff r.user_b b)

pub same_client_msg_id_refl : (m : Message) → same_client_msg_id m m ≡ true
same_client_msg_id_refl m = ground (arith, eq_refl m.sender_id, eq_refl m.client_msg_id)

pub same_conversation_comm : (c d : Conversation) → same_conversation c d ≡ same_conversation d c
same_conversation_comm c d = ground arith

-- A conversation is found by its identifier.
pub find_conversation :
    (p : Conversation → Bool) (cs : List Conversation) (c : Conversation)
    → UniqueBy same_conversation cs
    → find_row p cs ≡ some c
    → find_row (is_conversation c.id) cs ≡ some c
find_conversation p cs c u h =
    find_row_self same_conversation p cs c (λ q. ground arith) same_conversation_comm u h
