-- ===== src/Chat/Send/Writes.antt =====
-- The rows that a send writes: the message, and the events in the outbox.
use fastapi_realtime_chat_ba.Prelude.{
  ℕ, ◌<◌, String, true, false, Option, some, none, List, [], ◌∷◌, ◌≡◌, refl, arith, inl, inr,
  find_row, All, All-map, Bool-cases, Option-cases, ◌==◌, str_eq, eq_iff,
}
use fastapi_realtime_chat_ba.Errors.{Result, ok, err, integrity_error}
use fastapi_realtime_chat_ba.Models.{
  Time, Conversation, peer_of, Message, Outbox, EventData, Event, Db, make_event,
}
use fastapi_realtime_chat_ba.Externals.{Externals}
use fastapi_realtime_chat_ba.Chat.Session.{Session}
use fastapi_realtime_chat_ba.Chat.Statements.{
  has_client_msg_id, has_id, is_pair, has_content, message_columns_fit, insert_message,
  insert_outbox, sorted_pair,
}
use fastapi_realtime_chat_ba.Chat.Common.{in_conversation, from_keys, without, stage, enqueue}
use fastapi_realtime_chat_ba.Chat.Valid.{IsValid, InConversation, HasReceipts}

-- Both users of a sorted pair are in its conversation, each the peer of the other.
pub pair_members :
    (u w : String) (c : Conversation)
    → is_pair (sorted_pair u w).0 (sorted_pair u w).1 c ≡ true
    → (in_conversation u c ≡ true) × (peer_of c u ≡ w)
unfolding sorted_pair in_conversation
pair_members u w c h = ground (
  arith,
  eq_iff c.user_a u,
  eq_iff c.user_b u,
  eq_iff c.user_a w,
  eq_iff c.user_b w,
  eq_iff u c.user_a,
  eq_iff u c.user_b,
)

abbrev pub with_message : Message → Db → Db
with_message m d = record d { messages = m ∷ d.messages }

pub IsValid-with_message :
    (x : Externals) (m : Message) (d : Db)
    → IsValid x d
    → find_row (has_client_msg_id m.sender_id m.client_msg_id) d.messages ≡ none
    → find_row (has_id m.id) d.messages ≡ none
    → has_content m ≡ true
    → HasReceipts m
    → InConversation d.conversations m
    → IsValid x (with_message m d)
IsValid-with_message x m d v no_key no_id content receipts member = record {
  client_msg_ids = (no_key, v.client_msg_ids);
  ids = (no_id, v.ids);
  pairs = v.pairs;
  conversation_ids = v.conversation_ids;
  outbox_ids = v.outbox_ids;
  below_next = v.below_next;
  sorted_pairs = v.sorted_pairs;
  contents = (content, v.contents);
  receipts = (receipts, v.receipts);
  members = (member, v.members);
}

-- The three ends of the insert: a violated constraint, a message with this key, a new row.
pub data Inserted (m : Message) (d : Db) (r : Result (Option Message × Db)) : Type 0 where
  violated : r ≡ err integrity_error → Inserted m d r
  conflicting :
      (e : Message)
      → find_row (has_client_msg_id m.sender_id m.client_msg_id) d.messages ≡ some e
      → r ≡ ok (none, d)
      → Inserted m d r
  added :
      find_row (has_client_msg_id m.sender_id m.client_msg_id) d.messages ≡ none
      → find_row (has_id m.id) d.messages ≡ none
      → has_content m ≡ true
      → r ≡ ok (some m, with_message m d)
      → Inserted m d r

pub insert_message-Inserted : (m : Message) (d : Db) → Inserted m d (insert_message m d)
unfolding insert_message
insert_message-Inserted m d = elim (Bool-cases (message_columns_fit m)) [
  | inr bad ↦ violated (ground arith)
  | inl fit ↦ elim (Bool-cases (has_content m)) [
    | inr bad ↦ violated (ground arith)
    | inl content ↦
        elim (Option-cases (find_row (has_client_msg_id m.sender_id m.client_msg_id) d.messages)) [
          | inr (e, there) ↦ conflicting e there (ground arith)
          | inl no_key ↦ elim (Option-cases (find_row (has_id m.id) d.messages)) [
            | inr (e, there) ↦ violated (ground arith)
            | inl no_id ↦ added no_key no_id content (ground arith)
          ]
        ]
  ]
]

fresh_outbox :
    (n : ℕ) (rows : List Outbox) → All (λ o. o.id < n) rows → find_row (λ o. o.id == n) rows ≡ none
fresh_outbox n [] h = refl
fresh_outbox n (o ∷ rows) h = ground (arith, fresh_outbox n rows h.1)

-- One more event in the outbox.
pub IsValid-insert_outbox :
    (x : Externals) (now : Time) (event : Event) (d : Db) (u : String)
    → IsValid x d
    → IsValid x (insert_outbox now event d u)
unfolding insert_outbox
IsValid-insert_outbox x now event d u v = record {
  client_msg_ids = v.client_msg_ids;
  ids = v.ids;
  pairs = v.pairs;
  conversation_ids = v.conversation_ids;
  outbox_ids = (fresh_outbox d.next_outbox_id d.outbox v.below_next, v.outbox_ids);
  below_next = (omega arith, All-map d.outbox (λ o h. omega arith) v.below_next);
  sorted_pairs = v.sorted_pairs;
  contents = v.contents;
  receipts = v.receipts;
  members = v.members;
}

pub IsValid-stage :
    (x : Externals) (now : Time) (content : EventData) (kind : String) (us : List String) (d : Db)
    → IsValid x d
    → IsValid x (stage now content kind us d)
unfolding stage
IsValid-stage x now content kind [] d v = v
IsValid-stage x now content kind (u ∷ us) d v =
    IsValid-stage x now content kind us (insert_outbox now (make_event kind content) d u)
      (IsValid-insert_outbox x now (make_event kind content) d u v)

-- Two different recipients stay two.
pub from_keys_pair : (u w : String) → str_eq u w ≡ false → from_keys (u ∷ w ∷ []) ≡ u ∷ w ∷ []
unfolding from_keys without
from_keys_pair u w h = ground (arith, eq_iff u w, eq_iff w u)

-- Staging events changes the outbox only.
pub stage-messages :
    (now : Time) (content : EventData) (kind : String) (us : List String) (d : Db)
    → ((stage now content kind us d).messages ≡ d.messages)
      × ((stage now content kind us d).conversations ≡ d.conversations)
unfolding stage insert_outbox
stage-messages now content kind [] d = (refl, refl)
stage-messages now content kind (u ∷ us) d =
    stage-messages now content kind us (insert_outbox now (make_event kind content) d u)

abbrev pub stages : Time → EventData → String → List String → Session → Result (Unit {0}) × Session
stages now content kind us s = (ok tt, record s { working = stage now content kind us s.working })

pub enqueue_pair :
    (now : Time) (u w kind : String) (content : EventData) (s : Session)
    → str_eq u w ≡ false
    → enqueue now (u ∷ w ∷ []) kind content s ≡ stages now content kind (u ∷ w ∷ []) s
unfolding enqueue
enqueue_pair now u w kind content s h = rw (from_keys_pair u w h) refl
