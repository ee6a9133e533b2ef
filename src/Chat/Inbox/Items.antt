-- ===== src/Chat/Inbox/Items.antt =====
-- What the conversation list shows.

use mathlib.Core.List.{Perm}
use mathlib.Core.List.Perm
use fastapi_realtime_chat_ba.Prelude.{
  ltb, ◌&&◌, ◌==◌, count_where, insert_row-All, ℕ, ◌≤◌, String, true, false, some, none, List, [],
  ◌∷◌, map, ◌≡◌, refl, arith, ◌⊎◌, inl, inr, rows_where, UniqueBy, All, All-map, take, length,
  order_by, insert_row, order_by-All, Bool-cases, Option-cases,
}
use fastapi_realtime_chat_ba.Errors.{ok}
use fastapi_realtime_chat_ba.Models.{Uuid, Conversation, Message, Db}
use fastapi_realtime_chat_ba.Externals.{Externals}
use fastapi_realtime_chat_ba.Ids.{Cursors}
use fastapi_realtime_chat_ba.Chat.Session.{open_session}
use fastapi_realtime_chat_ba.Chat.Statements.{key_le}
use fastapi_realtime_chat_ba.Chat.Common.{in_conversation}
use fastapi_realtime_chat_ba.Chat.Receipts.{is_unread_up_to}
use fastapi_realtime_chat_ba.Chat.Valid.{same_id}
use fastapi_realtime_chat_ba.Chat.Listing.{message_lt, of_conversation, rows_after}
use fastapi_realtime_chat_ba.Chat.Inbox.{
  active_at, is_unread, unread, Row, last_message, row_of, later_active, conversation_rows,
  conversation_out, list_conversations,
}
use fastapi_realtime_chat_ba.Chat.Inbox.Last.{
  nothing_later, none_after_last, no_message, Stored, last-Stored,
}

-- One row adds the same to both counts.
unread_row :
    (id : Uuid) (user_id : String) (m r : Message)
    → (of_conversation id r && message_lt m r) ≡ false
    → is_unread id user_id r ≡ is_unread_up_to id user_id m r
unfolding is_unread is_unread_up_to of_conversation
unread_row id user_id m r h = elim (Bool-cases (r.conversation_id == id)) [
  | inl inside ↦
      let place : key_le r.created_at r.id m.created_at m.id ≡ true = ground arith in
      rw (inside, place) (ground arith)
  | inr outside ↦ rw outside refl
]

unread_counts :
    (id : Uuid) (user_id : String) (m : Message) (ms : List Message)
    → rows_where (message_lt m) (rows_where (of_conversation id) ms) ≡ []
    → count_where (is_unread id user_id) ms ≡ length (rows_where (is_unread_up_to id user_id m) ms)
unread_counts id user_id m [] h = refl
unread_counts id user_id m (r ∷ ms) h = elim (Bool-cases (of_conversation id r)) [
  | inl inside ↦ elim (Bool-cases (message_lt m r)) [
    | inl later ↦ absurd (ground arith)
    | inr early ↦
        let same = unread_row id user_id m r (rw (inside, early) refl) in
        ground (arith, same, unread_counts id user_id m ms)
  ]
  | inr outside ↦
      let same = unread_row id user_id m r (rw outside refl) in
      ground (arith, same, unread_counts id user_id m ms)
]

none_unread :
    (id : Uuid) (user_id : String) (ms : List Message)
    → rows_where (of_conversation id) ms ≡ []
    → count_where (is_unread id user_id) ms ≡ 0
unfolding is_unread of_conversation
none_unread id user_id [] h = refl
none_unread id user_id (r ∷ ms) h = ground (arith, none_unread id user_id ms)

-- What a row says of its conversation: it has no message, or the last one, a stored one after which a
-- sync finds nothing, with the number of messages that reading up to it marks.
abbrev pub Accurate : String → Db → Row → Type 0
Accurate user_id d r =
    ((r.last ≡ none)
      × (rows_where (of_conversation r.conversation.id) d.messages ≡ [])
      × (r.unread ≡ 0))
    ⊎ ((m : Message) × (r.last ≡ some m)
        × (Stored r.conversation.id d.messages m)
        × (rows_after r.conversation.id (m.created_at, m.id) d ≡ [])
        × (r.unread ≡ length (rows_where (is_unread_up_to r.conversation.id user_id m) d.messages)))

-- Rows with the latest activity first.
abbrev pub Newest : List Row → Type 0
Newest [] = Unit
Newest (r ∷ rs) = All (λ q. active_at q ≤ active_at r) rs × Newest rs

below : (m n : ℕ) → ltb m n ≡ true → m ≤ n
below m n h = ground arith

not_below : (m n : ℕ) → ltb m n ≡ false → n ≤ m
not_below m n h = ground arith

le_trans : (l m n : ℕ) → l ≤ m → m ≤ n → l ≤ n
le_trans l m n a b = omega arith

insert_row-Newest : (r : Row) (qs : List Row) → Newest qs → Newest (insert_row later_active r qs)
unfolding insert_row
insert_row-Newest r [] a = (tt, tt)
insert_row-Newest r (q ∷ qs) a = elim (Bool-cases (later_active r q)) [
  | inl e ↦
      let le = below (active_at q) (active_at r) e in
      rw e
        ((le, All-map qs (λ z h. le_trans (active_at z) (active_at q) (active_at r) h le) a.0), a)
  | inr e ↦ rw e (
    insert_row-All later_active (λ z. active_at z ≤ active_at q) r qs
        (not_below (active_at q) (active_at r) e) a.0,
    insert_row-Newest r qs a.1,
  )
]

order_by-Newest : (rs : List Row) → Newest (order_by later_active rs)
unfolding order_by
order_by-Newest [] = tt
order_by-Newest (r ∷ rs) = insert_row-Newest r (order_by later_active rs) (order_by-Newest rs)

insert_row-Perm : (r : Row) (qs : List Row) → Perm (insert_row later_active r qs) (r ∷ qs)
unfolding insert_row
insert_row-Perm r [] = Perm.refl (r ∷ [])
insert_row-Perm r (q ∷ qs) = elim (Bool-cases (later_active r q)) [
  | inl e ↦ rw e (Perm.refl (r ∷ q ∷ qs))
  | inr e ↦ rw e (Perm.trans (Perm.cons q (insert_row-Perm r qs)) (Perm.swap r q qs))
]

order_by-Perm : (rs : List Row) → Perm (order_by later_active rs) rs
unfolding order_by
order_by-Perm [] = Perm.nil
order_by-Perm (r ∷ rs) =
    Perm.trans (insert_row-Perm r (order_by later_active rs)) (Perm.cons r (order_by-Perm rs))

module _ (x : Externals) (k : Cursors) (user_id : String) (limit : ℕ) (d : Db) where
  row-Accurate :
      UniqueBy same_id d.messages → (c : Conversation) → Accurate user_id d (row_of user_id d c)
  unfolding unread
  row-Accurate u c = elim (Option-cases (last_message c.id d)) [
    | inl none_yet ↦
        let empty = no_message c.id d none_yet in
        inl (none_yet, empty, none_unread c.id user_id d.messages empty)
    | inr (m, last) ↦ inr (
      m,
      last,
      last-Stored c.id d m u last,
      none_after_last c.id d m u last,
      unread_counts c.id user_id m d.messages (nothing_later c.id d m u last),
    )
  ]

  rows-Accurate :
      UniqueBy same_id d.messages
      → (cs : List Conversation) → All (Accurate user_id d) (map (row_of user_id d) cs)
  rows-Accurate u [] = tt
  rows-Accurate u (c ∷ cs) = (row-Accurate u c, rows-Accurate u cs)

  -- The conversation list answers, and changes nothing. It shows the first `limit` of the rows of all
  -- stored conversations of the user, those with the latest activity first. Each row has the last
  -- message of its conversation, after which a sync finds no other, and counts as unread what
  -- `mark_read` up to this message marks; where a conversation has no message it says so.
  pub list_conversations_items :
      UniqueBy same_id d.messages
      → (rows : List Row) × (list_conversations x k user_id limit (open_session d)
          ≡ (ok (map (conversation_out x k user_id) (take limit rows)), open_session d))
        × Perm rows (map (row_of user_id d) (rows_where (in_conversation user_id) d.conversations))
        × Newest rows
        × All (Accurate user_id d) rows
  unfolding list_conversations conversation_rows
  list_conversations_items u =
      let mine = rows_where (in_conversation user_id) d.conversations in
      let found = map (row_of user_id d) (x.scanned mine) in
      (
        order_by later_active found,
        refl,
        Perm.trans (order_by-Perm found) (Perm.map (row_of user_id d) (x.scanned-perm mine)),
        order_by-Newest found,
        order_by-All later_active (Accurate user_id d) found (rows-Accurate u (x.scanned mine)),
      )
