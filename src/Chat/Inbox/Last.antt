-- ===== src/Chat/Inbox/Last.antt =====
-- The last message of a conversation: none is later.

use fastapi_realtime_chat_ba.Chat.Statements.{has_id}
use fastapi_realtime_chat_ba.Prelude.{
  find_row, ◌==◌, order_by-All, Bool-cases, true, false, some, none, List, [], ◌∷◌, ◌≡◌, refl, sym,
  ap, subst, arith, inl, inr, rows_where, UniqueBy, All, All-map, order_by, insert_row,
  order_by-Ascending, rows_where-order_by, Apart-rows_where, IsStrict, Comparable, Apart, Ascending,
  ◌∙◌,
}
use fastapi_realtime_chat_ba.Models.{Uuid, Message, Db}
use fastapi_realtime_chat_ba.Chat.Valid.{same_id}
use fastapi_realtime_chat_ba.Chat.Listing.{message_lt, message_gt, of_conversation, rows_after}
use fastapi_realtime_chat_ba.Chat.Listing.Rows.{ids-Apart}
use fastapi_realtime_chat_ba.Chat.Inbox.{first_row, last_message}

message_gt-IsStrict : IsStrict message_gt
message_gt-IsStrict = record { irrefl = λ m. ground arith; trans = λ l m n a b. ground arith }

-- Messages in one order are in the reverse order too.
Comparable-swap :
    (m : Message) (ms : List Message)
    → All (Comparable message_lt m) ms
    → All (Comparable message_gt m) ms
Comparable-swap m ms h = All-map ms (λ q c. elim c [ inl e ↦ inr e | inr e ↦ inl e ]) h

Apart-swap : (ms : List Message) → Apart message_lt ms → Apart message_gt ms
Apart-swap [] a = tt
Apart-swap (m ∷ ms) a = (Comparable-swap m ms a.0, Apart-swap ms a.1)

insert_row-nonempty :
    (m : Message) (ms : List Message) → insert_row message_gt m ms ≡ [] → (m ∷ []) ≡ []
unfolding insert_row
insert_row-nonempty m [] h = h
insert_row-nonempty m (q ∷ ms) h = ground arith

order_by-nil : (ms : List Message) → order_by message_gt ms ≡ [] → ms ≡ []
unfolding order_by
order_by-nil [] h = refl
order_by-nil (m ∷ ms) h = let bad = insert_row-nonempty m (order_by message_gt ms) h in absurd (cc)

none_later :
    (m : Message) (ms : List Message)
    → All (λ q. message_gt m q ≡ true) ms
    → rows_where (message_lt m) ms ≡ []
none_later m [] h = refl
none_later m (q ∷ ms) h =
    let not_later : message_lt m q ≡ false = ground (arith, h.0) in
    ground (arith, not_later, none_later m ms h.1)

none_after_first :
    (m : Message) (ms : List Message)
    → Ascending message_gt ms
    → first_row ms ≡ some m
    → rows_where (message_lt m) ms ≡ []
none_after_first m [] a h = refl
none_after_first m (q ∷ ms) a h =
    let same : q ≡ m = cc in
    let itself : message_lt m m ≡ false = ground arith in
    subst (λ z. rows_where (message_lt m) (z ∷ ms) ≡ []) (sym same)
      (rw itself (none_later m ms (subst (λ z. All (λ y. message_gt z y ≡ true) ms) same a.0)))

-- No message of a conversation is later than its last one.
pub nothing_later :
    (id : Uuid) (d : Db) (m : Message)
    → UniqueBy same_id d.messages
    → last_message id d ≡ some m
    → rows_where (message_lt m) (rows_where (of_conversation id) d.messages) ≡ []
unfolding last_message
nothing_later id d m u h =
    let inside = rows_where (of_conversation id) d.messages in
    let apart : Apart message_gt inside =
      Apart-swap inside
        (Apart-rows_where message_lt (of_conversation id) d.messages (ids-Apart d.messages u)) in
    order_by-nil (rows_where (message_lt m) inside) (
      sym (rows_where-order_by message_gt-IsStrict (message_lt m) inside apart)
      ∙ none_after_first m (order_by message_gt inside)
          (order_by-Ascending message_gt-IsStrict inside apart) h)

-- After the last message of a conversation a sync finds nothing.
pub none_after_last :
    (id : Uuid) (d : Db) (m : Message)
    → UniqueBy same_id d.messages
    → last_message id d ≡ some m
    → rows_after id (m.created_at, m.id) d ≡ []
unfolding rows_after order_by
none_after_last id d m u h = ap (order_by message_lt) (nothing_later id d m u h)

first_row-none : (ms : List Message) → first_row ms ≡ none → ms ≡ []
first_row-none [] h = refl
first_row-none (m ∷ ms) h = absurd (cc)

pub no_message :
    (id : Uuid) (d : Db)
    → last_message id d ≡ none
    → rows_where (of_conversation id) d.messages ≡ []
unfolding last_message
no_message id d h =
    order_by-nil (rows_where (of_conversation id) d.messages)
      (first_row-none (order_by message_gt (rows_where (of_conversation id) d.messages)) h)

stored_later :
    (r q : Message) (ms : List Message)
    → find_row (has_id r.id) ms ≡ none
    → find_row (has_id q.id) ms ≡ some q
    → find_row (has_id q.id) (r ∷ ms) ≡ some q
stored_later r q ms fresh there = elim (Bool-cases (r.id == q.id)) [
  | inl same ↦
      let e : r.id ≡ q.id = ground arith in
      let missing : find_row (has_id q.id) ms ≡ none =
        subst (λ z. find_row (has_id z) ms ≡ none) e fresh in
      absurd (cc)
  | inr differ ↦ rw differ there
]

-- A message of a conversation that is stored.
abbrev pub Stored : Uuid → List Message → Message → Type 0
Stored id ms m = (m.conversation_id ≡ id) × (find_row (has_id m.id) ms ≡ some m)

rows_where-Stored :
    (id : Uuid) (ms : List Message)
    → UniqueBy same_id ms
    → All (Stored id ms) (rows_where (of_conversation id) ms)
unfolding of_conversation
rows_where-Stored id [] u = tt
rows_where-Stored id (r ∷ ms) u =
    let rest =
      All-map (rows_where (of_conversation id) ms) (λ q h. (h.0, stored_later r q ms u.0 h.1))
        (rows_where-Stored id ms u.1) in
    elim (Bool-cases (r.conversation_id == id)) [
      | inl inside ↦
          let itself : (r.id == r.id) ≡ true = ground arith in
          rw inside ((ground arith, rw itself refl), rest)
      | inr outside ↦ rw outside rest
    ]

first_row-All :
    (P : Message → Type 0) (ms : List Message) (m : Message)
    → All P ms
    → first_row ms ≡ some m
    → P m
first_row-All P [] m h e = absurd (cc)
first_row-All P (q ∷ ms) m h e = let same : q ≡ m = cc in subst P same h.0

-- The last message of a conversation is one of it, and stored.
pub last-Stored :
    (id : Uuid) (d : Db) (m : Message)
    → UniqueBy same_id d.messages
    → last_message id d ≡ some m
    → Stored id d.messages m
unfolding last_message
last-Stored id d m u h =
    let inside = rows_where (of_conversation id) d.messages in
    first_row-All (Stored id d.messages) (order_by message_gt inside) m
      (order_by-All message_gt (Stored id d.messages) inside (rows_where-Stored id d.messages u)) h
