-- ===== src/Chat/Listing/Rows.antt =====
-- The rows of a page: their order, and where the next page begins.
use fastapi_realtime_chat_ba.Prelude.{
  zero, suc, subst, ℕ, Bool, true, some, none, List, [], ◌∷◌, ◌≡◌, refl, sym, ap, arith, inl, inr,
  find_row, rows_where, UniqueBy, All, take, drop, last?, order_by, IsStrict, Comparable, Apart,
  Ascending, order_by-All, order_by-Ascending, rows_where-order_by, rows_above_last,
  Apart-rows_where, Bool-cases, ◌∙◌,
}
use fastapi_realtime_chat_ba.Models.{Uuid, Time, Message, Db}
use fastapi_realtime_chat_ba.Chat.Statements.{key_lt, has_id}
use fastapi_realtime_chat_ba.Chat.Valid.{same_id}
use fastapi_realtime_chat_ba.Chat.Listing.{message_lt, of_conversation, rows_after}

pub message_lt-IsStrict : IsStrict message_lt
message_lt-IsStrict = record { irrefl = λ m. ground arith; trans = λ l m n a b. ground arith }

fresh-Comparable :
    (m : Message) (ms : List Message)
    → find_row (has_id m.id) ms ≡ none
    → All (Comparable message_lt m) ms
fresh-Comparable m [] h = tt
fresh-Comparable m (n ∷ ms) h = (ground arith, fresh-Comparable m ms (ground arith))

-- Messages with distinct identifiers are in one order.
pub ids-Apart : (ms : List Message) → UniqueBy same_id ms → Apart message_lt ms
ids-Apart [] u = tt
ids-Apart (m ∷ ms) u = (fresh-Comparable m ms u.0, ids-Apart ms u.1)

-- A narrower test does not see a wider one before it.
rows_where-rows_where :
    (p q : Message → Bool) (ms : List Message)
    → ((m : Message) → p m ≡ true → q m ≡ true)
    → rows_where p (rows_where q ms) ≡ rows_where p ms
rows_where-rows_where p q [] h = refl
rows_where-rows_where p q (m ∷ ms) h = elim (Bool-cases (p m)) [
  | inl e ↦ ground (arith, h m e, rows_where-rows_where p q ms h)
  | inr e ↦ ground (arith, rows_where-rows_where p q ms h)
]

passes : (p : Message → Bool) (ms : List Message) → All (λ m. p m ≡ true) (rows_where p ms)
passes p [] = tt
passes p (m ∷ ms) = elim (Bool-cases (p m)) [
  | inl e ↦ rw e (e, passes p ms)
  | inr e ↦ rw e (passes p ms)
]

last?-passes :
    (p : Message → Bool) (n : ℕ) (ms : List Message) (l : Message)
    → All (λ m. p m ≡ true) ms
    → last? (take n ms) ≡ some l
    → p l ≡ true
last?-passes p zero ms l h e = cc
last?-passes p (suc n) [] l h e = cc
last?-passes p (suc zero) (m ∷ ms) l h e = let same : m ≡ l = cc in subst (λ z. p z ≡ true) same h.0
last?-passes p (suc (suc n)) (m ∷ []) l h e =
    let same : m ≡ l = cc in subst (λ z. p z ≡ true) same h.0
last?-passes p (suc (suc n)) (m ∷ k ∷ ms) l h e = last?-passes p (suc n) (k ∷ ms) l h.1 e

key_lt_trans :
    (key : Time × Uuid) (l m : Message)
    → key_lt key.0 key.1 l.created_at l.id ≡ true
    → message_lt l m ≡ true
    → key_lt key.0 key.1 m.created_at m.id ≡ true
key_lt_trans key l m a b = ground arith

module _ (id : Uuid) (key : Time × Uuid) (d : Db) (u : UniqueBy same_id d.messages) where
  -- The rows of a cursor come in ascending order.
  pub rows_after-Ascending : Ascending message_lt (rows_after id key d)
  unfolding rows_after
  rows_after-Ascending = order_by-Ascending message_lt-IsStrict _ (
      Apart-rows_where message_lt _ _
        (Apart-rows_where message_lt (of_conversation id) d.messages (ids-Apart d.messages u)))

  -- The rows after the last row of a page are those that the page left.
  pub rows_after_last :
      (n : ℕ) (l : Message)
      → last? (take n (rows_after id key d)) ≡ some l
      → rows_after id (l.created_at, l.id) d ≡ drop n (rows_after id key d)
  unfolding rows_after
  rows_after_last n l e =
      let q : Message → Bool = λ m. key_lt key.0 key.1 m.created_at m.id in
      let inside = rows_where (of_conversation id) d.messages in
      let apart =
        Apart-rows_where message_lt (of_conversation id) d.messages (ids-Apart d.messages u) in
      let later = Apart-rows_where message_lt q inside apart in
      let above : q l ≡ true =
        last?-passes q n (order_by message_lt (rows_where q inside)) l
          (order_by-All message_lt (λ m. q m ≡ true) (rows_where q inside) (passes q inside)) e in
      ap (order_by message_lt)
        (sym (rows_where-rows_where (message_lt l) q inside (λ m h. key_lt_trans key l m above h)))
      ∙ sym (rows_where-order_by message_lt-IsStrict (message_lt l) (rows_where q inside) later)
      ∙ rows_above_last message_lt-IsStrict n (order_by message_lt (rows_where q inside)) l
          (order_by-Ascending message_lt-IsStrict (rows_where q inside) later) e
