-- ===== src/Realtime/Relay/Delivery.antt =====
-- At least once: a row of the outbox is marked only after Redis has received its event.

use fastapi_realtime_chat_ba.Prelude.{
  ℕ, String, Bool, true, false, not, ◌&&◌, some, none, List, [], ◌∷◌, ◌++◌, map, ◌≡◌, refl, sym, ap,
  subst, arith, inl, inr, ◌==◌, ==_iff, if◌then◌else◌, find_row, rows_where, find_row-rows_set_eq,
  set_if, find_row_sound, UniqueBy, All, take-All, order_by, order_by-All, rows_where-All,
  Bool-cases, Option-cases, ◌∙◌,
}
use mathlib.Core.List.{append_assoc}
use fastapi_realtime_chat_ba.Models.{Time, Event, Outbox, Db}
use fastapi_realtime_chat_ba.Chat.Valid.{same_outbox}
use fastapi_realtime_chat_ba.Realtime.Relay.{
  World, Batch, is_pending, id_lt, free_rows, claim, is_in, set_published, mark_published,
  publication, publish_rows, publish_batch,
}

-- Redis has received the event.
abbrev pub Heard : String × Event → List (String × Event) → Type 0
Heard e log =
    (before : List (String × Event)) × (after : List (String × Event)) × (log
      ≡ before ++ (e ∷ after))

abbrev pub has_outbox_id : ℕ → Outbox → Bool
has_outbox_id j r = r.id == j

none-All : (p : Outbox → Bool) (rs : List Outbox) → find_row p rs ≡ none → All (λ q. p q ≡ false) rs
none-All p [] h = tt
none-All p (r ∷ rs) h = (ground arith, none-All p rs (ground arith))

later_found :
    (r : Outbox) (rs qs : List Outbox)
    → All (λ q. same_outbox r q ≡ false) qs
    → All (λ q. find_row (same_outbox q) rs ≡ some q) qs
    → All (λ q. find_row (same_outbox q) (r ∷ rs) ≡ some q) qs
later_found r rs [] a f = tt
later_found r rs (q ∷ qs) a f = (
  let other : (r.id == q.id) ≡ false = ground (arith, a.0) in rw other f.0,
  later_found r rs qs a.1 f.1,
)

-- Each row is the one of its identifier.
self_found :
    (rs : List Outbox)
    → UniqueBy same_outbox rs
    → All (λ q. find_row (same_outbox q) rs ≡ some q) rs
self_found [] u = tt
self_found (r ∷ rs) u = (
  let itself : (r.id == r.id) ≡ true = ground arith in rw itself refl,
  later_found r rs rs (none-All (same_outbox r) rs u.0) (self_found rs u.1),
)

-- An identifier of a list of rows is the one of a row of it.
locate :
    (P : Outbox → Type 0) (rows : List Outbox) (j : ℕ)
    → All P rows
    → is_in (map (λ q. q.id) rows) j ≡ true
    → (q : Outbox) × P q × (q.id ≡ j) × Heard (publication q) (map publication rows)
unfolding is_in
locate P [] j a h = absurd (cc)
locate P (r ∷ rows) j a h = elim (Bool-cases (j == r.id)) [
  | inl e ↦ (r, a.0, ground arith, ([], map publication rows, refl))
  | inr e ↦
      let (q, pq, same, (before, after, split)) = locate P rows j a.1 (ground arith) in
      (q, pq, same, (publication r ∷ before, after, ap (λ z. publication r ∷ z) split))
]

Heard-later :
    (e : String × Event) (log more : List (String × Event)) → Heard e more → Heard e (log ++ more)
Heard-later e log more (before, after, split) =
    (log ++ before, after, ap (λ z. log ++ z) split ∙ sym (append_assoc log before (e ∷ after)))

claim-All :
    (P : Outbox → Type 0) (n : ℕ) (locked : ℕ → Bool) (db : Db)
    → All P (rows_where (λ r. is_pending r && not (locked r.id)) db.outbox)
    → All P (claim n locked db)
unfolding claim free_rows
claim-All P n locked db a =
    take-All P n (order_by id_lt (rows_where (λ r. is_pending r && not (locked r.id)) db.outbox))
      (order_by-All id_lt P (rows_where (λ r. is_pending r && not (locked r.id)) db.outbox) a)

-- What becomes of the row `r` of the identifier `j` in one batch.
pub data Fate (j : ℕ) (r : Outbox) (w w' : World) : Type 0 where
  stays : find_row (has_outbox_id j) w'.db.outbox ≡ some r → Fate j r w w'
  published :
      (now : Time)
      → find_row (has_outbox_id j) w'.db.outbox ≡ some (set_published now r)
      → Heard (publication r) w'.received
      → Fate j r w w'

row_after :
    (j : ℕ) (now : Time) (rows : List Outbox) (db : Db) (r : Outbox)
    → find_row (has_outbox_id j) db.outbox ≡ some r
    → (b : Bool) → is_in (map (λ q. q.id) rows) j ≡ b
    → find_row (has_outbox_id j) (mark_published now rows db).outbox
      ≡ some (if b then set_published now r else r)
unfolding mark_published
row_after j now rows db r found b e =
    let mine : Outbox → Bool = λ q. is_in (map (λ z. z.id) rows) q.id in
    let same : r.id ≡ j = (==_iff r.id j).0 (find_row_sound (has_outbox_id j) db.outbox r found) in
    find_row-rows_set_eq (has_outbox_id j) mine (set_published now) db.outbox (λ q. refl)
    ∙ ap (set_if mine (set_published now)) found
    ∙ rw (same, e) refl

publish_rows-Fate :
    (b : Batch) (rows : List Outbox) (w : World) (j : ℕ) (r : Outbox)
    → find_row (has_outbox_id j) w.db.outbox ≡ some r
    → (is_in (map (λ q. q.id) rows) j ≡ true → Heard (publication r) (map publication rows))
    → Fate j r w (publish_rows b rows w).1
unfolding publish_rows
publish_rows-Fate b [] w j r found heard = stays found
publish_rows-Fate b (q ∷ qs) w j r found heard = elim (Option-cases b.breaks_after) [
  | inr (n, breaks) ↦ rw breaks (stays found)
  | inl whole ↦ rw whole (elim (Bool-cases b.commits) [
    | inr lost ↦ rw lost (stays found)
    | inl good ↦ rw good (elim (Bool-cases (is_in (map (λ z. z.id) (q ∷ qs)) j)) [
      | inl mine ↦
          published b.now (row_after j b.now (q ∷ qs) w.db r found true mine)
            (Heard-later (publication r) w.received (map publication (q ∷ qs)) (heard mine))
      | inr other ↦ stays (row_after j b.now (q ∷ qs) w.db r found false other)
    ])
  ])
]

claimed-Heard :
    (n : ℕ) (locked : ℕ → Bool) (db : Db) (j : ℕ) (r : Outbox)
    → UniqueBy same_outbox db.outbox
    → find_row (has_outbox_id j) db.outbox ≡ some r
    → is_in (map (λ q. q.id) (claim n locked db)) j ≡ true
    → Heard (publication r) (map publication (claim n locked db))
claimed-Heard n locked db j r u found mine =
    let Self : Outbox → Type 0 = λ q. find_row (same_outbox q) db.outbox ≡ some q in
    let (q, self, same, heard) =
      locate Self (claim n locked db) j
        (claim-All Self n locked db (
          rows_where-All id_lt Self (λ z. is_pending z && not (locked z.id)) db.outbox
            (self_found db.outbox u)))
        mine in
    let found_q : find_row (has_outbox_id j) db.outbox ≡ some q =
      subst (λ i. find_row (has_outbox_id i) db.outbox ≡ some q) same self in
    let one : q ≡ r = cc in
    subst (λ z. Heard (publication z) (map publication (claim n locked db))) one heard

-- Whatever a batch meets - locked rows, a pipeline that breaks after some commands, a commit that
-- fails - each row of the outbox stays as it is, or it is marked as published and Redis has received
-- its event. So no event is lost: a row that Redis has not received is still waiting.
pub publish_batch-Fate :
    (n : ℕ) (b : Batch) (w : World) (j : ℕ) (r : Outbox)
    → UniqueBy same_outbox w.db.outbox
    → find_row (has_outbox_id j) w.db.outbox ≡ some r
    → Fate j r w (publish_batch n b w).1
unfolding publish_batch
publish_batch-Fate n b w j r u found =
    publish_rows-Fate b (claim n b.locked w.db) w j r found
      (claimed-Heard n b.locked w.db j r u found)
