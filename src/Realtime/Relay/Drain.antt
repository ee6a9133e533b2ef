-- ===== src/Realtime/Relay/Drain.antt =====
-- The cycles of the relay, one after another while more rows are waiting, and that they drain the
-- outbox.
use mathlib.Core.List.{map-append, append_assoc, append-nil}
use fastapi_realtime_chat_ba.Prelude.{
  ℕ, zero, suc, ◌≤◌, ◌<◌, Bool, true, false, not, ◌&&◌, Option, some, none, List, [], ◌∷◌, ◌++◌,
  map, ◌≡◌, refl, sym, ap, arith, inl, inr, ◌==◌, leb, if◌then◌else◌, find_row, rows_where,
  rows_set, UniqueBy, All, take, drop, length, length-take, length-drop, take_all, take-append-drop,
  order_by, IsStrict, Comparable, Apart, Ascending, order_by-Ascending, rows_where-order_by,
  UniqueBy-rows_set, Apart-rows_where, Bool-cases, ◌∙◌,
}
use fastapi_realtime_chat_ba.Errors.{Result, ok, err}
use fastapi_realtime_chat_ba.Models.{Time, Outbox, Db}
use fastapi_realtime_chat_ba.Chat.Valid.{same_outbox}
use fastapi_realtime_chat_ba.Realtime.Relay.{
  World, Batch, is_pending, id_lt, free_rows, claim, is_in, set_published, mark_published,
  publication, publish_rows, publish_batch,
}

id_lt-IsStrict : IsStrict id_lt
id_lt-IsStrict = record { irrefl = λ r. ground arith; trans = λ r q s a b. ground arith }

fresh-Comparable :
    (r : Outbox) (rs : List Outbox)
    → find_row (same_outbox r) rs ≡ none
    → All (Comparable id_lt r) rs
fresh-Comparable r [] h = tt
fresh-Comparable r (q ∷ rs) h = (ground arith, fresh-Comparable r rs (ground arith))

outbox_ids-Apart : (rs : List Outbox) → UniqueBy same_outbox rs → Apart id_lt rs
outbox_ids-Apart [] u = tt
outbox_ids-Apart (r ∷ rs) u = (fresh-Comparable r rs u.0, outbox_ids-Apart rs u.1)

-- the test of the UPDATE
abbrev in_rows : List Outbox → Outbox → Bool
in_rows rows r = is_in (map (λ q. q.id) rows) r.id

above_not_in :
    (r : Outbox) (rows qs : List Outbox)
    → All (λ q. id_lt r q ≡ true) qs
    → rows_where (λ q. not (in_rows (r ∷ rows) q)) qs ≡ rows_where (λ q. not (in_rows rows q)) qs
unfolding is_in
above_not_in r rows [] h = refl
above_not_in r rows (q ∷ qs) h =
    let other : (q.id == r.id) ≡ false = ground (arith, h.0) in
    ground (arith, other, above_not_in r rows qs h.1)

-- Of the rows in order, those that are not among the first `n` are the others.
not_taken :
    (n : ℕ) (rs : List Outbox)
    → Ascending id_lt rs
    → rows_where (λ q. not (in_rows (take n rs) q)) rs ≡ drop n rs
unfolding is_in
not_taken zero [] a = refl
not_taken zero (r ∷ rs) a = ground (arith, not_taken zero rs a.1)
not_taken (suc n) [] a = refl
not_taken (suc n) (r ∷ rs) a =
    let itself : (r.id == r.id) ≡ true = ground arith in
    ground (arith, itself, above_not_in r (take n rs) rs a.0, not_taken n rs a.1)

-- A row that is published is waiting no more.
unpublished_rest :
    (p s : Outbox → Bool) (f : Outbox → Outbox) (rs : List Outbox)
    → ((r : Outbox) → p (f r) ≡ false)
    → rows_where p (rows_set s f rs) ≡ rows_where (λ r. not (s r)) (rows_where p rs)
unpublished_rest p s f [] h = refl
unpublished_rest p s f (r ∷ rs) h = ground (arith, h r, unpublished_rest p s f rs h)

-- After a batch, the free rows are those that it left.
pub free_rows_after :
    (n : ℕ) (locked : ℕ → Bool) (now : Time) (db : Db)
    → UniqueBy same_outbox db.outbox
    → free_rows locked (mark_published now (claim n locked db) db) ≡ drop n (free_rows locked db)
unfolding free_rows mark_published claim
free_rows_after n locked now db u =
    let free : Outbox → Bool = λ r. is_pending r && not (locked r.id) in
    let apart = Apart-rows_where id_lt free db.outbox (outbox_ids-Apart db.outbox u) in
    let rows = rows_where free db.outbox in
    let mine = in_rows (take n (order_by id_lt rows)) in
    ap (order_by id_lt) (unpublished_rest free mine (set_published now) db.outbox (λ r. refl))
    ∙ sym (rows_where-order_by id_lt-IsStrict (λ r. not (mine r)) rows apart)
    ∙ not_taken n (order_by id_lt rows) (order_by-Ascending id_lt-IsStrict rows apart)

mark_nothing : (now : Time) (db : Db) → mark_published now [] db ≡ db
unfolding mark_published is_in
mark_nothing now db = ap (λ z. record db { outbox = z }) (set_nothing db.outbox)
  where
    set_nothing : (rs : List Outbox) → rows_set (λ r. is_in [] r.id) (set_published now) rs ≡ rs
    set_nothing [] = refl
    set_nothing (r ∷ rs) = ap (λ z. r ∷ z) (set_nothing rs)

module _ (batch_size : ℕ) (locked : ℕ → Bool) (now : Time) where
  -- a batch that nothing breaks
  abbrev pub calm : Batch
  calm = record { locked = locked; breaks_after = none; commits = true; now = now }

  abbrev pub published_world : World → World
  published_world w =
      let rows = claim batch_size locked w.db in
      record { db = mark_published now rows w.db; received = w.received ++ map publication rows }

  publish_rows_lem :
      (rows : List Outbox) (w : World)
      → publish_rows calm rows w ≡ (
        ok (length rows),
        record { db = mark_published now rows w.db; received = w.received ++ map publication rows },
      )
  unfolding publish_rows
  publish_rows_lem [] w = rw (mark_nothing now w.db, append-nil w.received) refl
  publish_rows_lem (r ∷ rs) w = refl

  pub publish_batch_lem :
      (w : World)
      → publish_batch batch_size calm w
        ≡ (ok (length (claim batch_size locked w.db)), published_world w)
  unfolding publish_batch
  publish_batch_lem w = publish_rows_lem (claim batch_size locked w.db) w

  -- what `_run` does after a batch: the next one at once, where more rows may be waiting
  abbrev pub go_on : Result ℕ × World → (World → Option World) → Option World
  go_on (err e, w) rest = none
  go_on (ok n, w) rest = let later = rest w in if leb batch_size n then later else some w

  -- The batches of `_run` up to the first that does not fill up. `none` is the end of the fuel, or a
  -- batch that fails.
  unfoldable pub drain : ℕ → World → Option World
  drain zero w = none
  drain (suc fuel) w = go_on (publish_batch batch_size calm w) (drain fuel)

  Unique-published :
      (w : World)
      → UniqueBy same_outbox w.db.outbox
      → UniqueBy same_outbox (published_world w).db.outbox
  unfolding mark_published
  Unique-published w u =
      UniqueBy-rows_set same_outbox _ (set_published now) w.db.outbox (λ r q. refl) (λ r q. refl) u

  drop_all : (n : ℕ) (rs : List Outbox) → length rs ≤ n → drop n rs ≡ []
  drop_all zero [] h = refl
  drop_all zero (r ∷ rs) h = absurd (omega arith)
  drop_all (suc n) [] h = refl
  drop_all (suc n) (r ∷ rs) h = drop_all n rs (omega arith)

  -- While nothing fails, the cycles of the relay end, and Redis has then received every waiting row
  -- that no other relay holds, each once and in the order of the identifiers, whatever the batch
  -- size; none of them is waiting any more. One batch more than there are such rows is enough.
  pub drain_complete :
      (fuel : ℕ) (w : World)
      → 1 ≤ batch_size
      → UniqueBy same_outbox w.db.outbox
      → length (free_rows locked w.db) < fuel
      → (w' : World) × (drain fuel w ≡ some w')
        × (w'.received ≡ w.received ++ map publication (free_rows locked w.db))
        × (free_rows locked w'.db ≡ [])
  unfolding drain claim
  drain_complete zero w room u enough = absurd (omega arith)
  drain_complete (suc fuel) w room u enough =
      let free = free_rows locked w.db in
      let w1 = published_world w in
      let left : free_rows locked w1.db ≡ drop batch_size free =
        free_rows_after batch_size locked now w.db u in
      let count = length-take batch_size free in
      elim (Bool-cases (leb batch_size (length (take batch_size free)))) [
        | inr last ↦
            let short : length free ≤ batch_size = ground arith in
            (
              w1,
              rw (publish_batch_lem w, last) refl,
              rw (take_all batch_size free short) refl,
              left ∙ drop_all batch_size free short,
            )
        | inl more ↦
            let full : batch_size ≤ length free = ground arith in
            let (w', ended, received, none_left) =
              drain_complete fuel w1 room (Unique-published w u)
                (rw left (omega (arith, length-drop batch_size free))) in
            (
              w',
              rw (publish_batch_lem w, more) ended,
              received
                  ∙ ap (λ z. w1.received ++ map publication z) left
                  ∙ append_assoc w.received _ _
                  ∙ ap (λ z. w.received ++ z)
                      (sym (map-append publication (take batch_size free) (drop batch_size free))
                        ∙ ap (map publication) (take-append-drop batch_size free)),
              none_left,
            )
      ]
