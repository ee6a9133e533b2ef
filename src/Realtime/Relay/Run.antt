-- ===== src/Realtime/Relay/Run.antt =====
-- The loop of the relay: no event is lost in any run, and the pauses stay within their bounds.
use fastapi_realtime_chat_ba.Prelude.{
  ℕ, ◌+◌, ◌≤◌, String, Bool, true, not, some, none, List, [], ◌∷◌, ◌++◌, map, leb, take, ◌≡◌, refl,
  sym, ap, arith, ◌⊎◌, inl, inr, find_row, rows_where, UniqueBy, UniqueBy-rows_set, Bool-cases,
  Option-cases, ◌∙◌,
}
use mathlib.Core.List.{append_assoc, append-nil}
use fastapi_realtime_chat_ba.Errors.{Result, ok, err}
use fastapi_realtime_chat_ba.Models.{Time, Event, Outbox}
use fastapi_realtime_chat_ba.Chat.Valid.{same_outbox}
use fastapi_realtime_chat_ba.Realtime.Relay.{
  World, Batch, Cycle, RunState, Next, at_once, sleep, wait_for_wake, is_before, claim, sweep,
  set_published, publication, mark_published, publish_rows, publish_batch, after_error, after_batch,
  sweep_step, backlog_step, after_publish, run_cycle, max_delay,
}
use fastapi_realtime_chat_ba.Realtime.Relay.Delivery.{
  Heard, has_outbox_id, Fate, stays, published, publish_batch-Fate,
}

find_row-rows_where :
    (t p : Outbox → Bool) (rs : List Outbox) (r : Outbox)
    → p r ≡ true
    → find_row t rs ≡ some r
    → find_row t (rows_where p rs) ≡ some r
find_row-rows_where t p [] r good h = h
find_row-rows_where t p (q ∷ rs) r good h = elim (Bool-cases (t q)) [
  | inl e ↦ let same : q ≡ r = ground arith in let good' : p q ≡ true = rw same good in ground arith
  | inr e ↦ ground (arith, find_row-rows_where t p rs r good)
]

find_row-rows_where-none :
    (t p : Outbox → Bool) (rs : List Outbox)
    → find_row t rs ≡ none
    → find_row t (rows_where p rs) ≡ none
find_row-rows_where-none t p [] h = h
find_row-rows_where-none t p (q ∷ rs) h = ground (arith, find_row-rows_where-none t p rs)

UniqueBy-rows_where :
    (p : Outbox → Bool) (rs : List Outbox)
    → UniqueBy same_outbox rs
    → UniqueBy same_outbox (rows_where p rs)
UniqueBy-rows_where p [] u = tt
UniqueBy-rows_where p (r ∷ rs) u = elim (Bool-cases (p r)) [
  | inl e ↦ rw e (find_row-rows_where-none (same_outbox r) p rs u.0, UniqueBy-rows_where p rs u.1)
  | inr e ↦ rw e (UniqueBy-rows_where p rs u.1)
]

Heard-still :
    (e : String × Event) (log more : List (String × Event)) → Heard e log → Heard e (log ++ more)
Heard-still e log more (before, after, split) =
    (before, after ++ more, ap (λ z. z ++ more) split ∙ append_assoc before (e ∷ after) more)

-- The row `r` is waiting, or Redis has received its event.
abbrev pub Safe : ℕ → Outbox → World → Type 0
Safe j r w =
    UniqueBy same_outbox w.db.outbox
    × ((find_row (has_outbox_id j) w.db.outbox ≡ some r) ⊎ Heard (publication r) w.received)

-- A batch only adds to what Redis has received, and keeps the identifiers apart.
publish_rows-grows :
    (b : Batch) (rows : List Outbox) (w : World)
    → UniqueBy same_outbox w.db.outbox
    → UniqueBy same_outbox (publish_rows b rows w).1.db.outbox
      × (more : List (String × Event)) × ((publish_rows b rows w).1.received ≡ w.received ++ more)
unfolding publish_rows mark_published
publish_rows-grows b [] w u = (u, [], sym (append-nil w.received))
publish_rows-grows b (q ∷ qs) w u = elim (Option-cases b.breaks_after) [
  | inr (n, breaks) ↦ rw breaks (u, take n (map publication (q ∷ qs)), refl)
  | inl whole ↦ rw whole (elim (Bool-cases b.commits) [
    | inr lost ↦ rw lost (u, map publication (q ∷ qs), refl)
    | inl good ↦ rw good (
      UniqueBy-rows_set same_outbox _ (set_published b.now) w.db.outbox (λ r q. refl) (λ r q. refl)
          u,
      map publication (q ∷ qs),
      refl,
    )
  ])
]

publish_batch-Safe :
    (n : ℕ) (b : Batch) (w : World) (j : ℕ) (r : Outbox)
    → Safe j r w
    → Safe j r (publish_batch n b w).1
unfolding publish_batch
publish_batch-Safe n b w j r (u, s) =
    let (u', more, grown) = publish_rows-grows b (claim n b.locked w.db) w u in
    (
      u',
      elim s [
        | inr heard ↦ inr (rw grown (Heard-still (publication r) w.received more heard))
        | inl found ↦ kept (publish_batch-Fate n b w j r u found)
      ],
    )
  where
    kept :
        Fate j r w (publish_rows b (claim n b.locked w.db) w).1
        → (find_row (has_outbox_id j) (publish_rows b (claim n b.locked w.db) w).1.db.outbox
            ≡ some r)
          ⊎ Heard (publication r) (publish_rows b (claim n b.locked w.db) w).1.received
    kept (stays same) = inl same
    kept (published now _ heard) = inr heard

sweep-Safe :
    (t : Time) (w : World) (j : ℕ) (r : Outbox)
    → r.published_at ≡ none
    → Safe j r w
    → Safe j r (record w { db = sweep t w.db })
unfolding sweep
sweep-Safe t w j r waiting (u, s) =
    let young : Outbox → Bool = λ q. not (is_before t q.published_at) in
    (
      UniqueBy-rows_where young w.db.outbox u,
      elim s [
        | inr heard ↦ inr heard
        | inl found ↦
            inl (find_row-rows_where (has_outbox_id j) young w.db.outbox r (rw waiting refl) found)
      ],
    )

-- The database and Redis of a cycle's last steps: as they were, or with one sweep done.
steps_after :
    (P : World → Type 0) (poll_interval n : ℕ) (c : Cycle) (s : RunState) (count : ℕ) (w : World)
    → P w
    → P (record w { db = sweep c.sweep_before w.db })
    → P (backlog_step poll_interval n c s count w).1
unfolding backlog_step sweep_step
steps_after P poll_interval n c s count w here swept =
    elim (Bool-cases (leb s.next_backlog c.monotonic)) [
      | inr early ↦ rw early (last s)
      | inl due ↦ elim (Bool-cases c.count_fails) [
        | inl fails ↦ rw (due, fails) here
        | inr counts ↦ rw (due, counts) (last (record s { next_backlog = c.monotonic + 5000 }))
      ]
    ]
  where
    last : (t : RunState) → P (sweep_step poll_interval n c t count w).1
    last t = elim (Bool-cases (leb t.next_sweep c.monotonic)) [
      | inr early ↦ rw early here
      | inl due ↦ elim (Bool-cases c.sweep_fails) [
        | inl fails ↦ rw (due, fails) here
        | inr sweeps ↦ rw (due, sweeps) swept
      ]
    ]

run_cycle-Safe :
    (poll_interval n : ℕ) (c : Cycle) (s : RunState) (w : World) (j : ℕ) (r : Outbox)
    → r.published_at ≡ none
    → Safe j r w
    → Safe j r (run_cycle poll_interval n c s w).1
unfolding run_cycle after_publish
run_cycle-Safe poll_interval n c s w j r waiting safe =
    after (publish_batch n c.batch w) (publish_batch-Safe n c.batch w j r safe)
  where
    after : (q : Result ℕ × World) → Safe j r q.1 → Safe j r (after_publish poll_interval n c s q).1
    after (err e, w') h = h
    after (ok count, w') h =
        steps_after (Safe j r) poll_interval n c s count w' h
          (sweep-Safe c.sweep_before w' j r waiting h)

-- Cycles of the relays of all replicas, in the order in which they reach the database: each with the
-- settings and the state of its replica.
pub record Turn : Type 0 where
  pub poll_interval : ℕ
  pub batch_size : ℕ
  pub state : RunState
  pub cycle : Cycle

unfoldable pub run_turns : List Turn → World → World
run_turns [] w = w
run_turns (t ∷ ts) w = run_turns ts (run_cycle t.poll_interval t.batch_size t.cycle t.state w).1

run_turns-Safe :
    (ts : List Turn) (w : World) (j : ℕ) (r : Outbox)
    → r.published_at ≡ none
    → Safe j r w
    → Safe j r (run_turns ts w)
unfolding run_turns
run_turns-Safe [] w j r waiting safe = safe
run_turns-Safe (t ∷ ts) w j r waiting safe =
    run_turns-Safe ts (run_cycle t.poll_interval t.batch_size t.cycle t.state w).1 j r waiting
      (run_cycle-Safe t.poll_interval t.batch_size t.cycle t.state w j r waiting safe)

-- Whatever cycles the relays of all replicas go through, with failures anywhere in them and sweeps
-- between them, a row that waits is afterwards still in the outbox and waiting, or Redis has
-- received its event.
pub waiting_never_lost :
    (ts : List Turn) (w : World) (j : ℕ) (r : Outbox)
    → UniqueBy same_outbox w.db.outbox
    → find_row (has_outbox_id j) w.db.outbox ≡ some r
    → r.published_at ≡ none
    → (find_row (has_outbox_id j) (run_turns ts w).db.outbox ≡ some r)
      ⊎ Heard (publication r) (run_turns ts w).received
waiting_never_lost ts w j r u found waiting = (run_turns-Safe ts w j r waiting (u, inl found)).1

-- the pause before the next cycle
abbrev pub pause : Next → ℕ
pause at_once = 0
pause (sleep ms) = ms
pause (wait_for_wake ms) = ms

-- Within the bounds: no pause is above five seconds, a pause after an error is not below the
-- poll interval, and the state keeps a delay in these bounds.
abbrev pub InBounds : ℕ → Next × RunState → Type 0
InBounds poll_interval q =
    (pause q.0 ≤ max_delay) × (poll_interval ≤ q.1.delay) × (q.1.delay ≤ max_delay)

-- The pauses of the loop are bounded: from a delay between the poll interval and five seconds each
-- cycle, failed or not, gives such a delay again and a pause of at most five seconds.
pub delay_bounded :
    (poll_interval n : ℕ) (c : Cycle) (s : RunState) (w : World)
    → poll_interval ≤ s.delay
    → s.delay ≤ max_delay
    → InBounds poll_interval (run_cycle poll_interval n c s w).0
unfolding run_cycle after_publish backlog_step sweep_step after_error after_batch
delay_bounded poll_interval n c s w low high = by_result (publish_batch n c.batch w)
  where
    error : (t : RunState) → t.delay ≡ s.delay → InBounds poll_interval (after_error t)
    error t e = (omega arith, omega arith, omega arith)

    batch :
        (t : RunState) (count : ℕ) → InBounds poll_interval (after_batch poll_interval n t count)
    batch t count = elim (Bool-cases (leb n count)) [
      | inl e ↦ rw e (omega arith, omega arith, omega arith)
      | inr e ↦ rw e (omega arith, omega arith, omega arith)
    ]

    swept :
        (t : RunState) (count : ℕ) (w' : World)
        → t.delay ≡ s.delay
        → InBounds poll_interval (sweep_step poll_interval n c t count w').0
    swept t count w' same = elim (Bool-cases (leb t.next_sweep c.monotonic)) [
      | inr early ↦ rw early (batch t count)
      | inl due ↦ elim (Bool-cases c.sweep_fails) [
        | inl fails ↦ rw (due, fails) (error t same)
        | inr sweeps ↦
            rw (due, sweeps) (batch (record t { next_sweep = c.monotonic + 60000 }) count)
      ]
    ]

    by_result :
        (q : Result ℕ × World) → InBounds poll_interval (after_publish poll_interval n c s q).0
    by_result (err e, w') = error s refl
    by_result (ok count, w') = elim (Bool-cases (leb s.next_backlog c.monotonic)) [
      | inr early ↦ rw early (swept s count w' refl)
      | inl due ↦ elim (Bool-cases c.count_fails) [
        | inl fails ↦ rw (due, fails) (error s refl)
        | inr counts ↦
            rw (due, counts) (swept (record s { next_backlog = c.monotonic + 5000 }) count w' refl)
      ]
    ]
