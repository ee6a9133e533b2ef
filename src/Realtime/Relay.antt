-- ===== src/Realtime/Relay.antt =====
-- app/realtime/relay.py: the relay, which publishes the outbox to Redis.
pub mod Drain
pub mod Run
pub mod Delivery
mod Examples
use Prim.Native.String.{◌++◌ as str_append}
use fastapi_realtime_chat_ba.Prelude.{
  ℕ, String, Bool, true, false, not, ◌&&◌, ◌||◌, Option, some, none, List, [], ◌∷◌, ◌++◌, map, ltb,
  leb, ◌==◌, if◌then◌else◌, rows_where, rows_set, count_where, length, take, order_by, min, ◌+◌,
  ◌*◌,
}
use fastapi_realtime_chat_ba.Errors.{Result, ok, err, redis_error, operational_error}
use fastapi_realtime_chat_ba.Models.{Time, Event, Outbox, Db}

-- The database, and what Redis has received, in its order.
pub record World : Type 0 where
  pub db : Db
  pub received : List (String × Event)

-- What one batch meets: the rows that other relays hold locked, how many of its commands Redis
-- receives before the pipeline fails (`none` if it does not fail), whether the transaction can
-- commit, and the time of the update.
pub record Batch : Type 0 where
  pub locked : ℕ → Bool
  pub breaks_after : Option ℕ
  pub commits : Bool
  pub now : Time

abbrev pub topic_channel : String → String
topic_channel topic = str_append "chat:" topic

abbrev pub is_pending : Outbox → Bool
is_pending r = elim r.published_at [ none ↦ true | some t ↦ false ]

abbrev pub id_lt : Outbox → Outbox → Bool
id_lt r q = ltb r.id q.id

-- the SELECT, before its LIMIT
unfoldable pub free_rows : (ℕ → Bool) → Db → List Outbox
free_rows locked db = order_by id_lt (rows_where (λ r. is_pending r && not (locked r.id)) db.outbox)

unfoldable pub claim : ℕ → (ℕ → Bool) → Db → List Outbox
claim batch_size locked db = take batch_size (free_rows locked db)

unfoldable pub is_in : List ℕ → ℕ → Bool
is_in [] i = false
is_in (j ∷ js) i = (i == j) || is_in js i

abbrev pub set_published : Time → Outbox → Outbox
set_published now r = record r { published_at = some now }

-- the UPDATE
unfoldable pub mark_published : Time → List Outbox → Db → Db
mark_published now rows db = record db {
  outbox = rows_set (λ r. is_in (map (λ q. q.id) rows) r.id) (set_published now) db.outbox;
}

abbrev pub publication : Outbox → String × Event
publication r = (topic_channel r.topic, r.payload)

unfoldable pub publish_rows : Batch → List Outbox → World → Result ℕ × World
publish_rows b [] w = (ok 0, w)
publish_rows b (r ∷ rs) w =
    let rows = r ∷ rs in
    let commands = map publication rows in
    elim b.breaks_after [
      | some n ↦ (err redis_error, record w { received = w.received ++ take n commands })
      | none ↦
          let sent = w.received ++ commands in
          if b.commits
          then (ok (length rows), record { db = mark_published b.now rows w.db; received = sent })
          else (err operational_error, record w { received = sent })
    ]

unfoldable pub publish_batch : ℕ → Batch → World → Result ℕ × World
publish_batch batch_size b w = publish_rows b (claim batch_size b.locked w.db) w

unfoldable pub backlog : Db → ℕ
backlog db = count_where is_pending db.outbox

-- What `_run` remembers between its cycles, with times in milliseconds.
pub record RunState : Type 0 where
  pub delay : ℕ
  pub next_backlog : ℕ
  pub next_sweep : ℕ

-- What a cycle does next: the next cycle at once, after a sleep, or after a wait for `notify` that
-- lasts no longer.
pub data Next : Type 0 where
  at_once : Next
  sleep : ℕ → Next
  wait_for_wake : ℕ → Next

pub record Cycle : Type 0 where
  pub batch : Batch
  -- time.monotonic()
  pub monotonic : ℕ
  -- the count and the sweep can fail too
  pub count_fails : Bool
  pub sweep_fails : Bool
  -- now() - retention, at the sweep
  pub sweep_before : Time

abbrev pub is_before : Time → Option Time → Bool
is_before t none = false
is_before t (some u) = ltb u t

-- the DELETE
unfoldable pub sweep : Time → Db → Db
sweep before db = record db {
  outbox = rows_where (λ r. not (is_before before r.published_at)) db.outbox;
}

abbrev pub max_delay : ℕ
max_delay = 5000

-- the `except` branch
unfoldable pub after_error : RunState → Next × RunState
after_error s =
    let delay = min (s.delay * 2) max_delay in
    (sleep delay, record s { next_backlog = 0; delay = delay })

unfoldable pub after_batch : ℕ → ℕ → RunState → ℕ → Next × RunState
after_batch poll_interval batch_size s published = (
  (if leb batch_size published then at_once else wait_for_wake poll_interval),
  record s { delay = poll_interval },
)

-- the sweep of a cycle, and what follows
unfoldable pub sweep_step : ℕ → ℕ → Cycle → RunState → ℕ → World → (Next × RunState) × World
sweep_step poll_interval batch_size c s published w =
    if not (leb s.next_sweep c.monotonic)
    then (after_batch poll_interval batch_size s published, w)
    else if c.sweep_fails
    then (after_error s, w)
    else (
      after_batch poll_interval batch_size (record s { next_sweep = c.monotonic + 60000 })
          published,
      record w { db = sweep c.sweep_before w.db },
    )

-- the count of a cycle, and what follows
unfoldable pub backlog_step : ℕ → ℕ → Cycle → RunState → ℕ → World → (Next × RunState) × World
backlog_step poll_interval batch_size c s published w =
    if not (leb s.next_backlog c.monotonic)
    then sweep_step poll_interval batch_size c s published w
    else if c.count_fails
    then (after_error s, w)
    else sweep_step poll_interval batch_size c (record s { next_backlog = c.monotonic + 5000 })
        published w

unfoldable pub after_publish :
    ℕ → ℕ → Cycle → RunState → Result ℕ × World → (Next × RunState) × World
after_publish poll_interval batch_size c s (err e, w) = (after_error s, w)
after_publish poll_interval batch_size c s (ok published, w) =
    backlog_step poll_interval batch_size c s published w

unfoldable pub run_cycle : ℕ → ℕ → Cycle → RunState → World → (Next × RunState) × World
run_cycle poll_interval batch_size c s w =
    after_publish poll_interval batch_size c s (publish_batch batch_size c.batch w)
