-- ===== src/Realtime/Relay/Examples.antt =====
-- The relay on a small outbox: three rows, one of them published already.

use fastapi_realtime_chat_ba.Prelude.{
  ℕ, true, false, Option, some, none, [], ◌∷◌, ◌++◌, map, ◌≡◌, refl, arith, ◌⊎◌, find_row, order_by,
}
use fastapi_realtime_chat_ba.Models.{Outbox, user_topic, make_event, delivered_data}
use fastapi_realtime_chat_ba.Realtime.Relay.{
  World, Batch, Cycle, RunState, free_rows, publication, publish_batch, run_cycle,
}
use fastapi_realtime_chat_ba.Realtime.Relay.Drain.{drain, drain_complete}
use fastapi_realtime_chat_ba.Realtime.Relay.Delivery.{
  Fate, Heard, has_outbox_id, publish_batch-Fate,
}
use fastapi_realtime_chat_ba.Realtime.Relay.Run.{
  Turn, run_turns, waiting_never_lost, InBounds, delay_bounded,
}

abbrev row : ℕ → Option ℕ → Outbox
row id published_at = record {
  id = id;
  topic = user_topic "bob";
  payload = make_event "message.delivered" (delivered_data id 3 "c1" 5);
  created_at = 5;
  published_at = published_at;
}

abbrev world : World
world = record {
  db = record {
    conversations = [];
    messages = [];
    outbox = row 3 none ∷ row 2 none ∷ row 1 (some 9) ∷ [];
    next_outbox_id = 4;
  };
  received = [];
}

-- Redis is lost after one command.
abbrev broken : Batch
broken = record { locked = λ i. false; breaks_after = some 1; commits = true; now = 20 }

abbrev good : Batch
good = record { locked = λ i. false; breaks_after = none; commits = true; now = 20 }

drain_complete_example :
    (w' : World) × (drain 1 (λ i. false) 20 3 world ≡ some w')
    × (w'.received ≡ [] ++ map publication (free_rows (λ i. false) world.db))
    × (free_rows (λ i. false) w'.db ≡ [])
unfolding free_rows order_by
drain_complete_example =
    drain_complete 1 (λ i. false) 20 3 world (omega arith) (refl, (refl, (refl, tt))) (omega arith)

publish_batch-Fate_example : Fate 2 (row 2 none) world (publish_batch 10 good world).1
publish_batch-Fate_example =
    publish_batch-Fate 10 good world 2 (row 2 none) (refl, (refl, (refl, tt))) refl

abbrev started : RunState
started = record { delay = 500; next_backlog = 0; next_sweep = 0 }

abbrev cycle : Batch → Cycle
cycle b = record {
  batch = b;
  monotonic = 70000;
  count_fails = false;
  sweep_fails = false;
  sweep_before = 15;
}

abbrev turn : Batch → Turn
turn b = record { poll_interval = 500; batch_size = 200; state = started; cycle = cycle b }

waiting_never_lost_example :
    let w' = run_turns (turn broken ∷ turn good ∷ []) world in
    (find_row (has_outbox_id 3) w'.db.outbox ≡ some (row 3 none))
    ⊎ Heard (publication (row 3 none)) w'.received
waiting_never_lost_example =
    waiting_never_lost (turn broken ∷ turn good ∷ []) world 3 (row 3 none)
      (refl, (refl, (refl, tt))) refl refl

delay_bounded_example : InBounds 500 (run_cycle 500 200 (cycle broken) started world).0
delay_bounded_example =
    delay_bounded 500 200 (cycle broken) started world (omega arith) (omega arith)
