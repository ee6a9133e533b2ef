-- ===== src/Realtime/Connection.antt =====
-- app/realtime/hub.py, Connection: the queue of events between the hub and one WebSocket.
pub mod Delivery
pub mod Closing
use fastapi_realtime_chat_ba.Prelude.{
  ℕ, String, Bool, true, false, not, Option, some, none, List, [], ◌∷◌, ◌++◌, leb, length,
  if◌then◌else◌,
}

-- What a queue holds: an event of any kind, or the CloseRequest.
pub data Queued {ℓ} (E : Type ℓ) : Type ℓ where
  event : E → Queued E
  close_request : ℕ → String → Queued E

pub record Connection {ℓ} (E : Type ℓ) : Type ℓ where
  pub user_id : String
  pub id : ℕ
  pub closing : Bool
  pub queue : List (Queued E)

abbrev pub max_pending_events : ℕ
max_pending_events = 1000

module _ {ℓ} {E : Type ℓ} where
  unfoldable pub close : ℕ → String → Connection E → Connection E
  close code reason c =
      if not c.closing
      then record c { closing = true; queue = c.queue ++ (close_request code reason ∷ []) }
      else c

  unfoldable pub send_nowait : E → Connection E → Connection E
  unfolding close
  send_nowait e c =
      if c.closing
      then c
      else if leb max_pending_events (length c.queue)
      then close 1013 "client too slow, reconnect and sync" c
      else record c { queue = c.queue ++ (event e ∷ []) }

  abbrev pub first_of : List (Queued E) → Connection E → Option (Queued E × Connection E)
  first_of [] c = none
  first_of (q ∷ qs) c = some (q, record c { queue = qs })

  -- `none` where the call waits for the queue
  unfoldable pub next_event : Connection E → Option (Queued E × Connection E)
  next_event c = first_of c.queue c
