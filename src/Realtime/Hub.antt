-- ===== src/Realtime/Hub.antt =====
-- app/realtime/hub.py, Hub: the registry of a replica's connections and its Redis subscriptions.
pub mod Registry
pub mod Follows
pub mod Dispatch
pub mod Members
pub mod Fanout
pub mod Shutdown
use Prim.Native.String.{◌++◌ as str_append}
use fastapi_realtime_chat_ba.Prelude.{
  ℕ, ◌+◌, ◌-◌, String, Bool, true, false, not, ◌&&◌, ◌||◌, Option, some, none, List, [], ◌∷◌, ◌++◌,
  str_eq, ◌==◌, if◌then◌else◌,
}

abbrev pub user_channel : String → String
user_channel user_id = str_append "chat:user:" user_id

-- An entry of `_requests`, without its future.
pub data Request : Type 0 where
  subscribe : String → Request
  unsubscribe : String → Request

-- The user channels that a pub/sub connection is subscribed to.
abbrev pub Channels : Type 0
Channels = String → Bool

-- Where the pub/sub loop is: it sleeps after an error, it waits for its first subscription, to the
-- channels of that moment, or it runs.
pub data Link : Type 0 where
  down : Link
  connecting : Channels → Link
  up : Channels → Link

-- `_local`: the users that have an entry, each with the connections of its set, by their `id`
abbrev pub Registry : Type 0
Registry = List (String × List ℕ)

pub record Hub : Type 0 where
  pub registry : Registry
  pub requests : List Request
  pub link : Link
  -- the gauge WS_CONNECTIONS
  pub ws_connections : ℕ

abbrev pub get : String → Registry → Option (List ℕ)
get u [] = none
get u (e ∷ es) = if str_eq u e.0 then some e.1 else get u es

-- `_local[u] = ids`
abbrev pub put : String → List ℕ → Registry → Registry
put u ids [] = (u, ids) ∷ []
put u ids (e ∷ es) = if str_eq u e.0 then (u, ids) ∷ es else e ∷ put u ids es

-- `del _local[u]`
abbrev pub delete : String → Registry → Registry
delete u [] = []
delete u (e ∷ es) = if str_eq u e.0 then delete u es else e ∷ delete u es

abbrev pub has : ℕ → List ℕ → Bool
has i [] = false
has i (j ∷ js) = (i == j) || has i js

abbrev pub discard : ℕ → List ℕ → List ℕ
discard i [] = []
discard i (j ∷ js) = if i == j then discard i js else j ∷ discard i js

abbrev pub add : ℕ → List ℕ → List ℕ
add i ids = if has i ids then ids else i ∷ ids

abbrev pub is_empty : List ℕ → Bool
is_empty [] = true
is_empty (i ∷ is) = false

-- the set of a `defaultdict`
abbrev pub or_empty : Option (List ℕ) → List ℕ
or_empty none = []
or_empty (some ids) = ids

unfoldable pub register : String → ℕ → Hub → Hub
register user_id i h =
    let conns = or_empty (get user_id h.registry) in
    record h {
      registry = put user_id (add i conns) h.registry;
      requests =
          if is_empty conns
          then h.requests ++ (subscribe (user_channel user_id) ∷ [])
          else h.requests;
      ws_connections = h.ws_connections + 1;
    }

unfoldable pub unregister_from : String → ℕ → Hub → List ℕ → Hub
unregister_from user_id i h conns =
    if not (has i conns)
    then h
    else if is_empty (discard i conns)
    then record h {
      registry = delete user_id h.registry;
      requests = h.requests ++ (unsubscribe (user_channel user_id) ∷ []);
      ws_connections = h.ws_connections - 1;
    }
    else record h {
      registry = put user_id (discard i conns) h.registry;
      ws_connections = h.ws_connections - 1;
    }

unfoldable pub unregister : String → ℕ → Hub → Hub
unregister user_id i h = elim (get user_id h.registry) [
  | none ↦ h
  | some conns ↦ unregister_from user_id i h conns
]

-- what a request does with one channel
abbrev pub on : Request → String → Bool → Bool
on (subscribe c) d b = str_eq d c || b
on (unsubscribe c) d b = not (str_eq d c) && b

-- The channels of `[user_channel(u) for u in self._local]`.
abbrev pub local_channels : Registry → Channels
local_channels [] d = false
local_channels (e ∷ es) d = str_eq d (user_channel e.0) || local_channels es d

-- one turn of `_apply_requests`
unfoldable pub apply_request : Hub → List Request → Link → Hub
apply_request h (r ∷ rs) (up s) = record h { requests = rs; link = up (λ d. on r d (s d)) }
apply_request h rs link = h

-- `_release_waiters`, in the `except` branch of `_run`
unfoldable pub release_waiters : Hub → Hub
release_waiters h = record h { requests = []; link = down }

-- `_run` begins again: the channels of its first subscription
unfoldable pub resubscribe : Hub → Link → Hub
resubscribe h down = record h { link = connecting (local_channels h.registry) }
resubscribe h link = h

unfoldable pub connected : Hub → Link → Hub
connected h (connecting s) = record h { link = up s }
connected h link = h

-- What happens to a hub, one at a time: the calls of the endpoint, and the steps of the loop. A step
-- that the loop cannot take where it is changes nothing.
pub data Event : Type 0 where
  joins : String → ℕ → Event
  leaves : String → ℕ → Event
  applies : Event
  breaks : Event
  begins : Event
  connects : Event

unfoldable pub step : Event → Hub → Hub
step (joins user_id i) h = register user_id i h
step (leaves user_id i) h = unregister user_id i h
step applies h = apply_request h h.requests h.link
step breaks h = release_waiters h
step begins h = resubscribe h h.link
step connects h = connected h h.link

unfoldable pub steps : List Event → Hub → Hub
steps [] h = h
steps (e ∷ es) h = steps es (step e h)

abbrev pub new_hub : Hub
new_hub = record { registry = []; requests = []; link = down; ws_connections = 0 }
