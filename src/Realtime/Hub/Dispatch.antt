-- ===== src/Realtime/Hub/Dispatch.antt =====
-- app/realtime/hub.py, Hub: `_dispatch` and `stop`, on the connections of the registry.
use text.Mathlib.Text.{starts_with}
use fastapi_realtime_chat_ba.Prelude.{
  ℕ, zero, suc, String, Bool, true, not, Option, some, none, List, [], ◌∷◌, ◌==◌, str_eq,
  if◌then◌else◌, text_length,
}
use fastapi_realtime_chat_ba.Realtime.Connection.{Connection, send_nowait, close}
use fastapi_realtime_chat_ba.Realtime.Hub.{user_channel, Registry, get, is_empty}

-- `text[n:]`
abbrev pub drop_text : ℕ → String → String
drop_text zero s = s
drop_text (suc n) String.[] = String.[]
drop_text (suc n) (String.◌∷◌ c s) = drop_text n s

-- What an event has at `data`: nothing or a false value, an object, or another value.
pub data DataField : Type 0 where
  nothing_there : DataField
  object_there : DataField
  value_there : DataField

-- What `json.loads` makes of a message: it raises, or gives an object or another value.
pub data Payload {ℓ} (E : Type ℓ) : Type ℓ where
  malformed : Payload E
  other_value : Payload E
  object : String → DataField → E → Payload E

-- Whether `_observe_latency` returns, where it raises AttributeError otherwise.
abbrev pub observes : String → DataField → Bool
observes type nothing_there = true
observes type object_there = true
observes type value_there = not (str_eq type "message.new")

-- the connections of a replica, by their `id`
abbrev pub Connections {ℓ} : Type ℓ → Type ℓ
Connections E = ℕ → Connection E

module _ {ℓ} {E : Type ℓ} where
  abbrev pub set_connection : ℕ → Connection E → Connections E → Connections E
  set_connection i c cs j = if j == i then c else cs j

  -- `for conn in conns`
  unfoldable pub each : (Connection E → Connection E) → List ℕ → Connections E → Connections E
  each f [] cs = cs
  each f (i ∷ is) cs = each f is (set_connection i (f (cs i)) cs)

  unfoldable pub deliver_event : List ℕ → Payload E → Connections E → Option (Connections E)
  unfolding each
  deliver_event conns malformed cs = some cs
  deliver_event conns other_value cs = none
  deliver_event conns (object type content e) cs =
      if observes type content then some (each (send_nowait e) conns cs) else none

  abbrev pub deliver_to : Option (List ℕ) → Payload E → Connections E → Option (Connections E)
  deliver_to none p cs = some cs
  deliver_to (some conns) p cs = if is_empty conns then some cs else deliver_event conns p cs

  -- `none` where it raises AttributeError; the channel is `none` where it is no text
  unfoldable pub dispatch :
      Registry → Option String → Payload E → Connections E → Option (Connections E)
  dispatch local none p cs = some cs
  dispatch local (some channel) p cs =
      let prefix = user_channel "" in
      if not (starts_with channel prefix)
      then some cs
      else deliver_to (get (drop_text (text_length prefix) channel) local) p cs

  -- the loops of `stop`
  unfoldable pub stop : Registry → Connections E → Connections E
  unfolding each
  stop [] cs = cs
  stop (u ∷ us) cs = stop us (each (close 1012 "server restarting") u.1 cs)
