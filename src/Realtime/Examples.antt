-- ===== src/Realtime/Examples.antt =====
-- A connection and a hub on short runs.
use fastapi_realtime_chat_ba.Prelude.{
  ℕ, true, false, some, List, [], ◌∷◌, ◌++◌, ◌≡◌, refl, if◌then◌else◌,
}
use fastapi_realtime_chat_ba.Models.{user_topic}
use fastapi_realtime_chat_ba.Realtime.Connection.{send_nowait, close_request}
use fastapi_realtime_chat_ba.Realtime.Relay.{topic_channel}
use fastapi_realtime_chat_ba.Realtime.Hub.Members.{member_from}
use fastapi_realtime_chat_ba.Realtime.Hub.Dispatch.{
  Connections, object, object_there, dispatch, stop,
}
use fastapi_realtime_chat_ba.Realtime.Hub.Fanout.{dispatch_reaches}
use fastapi_realtime_chat_ba.Realtime.Hub.Shutdown.{in_some_set, stop_closes}
use fastapi_realtime_chat_ba.Realtime.Connection.Delivery.{
  Call, sends, closes, takes, calls, new_connection,
}
use fastapi_realtime_chat_ba.Realtime.Connection.Closing.{Delivered, calls-Delivered}
use fastapi_realtime_chat_ba.Realtime.Hub.{
  user_channel, Registry, Channels, Event, joins, leaves, applies, breaks, begins, connects,
  register, unregister, unregister_from, apply_request, release_waiters, resubscribe, connected,
  step, steps, new_hub, local_channels, on, unsubscribe,
}
use fastapi_realtime_chat_ba.Realtime.Hub.Follows.{subscriptions_follow}

abbrev some_calls : List (Call ℕ)
some_calls = sends 1 ∷ sends 2 ∷ takes ∷ closes 1000 "bye" ∷ sends 3 ∷ takes ∷ takes ∷ []

calls-Delivered_example :
    Delivered
      ([], new_connection "bob" 1)
      some_calls
      (calls some_calls ([], new_connection "bob" 1))
calls-Delivered_example = calls-Delivered "bob" 1 some_calls

-- The connection to Redis breaks while a request waits, and is made again.
abbrev some_events : List Event
some_events =
    joins "bob" 1
    ∷ begins
    ∷ connects
    ∷ applies
    ∷ joins "eve" 2
    ∷ breaks
    ∷ leaves "bob" 1
    ∷ begins
    ∷ connects
    ∷ applies
    ∷ []

-- what the loop is subscribed to after them
abbrev eves : Channels
eves d = on (unsubscribe (user_channel "bob")) d (local_channels (("eve", 2 ∷ []) ∷ []) d)

subscriptions_follow_example :
    eves (user_channel "eve")
    ≡ local_channels (steps some_events new_hub).registry (user_channel "eve")
unfolding steps step register unregister unregister_from apply_request release_waiters resubscribe
    connected
subscriptions_follow_example = subscriptions_follow some_events eves refl refl (user_channel "eve")

-- every connection of the test is open, with nothing to send
abbrev fresh : Connections ℕ
fresh j = new_connection "bob" j

abbrev some_joins : List Event
some_joins = joins "bob" 1 ∷ joins "bob" 3 ∷ joins "eve" 2 ∷ leaves "bob" 1 ∷ []

dispatch_reaches_example :
    (cs' : Connections ℕ) × (dispatch
        (steps some_joins new_hub).registry
        (some (topic_channel (user_topic "bob")))
        (object "message.new" object_there 5)
        fresh
      ≡ some cs')
    × ((j : ℕ)
        → cs' j
          ≡ (if member_from some_joins "bob" j false then send_nowait 5 (fresh j) else fresh j))
dispatch_reaches_example = dispatch_reaches some_joins "bob" "message.new" object_there 5 fresh refl

-- the joined connections of that run, and one that left
some_members :
    (member_from some_joins "bob" 3 false ≡ true)
    × (member_from some_joins "bob" 1 false ≡ false)
    × (member_from some_joins "eve" 2 false ≡ true)
some_members = (refl, refl, refl)

abbrev two_users : Registry
two_users = ("bob", 1 ∷ 3 ∷ []) ∷ ("eve", 2 ∷ []) ∷ []

stop_closes_example :
    (in_some_set 3 two_users ≡ true → (stop two_users fresh 3).closing ≡ true)
    × (in_some_set 3 two_users ≡ true
        → (fresh 3).closing ≡ false
        → (stop two_users fresh 3).queue
          ≡ (fresh 3).queue ++ (close_request 1012 "server restarting" ∷ []))
    × (in_some_set 3 two_users ≡ false → stop two_users fresh 3 ≡ fresh 3)
stop_closes_example = stop_closes two_users fresh 3
