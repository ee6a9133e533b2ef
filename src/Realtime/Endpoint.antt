-- ===== src/Realtime/Endpoint.antt =====
-- app/api/ws.py, chat_socket: a WebSocket from its hand-shake to its end, and the writer of its session.
pub mod Lifetime
pub mod Written
mod Examples
use fastapi_realtime_chat_ba.Prelude.{
  ℕ, String, Bool, true, false, Option, some, none, List, [], ◌∷◌, ◌++◌, if◌then◌else◌, is_nil,
}
use fastapi_realtime_chat_ba.Errors.{Result, ok, err, Failure, raised, AppError}
use fastapi_realtime_chat_ba.Settings.{Settings}
use fastapi_realtime_chat_ba.Auth.{JwtPackage, verify, websocket_token}
use fastapi_realtime_chat_ba.Realtime.Connection.{Queued, event, close_request}
use fastapi_realtime_chat_ba.Realtime.Hub.{Hub, Event, joins, leaves, step, steps}

-- How the endpoint ends: it closes the WebSocket itself, its session ran, or it raises.
pub data Ended : Type 0 where
  closed : ℕ → String → Ended
  ran : String → Ended
  raises : Failure → Ended

-- The subprotocol that it accepted, its end, and the hub then.
pub record Served : Type 0 where
  pub subprotocol : Option String
  pub ended : Ended
  pub hub : Hub

abbrev pub close_unauthorized : ℕ
close_unauthorized = 4401

-- The session of a user's connection `i`, with what happens to the hub while it runs; the endpoint
-- unregisters also where the session raises.
unfoldable pub serve : Option String → ℕ → List Event → Hub → Result String → Served
serve subprotocol i meanwhile h (ok user_id) = record {
  subprotocol = subprotocol;
  ended = ran user_id;
  hub = step (leaves user_id i) (steps meanwhile (step (joins user_id i) h));
}
serve subprotocol i meanwhile h (err (raised e)) = record {
  subprotocol = subprotocol;
  ended = closed close_unauthorized e.code;
  hub = h;
}
serve subprotocol i meanwhile h (err f) = record {
  subprotocol = subprotocol;
  ended = raises f;
  hub = h;
}

abbrev pub missing_token : Option String → Hub → Served
missing_token subprotocol h = record {
  subprotocol = subprotocol;
  ended = closed close_unauthorized "missing token";
  hub = h;
}

unfoldable pub with_token :
    JwtPackage → Settings → ℕ → ℕ → List Event → Hub → Option String × Option String → Served
with_token j s now i meanwhile h (none, subprotocol) = missing_token subprotocol h
with_token j s now i meanwhile h (some token, subprotocol) =
    if is_nil token
    then missing_token subprotocol h
    else serve subprotocol i meanwhile h (verify j s now token)

-- for the header Sec-WebSocket-Protocol and the query's `token`
unfoldable pub chat_socket :
    JwtPackage → Settings → ℕ → String → Option String → ℕ → List Event → Hub → Served
chat_socket j s now header query i meanwhile h =
    with_token j s now i meanwhile h (websocket_token header query)

-- `_writer`: what it sends of a queue, and the close that ends it; without one it waits for more
unfoldable pub write {ℓ} : {E : Type ℓ} → List (Queued E) → List E × Option (ℕ × String)
write [] = ([], none)
write (event e ∷ qs) = let rest = write qs in (e ∷ rest.0, rest.1)
write (close_request code reason ∷ qs) = ([], some (code, reason))
