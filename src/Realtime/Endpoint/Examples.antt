-- ===== src/Realtime/Endpoint/Examples.antt =====
-- A WebSocket's life, and what a client receives, on short runs.
use fastapi_realtime_chat_ba.Prelude.{
  ℕ, String, true, false, some, none, List, [], ◌∷◌, ◌++◌, ◌≡◌, ◌⊎◌,
}
use fastapi_realtime_chat_ba.Auth.{text_claim, JwtPackage, fine, websocket_token}
use fastapi_realtime_chat_ba.Chat.Fixture.{settings}
use fastapi_realtime_chat_ba.Realtime.Connection.Delivery.{
  Call, sends, closes, takes, calls, sent, new_connection,
}
use fastapi_realtime_chat_ba.Realtime.Hub.{Event, joins, leaves, new_hub}
use fastapi_realtime_chat_ba.Realtime.Endpoint.{chat_socket, write}
use fastapi_realtime_chat_ba.Realtime.Endpoint.Lifetime.{Life, chat_socket-Life}
use fastapi_realtime_chat_ba.Realtime.Endpoint.Written.{write_sends}

-- every token is alice's
abbrev package_of_alice : JwtPackage
package_of_alice = record {
  decode = λ now c. fine (("sub", text_claim "alice") ∷ []);
  signing_key = λ url token. fine "public";
  encode = λ claims secret. "token";
}

abbrev others : List Event
others = joins "bob" 1 ∷ joins "alice" 3 ∷ leaves "bob" 1 ∷ []

chat_socket-Life_example :
    Life package_of_alice settings 100 2 others new_hub
      (websocket_token "" (some "token")).0
      (chat_socket package_of_alice settings 100 "" (some "token") 2 others new_hub)
chat_socket-Life_example =
    chat_socket-Life package_of_alice settings 100 2 others new_hub "" (some "token")

abbrev some_calls : List (Call ℕ)
some_calls = sends 1 ∷ takes ∷ sends 2 ∷ closes 4408 "idle timeout" ∷ sends 3 ∷ []

write_sends_example :
    let t = calls some_calls ([], new_connection "bob" 1) in
    (first : List ℕ) × (rest : List ℕ) × (sent some_calls ≡ first ++ rest)
    × (((write (t.0 ++ t.1.queue) ≡ (first, none)) × (rest ≡ []) × (t.1.closing ≡ false))
        ⊎ ((code : ℕ) × (reason : String) × (write (t.0 ++ t.1.queue)
              ≡ (first, some (code, reason)))
            × (t.1.closing ≡ true)))
write_sends_example = write_sends "bob" 1 some_calls
