-- ===== src/Middleware/RequestId/Examples.antt =====
-- The id of a response, at a concrete request.
use fastapi_realtime_chat_ba.Prelude.{String, true, Option, some, ◌≡◌, refl}
use fastapi_realtime_chat_ba.Middleware.{
  is_id_char, is_request_id, request_id_match, request_id_of, raises_first, http, call_http,
}
use fastapi_realtime_chat_ba.Middleware.RequestId.{response_id_valid}

own_id : (call_http "r-1" 5 raises_first).response ≡ some (500, some "r-1")
unfolding call_http http request_id_of request_id_match is_request_id is_id_char
own_id = refl

response_id_valid_example :
    (id : String) × (◌≡◌ {A = Option String} (some "r-1") (some id))
    × (request_id_match id ≡ true)
    × (request_id_match "r-1" ≡ true → id ≡ "r-1")
response_id_valid_example = response_id_valid "r-1" 5 raises_first (500, some "r-1") own_id
