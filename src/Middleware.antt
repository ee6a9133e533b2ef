-- ===== src/Middleware.antt =====
-- app/middleware.py, RequestContextMiddleware: the id of a request, and what becomes of its response.
pub mod RequestId
use fastapi_realtime_chat_ba.Prelude.{
  ℕ, String, Bool, true, false, ◌&&◌, ◌||◌, Option, some, none, leb, ◌==◌, if◌then◌else◌, every,
  text_length,
}
use fastapi_realtime_chat_ba.Ids.{hex}
use fastapi_realtime_chat_ba.Auth.{chop_newline}
use fastapi_realtime_chat_ba.Errors.{Failure}
use fastapi_realtime_chat_ba.Errors.Responses.{ErrorResponse, internal_error}

-- the class of _VALID_REQUEST_ID
unfoldable pub is_id_char : ℕ → Bool
is_id_char c =
    (leb b'A' c && leb c b'Z')
    || (leb b'a' c && leb c b'z')
    || (leb b'0' c && leb c b'9')
    || c == b'.'
    || c == b'_'
    || c == b'-'

unfoldable pub is_request_id : String → Bool
is_request_id s = every is_id_char s && leb 1 (text_length s) && leb (text_length s) 128

-- `_VALID_REQUEST_ID.match`, where `$` stands before a newline at the end, too
unfoldable pub request_id_match : String → Bool
request_id_match s = is_request_id s || is_request_id (chop_newline s)

-- the id of a request, from its header, the empty text where there is none, or from a new UUID
unfoldable pub request_id_of : String → ℕ → String
request_id_of incoming uuid4 = if request_id_match incoming then incoming else hex 32 uuid4

-- What the application does with an HTTP request: it responds with a status, it raises before or after
-- a response has begun, or it returns without one.
pub data AppRun : Type 0 where
  responds : ℕ → AppRun
  raises_first : AppRun
  raises_late : ℕ → AppRun
  silent : AppRun

-- What the middleware makes of it: the response's status with its x-request-id, if it
-- has one, the body where it is
-- the middleware's own, the status of the log and the metrics, and whether the exception goes on.
pub record Exchange : Type 0 where
  pub response : Option (ℕ × Option String)
  pub body : Option ErrorResponse
  pub status : ℕ
  pub raised_again : Bool

-- `_http`, with `send_wrapper` around each response
unfoldable pub http : String → AppRun → Exchange
http request_id (responds status) = record {
  response = some (status, some request_id);
  body = none;
  status = status;
  raised_again = false;
}
http request_id raises_first = record {
  response = some (500, some request_id);
  body = some (internal_error (some request_id));
  status = 500;
  raised_again = false;
}
http request_id (raises_late status) = record {
  response = some (status, some request_id);
  body = none;
  status = status;
  raised_again = true;
}
http request_id silent = record { response = none; body = none; status = 500; raised_again = false }

-- `__call__`, for a scope of type http
unfoldable pub call_http : String → ℕ → AppRun → Exchange
call_http incoming uuid4 run = http (request_id_of incoming uuid4) run
