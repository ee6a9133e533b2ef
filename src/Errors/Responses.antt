-- ===== src/Errors/Responses.antt =====
-- app/errors.py, the exception handlers, with the last resort of app/middleware.py: the response to
-- each failure.
use Prim.Native.String.{◌++◌ as str_append}
use fastapi_realtime_chat_ba.Prelude.{
  ℕ, String, Option, List, [], ◌∷◌, map, ◌==◌, str_eq, if◌then◌else◌, take, is_nil,
}
use fastapi_realtime_chat_ba.Errors.{
  ErrorText, says, AppError, FieldError, Failure, raised, invalid, integrity_error, wrong_row_count,
  client_error, index_error, redis_error, operational_error, unexpected,
}

pub record ErrorResponse : Type 0 where
  pub status_code : ℕ
  pub code : String
  pub message : ErrorText
  pub request_id : Option String

unfoldable pub error_response : Option String → ℕ → String → ErrorText → ErrorResponse
error_response request_id status_code code message = record {
  status_code = status_code;
  code = code;
  message = message;
  request_id = request_id;
}

abbrev pub status_codes : List (ℕ × String)
status_codes =
    (400, "bad_request")
    ∷ (401, "unauthorized")
    ∷ (403, "access_denied")
    ∷ (404, "not_found")
    ∷ (405, "method_not_allowed")
    ∷ (409, "conflict")
    ∷ (413, "payload_too_large")
    ∷ (415, "unsupported_media_type")
    ∷ (422, "validation_error")
    ∷ (429, "rate_limited")
    ∷ (503, "service_unavailable")
    ∷ []

abbrev pub code_of : ℕ → List (ℕ × String) → String
code_of status [] = "error"
code_of status (e ∷ es) = if status == e.0 then e.1 else code_of status es

unfoldable pub app_error_response : Option String → AppError → ErrorResponse
app_error_response request_id e = error_response request_id e.status_code e.code e.message

unfoldable pub http_error_response : Option String → ℕ → String → ErrorResponse
http_error_response request_id status detail =
    error_response request_id status (code_of status status_codes) (says detail)

-- `sep.join`
abbrev pub join : String → List String → String
join sep [] = ""
join sep (t ∷ []) = t
join sep (t ∷ u ∷ ts) = str_append t (str_append sep (join sep (u ∷ ts)))

abbrev pub without_body : List String → List String
without_body [] = []
without_body (p ∷ ps) = let rest = without_body ps in if str_eq p "body" then rest else p ∷ rest

abbrev pub error_part : FieldError → String
error_part e =
    let loc = join "." (without_body e.loc) in
    if is_nil loc then e.msg else str_append loc (str_append ": " e.msg)

unfoldable pub validation_error : Option String → List FieldError → ErrorResponse
validation_error request_id errors =
    let text = join "; " (map error_part (take 5 errors)) in
    error_response request_id 422 "validation_error"
      (says (if is_nil text then "Invalid request" else text))

unfoldable pub dependency_down : Option String → ErrorResponse
dependency_down request_id =
    error_response request_id 503 "service_unavailable"
      (says "A backing service is unavailable, retry")

-- the middleware's answer to an exception that no handler takes, before a response has begun
unfoldable pub internal_error : Option String → ErrorResponse
internal_error request_id =
    error_response request_id 500 "internal_error" (says "Internal server error")

-- The handlers that `install_error_handlers` installs, and the middleware around them. A query that
-- meets a wrong number of rows is no DBAPIError.
unfoldable pub respond : Option String → Failure → ErrorResponse
respond request_id (raised e) = app_error_response request_id e
respond request_id (invalid errors) = validation_error request_id errors
respond request_id integrity_error = dependency_down request_id
respond request_id operational_error = dependency_down request_id
respond request_id redis_error = dependency_down request_id
respond request_id wrong_row_count = internal_error request_id
respond request_id client_error = internal_error request_id
respond request_id index_error = internal_error request_id
respond request_id unexpected = internal_error request_id
