-- ===== src/Errors.antt =====
-- app/errors.py: the errors that the program raises and the responses that they become.
pub mod Responses
use fastapi_realtime_chat_ba.Prelude.{ℕ, String, List}

-- The message of an error. A text with a value in it (an f-string) is kept as that value.
pub data ErrorText : Type 0 where
  says : String → ErrorText
  body_exceeds : ℕ → ErrorText
  token_rejected : String → ErrorText
  claim_is_no_user : String → ErrorText
  allowed_types : List String → ErrorText
  limit_is : ℕ → ErrorText

pub record AppError : Type 0 where
  pub status_code : ℕ
  pub code : String
  pub message : ErrorText

abbrev pub app_error : ℕ → String → String → AppError
app_error status code message = record { status_code = status; code = code; message = says message }

abbrev pub not_found : String → AppError
not_found message = app_error 404 "not_found" message

-- One error of a RequestValidationError: where it is, and pydantic's text.
pub record FieldError : Type 0 where
  pub loc : List String
  pub msg : String

-- What a call can raise: the program's own errors, a request that pydantic rejects, a violated
-- constraint of the database, a query for one row that meets several or none, an error of the object
-- store, an index out of range, an error of Redis, a lost connection to the database, and an exception
-- of a library that no part of the program catches.
pub data Failure : Type 0 where
  raised : AppError → Failure
  invalid : List FieldError → Failure
  integrity_error : Failure
  wrong_row_count : Failure
  client_error : Failure
  index_error : Failure
  redis_error : Failure
  operational_error : Failure
  unexpected : Failure

pub data Result {ℓ} (A : Type ℓ) : Type ℓ where
  ok : A → Result A
  err : Failure → Result A
