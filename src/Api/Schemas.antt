-- ===== src/Api/Schemas.antt =====
-- app/schemas.py: what pydantic checks of the requests.
use fastapi_realtime_chat_ba.Prelude.{
  ℕ, String, Bool, true, not, ◌&&◌, Option, some, none, List, leb, ltb, if◌then◌else◌, text_length,
  no_nul, is_nil, strip,
}
use fastapi_realtime_chat_ba.Auth.{is_user_id}
use fastapi_realtime_chat_ba.Chat.Statements.{is_some}
use fastapi_realtime_chat_ba.Chat.Common.{SendMessageRequest}

-- StringConstraints(min_length=…, max_length=…)
abbrev pub length_between : ℕ → ℕ → String → Bool
length_between least most t = leb least (text_length t) && leb (text_length t) most

-- the attachment_key of a SendMessageRequest
abbrev pub key_fits : Option String → Bool
key_fits none = true
key_fits (some key) = length_between 1 512 key

-- The body that `_has_content` leaves, `none` where it raises.
unfoldable pub checked_body : Option String → Option (Option String)
checked_body none = some none
checked_body (some body) =
    if not (no_nul body) then none else if is_nil (strip body) then some none else some (some body)

abbrev pub with_body : SendMessageRequest → Option (Option String) → Option SendMessageRequest
with_body req none = none
with_body req (some body) =
    if not (is_some body) && not (is_some req.attachment_key)
    then none
    else some (record req { body = body })

-- `_has_content`
unfoldable pub has_request_content : SendMessageRequest → Option SendMessageRequest
unfolding checked_body
has_request_content req = with_body req (checked_body req.body)

-- SendMessageRequest: `none` where pydantic rejects it
unfoldable pub valid_send : SendMessageRequest → Option SendMessageRequest
valid_send req =
    if is_user_id req.recipient_id
      && length_between 1 64 req.client_msg_id
      && key_fits req.attachment_key
    then has_request_content req
    else none

-- The size is not negative: a negative one is rejected as zero is.
pub record PresignRequest : Type 0 where
  pub filename : String
  pub content_type : String
  pub size : ℕ

unfoldable pub valid_presign : PresignRequest → Bool
valid_presign req =
    length_between 1 255 req.filename && length_between 3 100 req.content_type && ltb 0 req.size

pub record PresignResponse : Type 0 where
  pub url : String
  pub fields : List (String × String)
  pub key : String
  pub expires_in : ℕ
  pub max_bytes : ℕ

pub record TokenOut : Type 0 where
  pub access_token : String
  pub token_type : String
  pub user_id : String
  pub expires_in : ℕ
