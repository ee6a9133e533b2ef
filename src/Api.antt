-- ===== src/Api.antt =====
-- app/api/v1.py: the endpoints, as actions of the request's session.
pub mod Schemas
pub mod Validated
pub mod Posted
pub mod Upload
pub mod Demo
mod Examples
use Prim.Native.String.{◌++◌ as str_append}
use fastapi_realtime_chat_ba.Prelude.{
  ℕ, ◌*◌, String, Bool, true, false, not, ◌&&◌, Option, some, none, List, [], ◌∷◌, leb, ltb, str_eq,
  if◌then◌else◌, length, strip, split_at,
}
use fastapi_realtime_chat_ba.Errors.{
  Result, ok, err, Failure, raised, invalid, FieldError, AppError, app_error, allowed_types,
  limit_is,
}
use fastapi_realtime_chat_ba.Errors.Responses.{ErrorResponse, respond, http_error_response}
use fastapi_realtime_chat_ba.Settings.{Settings, is_hs256}
use fastapi_realtime_chat_ba.Models.{Uuid, Time, Cursor, MessageOut, Db, Conversation}
use fastapi_realtime_chat_ba.Externals.{Externals}
use fastapi_realtime_chat_ba.Ids.{Cursors, uuid_text}
use fastapi_realtime_chat_ba.Auth.{JwtPackage, get_current_user, mint_token}
use fastapi_realtime_chat_ba.Storage.{Signer, PresignedPost, presign_upload}
use fastapi_realtime_chat_ba.Chat.Session.{
  Session, Exec, ◌>>=◌, ◌>>◌, pure, lift, raise, open_session,
}
use fastapi_realtime_chat_ba.Chat.Common.{SendMessageRequest}
use fastapi_realtime_chat_ba.Chat.Send.{SendInputs, send_message, contains}
use fastapi_realtime_chat_ba.Chat.Receipts.{ReadResult, mark_delivered, mark_read}
use fastapi_realtime_chat_ba.Chat.Listing.{MessagePage, list_messages}
use fastapi_realtime_chat_ba.Chat.Inbox.{ConversationOut, list_conversations}
use fastapi_realtime_chat_ba.Api.Schemas.{
  valid_send, PresignRequest, valid_presign, PresignResponse, TokenOut,
}

-- A response: a status code with its body, or an error.
pub data Reply {ℓ} (A : Type ℓ) : Type ℓ where
  answered : ℕ → A → Reply A
  failed : ErrorResponse → Reply A

-- What the application answers, by its exception handlers.
unfoldable pub reply_of {ℓ} : {A : Type ℓ} → Option String → Result (ℕ × A) → Reply A
reply_of request_id (ok r) = answered r.0 r.1
reply_of request_id (err e) = failed (respond request_id e)

-- The validated value, or pydantic's errors.
abbrev pub validated {ℓ} : {A : Type ℓ} → List FieldError → Option A → Result A
validated errors none = err (invalid errors)
validated errors (some a) = ok a

-- a test of pydantic
abbrev pub checks : List FieldError → Bool → Result (Unit {0})
checks errors b = if b then ok tt else err (invalid errors)

abbrev pub max_length : ℕ → Option Cursor → Bool
max_length most none = true
max_length most (some c) = leb (length c) most

-- Query(ge=…, le=…)
abbrev pub in_range : ℕ → ℕ → ℕ → Bool
in_range least most n = leb least n && leb n most

-- the status of `send_message`
abbrev pub send_status : Bool → ℕ
send_status created = if not created then 200 else 201

-- What a request is made with: PyJWT, the time in seconds, the bearer token, and what pydantic
-- reports on the request if it rejects it.
pub record HttpRequest : Type 0 where
  pub jwt : JwtPackage
  pub seconds : ℕ
  pub credentials : Option String
  pub errors : List FieldError

module _ (x : Externals) (k : Cursors) (st : Settings) (r : HttpRequest) where
  -- get_current_user
  abbrev pub current_user : Result String
  current_user = get_current_user r.jwt st r.seconds r.credentials

  unfoldable pub post_message : SendInputs → SendMessageRequest → Exec (ℕ × MessageOut)
  post_message i payload = do
    user ← lift current_user
    req ← lift (validated r.errors (valid_send payload))
    sent ← send_message x k i user req st
    pure (send_status sent.1, sent.0)

  unfoldable pub post_delivered : Time → Time → Uuid → Exec (ℕ × MessageOut)
  post_delivered now staged_at message_id = do
    user ← lift current_user
    message ← mark_delivered x k now staged_at user message_id
    pure (200, message)

  unfoldable pub get_conversations : ℕ → Exec (ℕ × List ConversationOut)
  get_conversations limit = do
    user ← lift current_user
    lift (checks r.errors (in_range 1 100 limit))
    items ← list_conversations x k user limit
    pure (200, items)

  unfoldable pub get_messages : Uuid → ℕ → Option Cursor → Option Cursor → Exec (ℕ × MessagePage)
  get_messages conversation_id limit before after = do
    user ← lift current_user
    lift (checks r.errors (in_range 1 200 limit && max_length 200 before && max_length 200 after))
    page ← list_messages x k user conversation_id limit before after
    pure (200, page)

  unfoldable pub post_read : Time → Time → Uuid → Uuid → Exec (ℕ × ReadResult)
  post_read now staged_at conversation_id up_to_message_id = do
    user ← lift current_user
    result ← mark_read x now staged_at user conversation_id up_to_message_id
    pure (200, result)

abbrev pub first_piece : List String → String
first_piece [] = ""
first_piece (t ∷ ts) = t

-- `content_type.split(";", 1)[0].strip().lower()`, with `str.lower`
abbrev pub media_type : (String → String) → String → String
media_type lower content_type = lower (strip (first_piece (split_at b';' content_type)))

abbrev pub extensions : List (String × String)
extensions =
    ("image/jpeg", ".jpg")
    ∷ ("image/png", ".png")
    ∷ ("image/gif", ".gif")
    ∷ ("image/webp", ".webp")
    ∷ ("application/pdf", ".pdf")
    ∷ []

abbrev pub extension_of : List (String × String) → String → String
extension_of [] t = ""
extension_of (e ∷ es) t = if str_eq t e.0 then e.1 else extension_of es t

unfoldable pub upload_key : String → Uuid → String → String
upload_key user id content_type = str_append "u/" (
    str_append user
      (str_append "/" (str_append (uuid_text id) (extension_of extensions content_type))))

abbrev pub unsupported : Settings → AppError
unsupported st = record {
  status_code = 415;
  code = "unsupported_media_type";
  message = allowed_types st.attachment_allowed_mime;
}

abbrev pub too_large : Settings → AppError
too_large st = record {
  status_code = 413;
  code = "payload_too_large";
  message = limit_is st.attachment_max_bytes;
}

module _ (sign : Signer) (lower : String → String) (st : Settings) where
  abbrev pub presign_response : String → PresignedPost → PresignResponse
  presign_response key post = record {
    url = post.url;
    fields = post.fields;
    key = key;
    expires_in = st.presign_expiry_seconds;
    max_bytes = st.attachment_max_bytes;
  }

  abbrev pub presign_reply : String → Result PresignedPost → Result (ℕ × PresignResponse)
  presign_reply key (err f) = err f
  presign_reply key (ok post) = ok (200, presign_response key post)

  unfoldable pub presign_for : String → Uuid → PresignRequest → Result (ℕ × PresignResponse)
  presign_for user id payload =
      let content_type = media_type lower payload.content_type in
      if not (contains st.attachment_allowed_mime content_type)
      then err (raised (unsupported st))
      else if ltb st.attachment_max_bytes payload.size
      then err (raised (too_large st))
      else let key = upload_key user id content_type in
        presign_reply key (presign_upload sign st key content_type)

  unfoldable pub presign_attachment :
      HttpRequest → Uuid → PresignRequest → Exec (ℕ × PresignResponse)
  presign_attachment r id payload = do
    user ← lift (get_current_user r.jwt st r.seconds r.credentials)
    lift (checks r.errors (valid_presign payload))
    lift (presign_for user id payload)

-- app/main.py: whether the application has the demo's routes
abbrev pub demo_served : Settings → Bool
demo_served st = st.demo_enabled && is_hs256 st.auth_mode

-- Literal["alice", "bob"]
abbrev pub is_demo_user : String → Bool
is_demo_user user = contains ("alice" ∷ "bob" ∷ []) user

abbrev pub demo_ttl : ℕ
demo_ttl = 12 * 3600

abbrev pub demo_out : HttpRequest → Settings → String → TokenOut
demo_out r st user = record {
  access_token =
      mint_token r.jwt r.seconds user st.jwt_secret demo_ttl st.jwt_user_claim st.jwt_issuer
        st.jwt_audience;
  token_type = "bearer";
  user_id = user;
  expires_in = demo_ttl;
}

unfoldable pub demo_token : HttpRequest → Settings → String → Result (ℕ × TokenOut)
demo_token r st user =
    if not (is_demo_user user) then err (invalid r.errors) else ok (200, demo_out r st user)

-- The route of the demo's token, which the application has or has not.
unfoldable pub demo_route : Option String → HttpRequest → Settings → String → Reply TokenOut
demo_route request_id r st user =
    if demo_served st
    then reply_of request_id (demo_token r st user)
    else failed (http_error_response request_id 404 "Not Found")
