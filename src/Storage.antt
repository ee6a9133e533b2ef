-- ===== src/Storage.antt =====
-- app/storage.py: what AttachmentStorage asks of boto3, which is a parameter.
use fastapi_realtime_chat_ba.Prelude.{ℕ, String, Option, none, some, List, [], ◌∷◌}
use fastapi_realtime_chat_ba.Errors.{Result, ok, err, unexpected}
use fastapi_realtime_chat_ba.Settings.{Settings, or_text}

-- A condition of a POST policy: a field that has to have a value, or bounds of the size.
pub data Condition : Type 0 where
  field_is : String → String → Condition
  content_length_range : ℕ → ℕ → Condition

-- The arguments of `generate_presigned_post`.
pub record PostPolicy : Type 0 where
  pub bucket : String
  pub key : String
  pub fields : List (String × String)
  pub conditions : List Condition
  pub expires_in : ℕ

pub record PresignedPost : Type 0 where
  pub url : String
  pub fields : List (String × String)

-- `generate_presigned_post` of a client, for its endpoint; `none` where boto3 raises, as it does
-- without credentials
abbrev pub Signer : Type 0
Signer = Option String → PostPolicy → Option PresignedPost

abbrev pub signed : Option PresignedPost → Result PresignedPost
signed none = err unexpected
signed (some post) = ok post

-- the endpoint of `_signer`: `public or endpoint`
abbrev pub signer_endpoint : Settings → Option String
signer_endpoint s = or_text s.s3_public_endpoint_url s.s3_endpoint_url

unfoldable pub upload_policy : Settings → String → String → PostPolicy
upload_policy s key content_type = record {
  bucket = s.s3_bucket;
  key = key;
  fields = ("Content-Type", content_type) ∷ [];
  conditions =
      field_is "Content-Type" content_type ∷ content_length_range 1 s.attachment_max_bytes ∷ [];
  expires_in = s.presign_expiry_seconds;
}

unfoldable pub presign_upload : Signer → Settings → String → String → Result PresignedPost
presign_upload sign s key content_type =
    signed (sign (signer_endpoint s) (upload_policy s key content_type))
