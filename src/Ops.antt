-- ===== src/Ops.antt =====
-- app/api/ops.py, readyz, and app/bootstrap.py with AttachmentStorage.ensure_bucket: what the operator's
-- probes and the bootstrap find out about the backing services.
mod Examples
use Prim.Native.String.{◌++◌ as str_append}
use fastapi_realtime_chat_ba.Prelude.{
  ℕ, zero, suc, ◌+◌, ◌<◌, String, Bool, true, false, ◌&&◌, Option, some, none, List, [], ◌∷◌, ◌≡◌,
  refl, arith, str_eq, if◌then◌else◌,
}
use fastapi_realtime_chat_ba.Settings.{Settings}

-- A probe of a backing service: it answers in time, or ends in an exception of this type.
pub data Probe : Type 0 where
  answers : Probe
  ends_in : String → Probe

abbrev pub outcome : Probe → String
outcome answers = "ok"
outcome (ends_in name) = str_append "error: " name

abbrev pub all_ok : List (String × String) → Bool
all_ok [] = true
all_ok (c ∷ cs) = str_eq c.1 "ok" && all_ok cs

pub record Readiness : Type 0 where
  pub status_code : ℕ
  pub status : String
  pub replica : String
  pub checks : List (String × String)

-- The order of the checks, which is that of their ends, is left out.
unfoldable pub readyz : Settings → Probe → Probe → Readiness
readyz s database redis =
    let checks = ("database", outcome database) ∷ ("redis", outcome redis) ∷ [] in
    let ready = all_ok checks in
    record {
      status_code = if ready then 200 else 503;
      status = if ready then "ok" else "unavailable";
      replica = s.replica_id;
      checks = checks;
    }

-- What the object store answers to a call about the bucket.
pub data BucketReply : Type 0 where
  done : BucketReply
  client_error : BucketReply
  unreachable : BucketReply

-- Whether `ensure_bucket` returns: the reply to head_bucket, and that to create_bucket.
unfoldable pub ensure_bucket : BucketReply → BucketReply → Bool
ensure_bucket done create = true
ensure_bucket unreachable create = false
ensure_bucket client_error done = true
ensure_bucket client_error client_error = false
ensure_bucket client_error unreachable = false

-- The attempts of `main`, from the number of the first on, of which `left` are left: the one at which
-- the bucket is ready, or `none` for the SystemExit.
unfoldable pub bootstrap : (ℕ → BucketReply × BucketReply) → ℕ → ℕ → Option ℕ
unfolding ensure_bucket
bootstrap replies attempt zero = none
bootstrap replies attempt (suc left) =
    let rest = bootstrap replies (attempt + 1) left in
    if ensure_bucket (replies attempt).0 (replies attempt).1 then some attempt else rest
