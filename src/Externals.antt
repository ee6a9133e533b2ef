-- ===== src/Externals.antt =====
-- What the chat service uses and does not implement: `regex`, the object store, and
-- the choices of the database, each as an operation with the behaviour that the code relies on.
use mathlib.Core.List.{Perm}
use fastapi_realtime_chat_ba.Prelude.{ℕ, String, Bool, List}
use fastapi_realtime_chat_ba.Models.{Uuid, Conversation}

-- app/storage.py, StoredObject
pub record StoredObject : Type 0 where
  pub size : ℕ
  pub content_type : String

-- The reply of `head_object`: the object, a ClientError with a code of absence, or another one.
pub data HeadReply : Type 0 where
  present : StoredObject → HeadReply
  absent : HeadReply
  refused : HeadReply

pub record Externals : Type 1 where
  -- `\X` of the regex package, all matches
  pub find_graphemes : String → List String
  pub head_object : String → HeadReply
  pub generate_presigned_url : String → String
  -- the database's `<` on texts, by its collation
  pub text_lt : String → String → Bool
  -- RETURNING gives the rows in no particular order
  pub returned : List Uuid → List Uuid
  pub returned-perm : (ids : List Uuid) → Perm (returned ids) ids
  -- the order in which a statement finds rows that its ORDER BY does not tell apart
  pub scanned : List Conversation → List Conversation
  pub scanned-perm : (cs : List Conversation) → Perm (scanned cs) cs
