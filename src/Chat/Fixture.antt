-- ===== src/Chat/Fixture.antt =====
-- The data of the tests: stand-ins for what the service does not implement, and a first send.
use mathlib.Core.List.Perm
use fastapi_realtime_chat_ba.Prelude.{ℕ, true, Option, some, none, List, [], ◌∷◌, refl, ◌≢◌}
use fastapi_realtime_chat_ba.Settings.{Settings, hs256}
use fastapi_realtime_chat_ba.Models.{Uuid, Time, Cursor, Db, Message, MessageStatus}
use fastapi_realtime_chat_ba.Externals.{Externals, present}
use fastapi_realtime_chat_ba.Ids.{Cursors}
use fastapi_realtime_chat_ba.Chat.Statements.{str_ltb, has_content}
use fastapi_realtime_chat_ba.Chat.Common.{SendMessageRequest, in_conversation}
use fastapi_realtime_chat_ba.Chat.Valid.{IsValid}
use fastapi_realtime_chat_ba.Chat.Rely.{Rely, Retains-refl}
use fastapi_realtime_chat_ba.Chat.Send.{SendInputs}

abbrev pub externals : Externals
externals = record {
  find_graphemes = λ text. text ∷ [];
  head_object = λ key. present (record { size = 10; content_type = "image/png" });
  generate_presigned_url = λ key. key;
  text_lt = str_ltb;
  returned = λ ids. ids;
  returned-perm = λ ids. Perm.refl ids;
  scanned = λ cs. cs;
  scanned-perm = λ cs. Perm.refl cs;
}

abbrev pub decode : Cursor → Option (Time × Uuid)
decode (t ∷ i ∷ []) = some (t, i)
decode _ = none

pub not-nil : (t i : ℕ) → ◌≢◌ {A = List ℕ} (t ∷ i ∷ []) []
not-nil t i e = cc

abbrev pub cursors : Cursors
cursors = record {
  encode_cursor = λ t i. t ∷ i ∷ [];
  decode_cursor = decode;
  decode-encode = λ t i. refl;
  encode-ne-nil = not-nil;
}

abbrev pub settings : Settings
settings = record {
  replica_id = "r1";
  auth_mode = hs256;
  jwt_secret = "a secret of at least 32 characters";
  jwks_url = none;
  jwt_algorithms = "RS256" ∷ [];
  jwt_issuer = none;
  jwt_audience = none;
  jwt_user_claim = "sub";
  jwt_leeway_seconds = 30;
  s3_endpoint_url = none;
  s3_public_endpoint_url = none;
  s3_bucket = "chat-attachments";
  s3_region = "us-east-1";
  s3_access_key = none;
  s3_secret_key = none;
  presign_expiry_seconds = 600;
  download_url_expiry_seconds = 3600;
  demo_enabled = true;
  attachment_max_bytes = 100;
  attachment_allowed_mime = "image/png" ∷ [];
  message_max_graphemes = 4000;
}

abbrev pub empty_db : Db
empty_db = record { conversations = []; messages = []; outbox = []; next_outbox_id = 0 }

pub empty_db-IsValid : IsValid externals empty_db
empty_db-IsValid = record {
  client_msg_ids = tt;
  ids = tt;
  pairs = tt;
  conversation_ids = tt;
  outbox_ids = tt;
  below_next = tt;
  sorted_pairs = tt;
  contents = tt;
  receipts = tt;
  members = tt;
}

abbrev pub nothing : Db → Db
nothing d = d

pub nothing-Rely : Rely externals nothing
nothing-Rely = record { keeps = λ d v. v; retains = λ d v. Retains-refl d.messages }

abbrev pub inputs : Time → Uuid → (Db → Db) → SendInputs
inputs now id others = record {
  now = now;
  staged_at = now;
  message_id = id;
  conversation_id = 3;
  conversation_at = now;
  meanwhile = others;
  after_rollback = nothing;
}

abbrev pub hello : SendMessageRequest
hello = record {
  recipient_id = "bob";
  client_msg_id = "c1";
  body = some "hi";
  attachment_key = none;
}

abbrev pub hello_message : Message
hello_message = record {
  id = 7;
  conversation_id = 3;
  sender_id = "alice";
  recipient_id = "bob";
  client_msg_id = "c1";
  body = some "hi";
  attachment_key = none;
  attachment_mime = none;
  status = MessageStatus.sent;
  created_at = 100;
  delivered_at = none;
  read_at = none;
}

-- The database after that send, with no event left in the outbox.
abbrev pub hello_db : Db
hello_db = record {
  conversations = record { id = 3; user_a = "alice"; user_b = "bob"; created_at = 100 } ∷ [];
  messages = hello_message ∷ [];
  outbox = [];
  next_outbox_id = 2;
}

pub hello_db-IsValid : IsValid externals hello_db
unfolding has_content in_conversation
hello_db-IsValid = record {
  client_msg_ids = (refl, tt);
  ids = (refl, tt);
  pairs = (refl, tt);
  conversation_ids = (refl, tt);
  outbox_ids = tt;
  below_next = tt;
  sorted_pairs = (refl, tt);
  contents = (refl, tt);
  receipts = ((refl, refl), tt);
  members = (
    record {
      conversation = record { id = 3; user_a = "alice"; user_b = "bob"; created_at = 100 };
      found = refl;
      of_sender = refl;
      peer = refl;
    },
    tt,
  );
}
