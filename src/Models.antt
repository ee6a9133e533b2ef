-- ===== src/Models.antt =====
-- app/models.py: the rows of the three tables, and the database as the tables that hold them.
-- A time is the number of microseconds since the epoch, an identifier the 128-bit number of a UUID.
use Prim.Native.String.{◌++◌ as str_append}
use fastapi_realtime_chat_ba.Prelude.{
  ℕ, String, Bool, true, false, Option, List, str_eq, if◌then◌else◌,
}

abbrev pub Uuid : Type 0
Uuid = ℕ

abbrev pub Time : Type 0
Time = ℕ

-- The characters of a pagination cursor, as code points.
abbrev pub Cursor : Type 0
Cursor = List ℕ

pub data MessageStatus : Type 0 where
  sent delivered read : MessageStatus

-- `==` of MessageStatus
abbrev pub status_eq : MessageStatus → MessageStatus → Bool
status_eq sent sent = true
status_eq delivered delivered = true
status_eq read read = true
status_eq _ _ = false

pub record Conversation : Type 0 where
  pub id : Uuid
  pub user_a : String
  pub user_b : String
  pub created_at : Time

abbrev pub peer_of : Conversation → String → String
peer_of c user_id = if str_eq user_id c.user_a then c.user_b else c.user_a

pub record Message : Type 0 where
  pub id : Uuid
  pub conversation_id : Uuid
  pub sender_id : String
  pub recipient_id : String
  pub client_msg_id : String
  pub body : Option String
  pub attachment_key : Option String
  pub attachment_mime : Option String
  pub status : MessageStatus
  pub created_at : Time
  pub delivered_at : Option Time
  pub read_at : Option Time

-- app/schemas.py
pub record MessageOut : Type 0 where
  pub id : Uuid
  pub conversation_id : Uuid
  pub sender_id : String
  pub recipient_id : String
  pub client_msg_id : String
  pub body : Option String
  pub attachment_key : Option String
  pub attachment_mime : Option String
  pub attachment_url : Option String
  pub status : MessageStatus
  pub created_at : Time
  pub delivered_at : Option Time
  pub read_at : Option Time
  pub cursor : Cursor

-- The `data` objects of the events that the service stages.
pub data EventData : Type 0 where
  message_data : MessageOut → EventData
  delivered_data : Uuid → Uuid → String → Time → EventData
  read_data : Uuid → String → List Uuid → Time → EventData

pub record Event : Type 0 where
  pub type : String
  pub content : EventData

pub record Outbox : Type 0 where
  pub id : ℕ
  pub topic : String
  pub payload : Event
  pub created_at : Time
  pub published_at : Option Time

pub record Db : Type 0 where
  pub conversations : List Conversation
  pub messages : List Message
  pub outbox : List Outbox
  pub next_outbox_id : ℕ

abbrev pub user_topic : String → String
user_topic user_id = str_append "user:" user_id

abbrev pub make_event : String → EventData → Event
make_event event_type content = record { type = event_type; content = content }
