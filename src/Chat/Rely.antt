-- ===== src/Chat/Rely.antt =====
-- What one call of the service may assume of the other sessions, and promises them.
use fastapi_realtime_chat_ba.Prelude.{
  String, none, some, List, ◌∷◌, ◌≡◌, ◌∙◌, refl, arith, find_row, find_row-none_at, find_row_sound,
}
use fastapi_realtime_chat_ba.Models.{Message, Db}
use fastapi_realtime_chat_ba.Externals.{Externals}
use fastapi_realtime_chat_ba.Chat.Statements.{has_client_msg_id}
use fastapi_realtime_chat_ba.Chat.Valid.{IsValid, client_msg_id-Keyed}

-- All of a message but its receipts: its status, delivered_at and read_at.
pub record SameContent (m n : Message) : Type 0 where
  pub id : n.id ≡ m.id
  pub conversation : n.conversation_id ≡ m.conversation_id
  pub sender : n.sender_id ≡ m.sender_id
  pub client_msg_id : n.client_msg_id ≡ m.client_msg_id
  pub recipient : n.recipient_id ≡ m.recipient_id
  pub body : n.body ≡ m.body
  pub attachment : n.attachment_key ≡ m.attachment_key
  pub mime : n.attachment_mime ≡ m.attachment_mime
  pub created : n.created_at ≡ m.created_at

pub SameContent-refl : (m : Message) → SameContent m m
SameContent-refl m = record {
  id = refl;
  conversation = refl;
  sender = refl;
  client_msg_id = refl;
  recipient = refl;
  body = refl;
  attachment = refl;
  mime = refl;
  created = refl;
}

-- No message of the first list is missing or has another content in the second.
abbrev pub Retains : List Message → List Message → Type 0
Retains ms ns =
    (sender_id client_msg_id : String) (m : Message)
    → find_row (has_client_msg_id sender_id client_msg_id) ms ≡ some m
    → (n : Message) × (find_row (has_client_msg_id sender_id client_msg_id) ns ≡ some n)
      × SameContent m n

-- Commits that keep the invariant, delete no message and change none but in its receipts.
pub record Rely (x : Externals) (f : Db → Db) : Type 0 where
  pub keeps : (d : Db) → IsValid x d → IsValid x (f d)
  pub retains : (d : Db) → IsValid x d → Retains d.messages (f d).messages

pub SameContent-trans : {l m n : Message} → SameContent l m → SameContent m n → SameContent l n
SameContent-trans a b = record {
  id = b.id ∙ a.id;
  conversation = b.conversation ∙ a.conversation;
  sender = b.sender ∙ a.sender;
  client_msg_id = b.client_msg_id ∙ a.client_msg_id;
  recipient = b.recipient ∙ a.recipient;
  body = b.body ∙ a.body;
  attachment = b.attachment ∙ a.attachment;
  mime = b.mime ∙ a.mime;
  created = b.created ∙ a.created;
}

pub Retains-refl : (ms : List Message) → Retains ms ms
Retains-refl ms s c m h = (m, h, SameContent-refl m)

pub Retains-trans : (ls ms ns : List Message) → Retains ls ms → Retains ms ns → Retains ls ns
Retains-trans ls ms ns f g s c m h =
    let (m', h', same) = f s c m h in
    let (n, h'', same') = g s c m' h' in (n, h'', SameContent-trans same same')

-- A message with a new key hides none.
pub Retains-cons :
    (m : Message) (ms : List Message)
    → find_row (has_client_msg_id m.sender_id m.client_msg_id) ms ≡ none
    → Retains ms (m ∷ ms)
Retains-cons m ms new s c n h = (
  n,
  ground (
    arith,
    client_msg_id-Keyed s c m n,
    find_row-none_at (has_client_msg_id m.sender_id m.client_msg_id) (has_client_msg_id s c) ms n
        new h,
    find_row_sound (has_client_msg_id s c) ms n h,
  ),
  SameContent-refl n,
)
