-- ===== src/Chat/Statements.antt =====
-- The statements that app/services/chat.py builds, over the tables and constraints of app/models.py.
use Prim.Native.String.{count}
use text.Mathlib.Text.{is_lt}
use fastapi_realtime_chat_ba.Prelude.{
  ℕ, suc, String, Bool, true, false, not, ◌&&◌, ◌||◌, Option, some, none, ◌∷◌, leb, ltb, ◌==◌,
  str_eq, no_nul, if◌then◌else◌, rows_set, find_row,
}
use fastapi_realtime_chat_ba.Errors.{Result, ok, err, integrity_error}
use fastapi_realtime_chat_ba.Models.{Uuid, Time, Conversation, Message, Event, Db, user_topic}
use fastapi_realtime_chat_ba.Externals.{Externals}

-- The keys of the unique constraints.
abbrev pub has_client_msg_id : String → String → Message → Bool
has_client_msg_id sender_id client_msg_id m =
    str_eq m.sender_id sender_id && str_eq m.client_msg_id client_msg_id

abbrev pub has_id : Uuid → Message → Bool
has_id id m = m.id == id

abbrev pub is_pair : String → String → Conversation → Bool
is_pair user_a user_b c = str_eq c.user_a user_a && str_eq c.user_b user_b

abbrev pub is_conversation : Uuid → Conversation → Bool
is_conversation id c = c.id == id

-- What a column of texts up to `n` characters takes: PostgreSQL refuses a NUL character.
unfoldable pub column_text : ℕ → String → Bool
column_text n t = leb (count t) n && no_nul t

-- a body has no length
abbrev pub unbounded : Option String → Bool
unbounded none = true
unbounded (some t) = no_nul t

abbrev pub fits : ℕ → Option String → Bool
fits n none = true
fits n (some s) = column_text n s

abbrev pub is_some {ℓ} : {A : Type ℓ} → Option A → Bool
is_some none = false
is_some (some a) = true

-- ck_messages_has_content
unfoldable pub has_content : Message → Bool
has_content m = is_some m.body || is_some m.attachment_key

-- the text columns of `messages`
unfoldable pub message_columns_fit : Message → Bool
message_columns_fit m =
    column_text 64 m.sender_id
    && column_text 64 m.recipient_id
    && column_text 64 m.client_msg_id
    && unbounded m.body
    && fits 512 m.attachment_key
    && fits 100 m.attachment_mime

-- the text columns of `conversations`
unfoldable pub conversation_columns_fit : Conversation → Bool
conversation_columns_fit c = column_text 64 c.user_a && column_text 64 c.user_b

-- INSERT … ON CONFLICT ON CONSTRAINT uq_messages_sender_client_msg DO NOTHING RETURNING
unfoldable pub insert_message : Message → Db → Result (Option Message × Db)
insert_message m db =
    if not (message_columns_fit m && has_content m)
    then err integrity_error
    else if is_some (find_row (has_client_msg_id m.sender_id m.client_msg_id) db.messages)
    then ok (none, db)
    else if is_some (find_row (has_id m.id) db.messages)
    then err integrity_error
    else ok (some m, record db { messages = m ∷ db.messages })

-- INSERT … ON CONFLICT ON CONSTRAINT uq_conversations_pair DO NOTHING, under
-- ck_conversations_sorted_pair
unfoldable pub insert_conversation : Externals → Conversation → Db → Result Db
insert_conversation x c db =
    if not (conversation_columns_fit c && x.text_lt c.user_a c.user_b)
    then err integrity_error
    else if is_some (find_row (is_pair c.user_a c.user_b) db.conversations)
    then ok db
    else if is_some (find_row (is_conversation c.id) db.conversations)
    then err integrity_error
    else ok (record db { conversations = c ∷ db.conversations })

-- INSERT INTO outbox, with the next identity
unfoldable pub insert_outbox : Time → Event → Db → String → Db
insert_outbox now event db user_id = record db {
  outbox =
      record {
        id = db.next_outbox_id;
        topic = user_topic user_id;
        payload = event;
        created_at = now;
        published_at = none;
      }
      ∷ db.outbox;
  next_outbox_id = suc db.next_outbox_id;
}

-- sorted((user_1, user_2)), by code points
abbrev pub str_ltb : String → String → Bool
str_ltb s t = is_lt (Prim.Native.String.compare s t)

unfoldable pub sorted_pair : String → String → String × String
sorted_pair user_1 user_2 = if str_ltb user_2 user_1 then (user_2, user_1) else (user_1, user_2)

-- UPDATE messages SET f WHERE p
abbrev pub update_messages : (Message → Bool) → (Message → Message) → Db → Db
update_messages p f db = record db { messages = rows_set p f db.messages }

-- The order of (created_at, id), which is the order of pages and of read receipts.
abbrev pub key_le : Time → Uuid → Time → Uuid → Bool
key_le t i u j = ltb t u || ((t == u) && leb i j)

abbrev pub key_lt : Time → Uuid → Time → Uuid → Bool
key_lt t i u j = ltb t u || ((t == u) && ltb i j)
