-- ===== src/Chat/Send.antt =====
-- app/services/chat.py: ChatService.send_message
pub mod Conversations
pub mod Writes
pub mod Outcome
pub mod Cases
pub mod Guarantees
pub mod Retry
pub mod Succeeds
mod Examples
use text.Mathlib.Text.{starts_with}
use Prim.Native.String.{◌++◌ as str_append}
use fastapi_realtime_chat_ba.Prelude.{
  ℕ, ◌+◌, String, Bool, true, false, not, ◌&&◌, Option, some, none, List, [], ◌∷◌, ltb, str_eq,
  if◌then◌else◌, rows_where,
}
use fastapi_realtime_chat_ba.Errors.{
  Result, ok, err, AppError, app_error, raised, client_error, body_exceeds,
}
use fastapi_realtime_chat_ba.Settings.{Settings}
use fastapi_realtime_chat_ba.Models.{
  Uuid, Time, Conversation, Message, MessageOut, MessageStatus, message_data, Db,
}
use fastapi_realtime_chat_ba.Externals.{
  Externals, StoredObject, HeadReply, present, absent, refused,
}
use fastapi_realtime_chat_ba.Ids.{Cursors}
use fastapi_realtime_chat_ba.Chat.Session.{
  Session, Exec, ◌>>=◌, ◌>>◌, pure, lift, fail, raise, gets, modify, commit, rollback,
  others_commit, one_or_none, one,
}
use fastapi_realtime_chat_ba.Chat.Statements.{
  is_pair, insert_message, insert_conversation, sorted_pair,
}
use fastapi_realtime_chat_ba.Chat.Common.{
  SendMessageRequest, grapheme_length, to_out, enqueue, by_client_msg_id, replay,
}

-- What one call of `send_message` meets: the clock, new identifiers, and what the other sessions
-- commit before its first write and after its rollback.
pub record SendInputs : Type 0 where
  pub now : Time
  pub staged_at : Time
  pub message_id : Uuid
  pub conversation_id : Uuid
  pub conversation_at : Time
  pub meanwhile : Db → Db
  pub after_rollback : Db → Db

-- AttachmentStorage.head
unfoldable pub head : Externals → String → Exec (Option StoredObject)
head x key = elim (x.head_object key) [
  | present o ↦ pure (some o)
  | absent ↦ pure none
  | refused ↦ fail client_error
]

abbrev pub contains : List String → String → Bool
contains [] t = false
contains (u ∷ us) t = if str_eq t u then true else contains us t

abbrev pub attachment_prefix : String → String
attachment_prefix sender_id = str_append "u/" (str_append sender_id "/")

unfoldable pub check_stored : Settings → Option StoredObject → Exec String
check_stored s none =
    raise (app_error 422 "attachment_not_found" "Upload the file before sending it")
check_stored s (some stored) =
    if ltb s.attachment_max_bytes stored.size
    then raise (app_error 413 "payload_too_large" "Attachment exceeds the size limit")
    else if not (contains s.attachment_allowed_mime stored.content_type)
    then raise (app_error 415 "unsupported_media_type" "Attachment type is not allowed")
    else pure stored.content_type

unfoldable pub check_attachment : Externals → Settings → String → String → Exec String
unfolding head check_stored
check_attachment x s sender_id key =
    if not (starts_with key (attachment_prefix sender_id))
    then raise (app_error 422 "invalid_attachment" "attachment_key was not issued to you")
    else do stored ← head x key; check_stored s stored

unfoldable pub get_or_create_conversation :
    Externals → SendInputs → String → String → Exec Conversation
get_or_create_conversation x i user_1 user_2 =
    let pair = sorted_pair user_1 user_2 in
    do
      db ← gets (λ db. db)
      db' ← lift (
          insert_conversation x
            (record {
              id = i.conversation_id;
              user_a = pair.0;
              user_b = pair.1;
              created_at = i.conversation_at;
            })
            db)
      modify (λ _. db')
      lift (one (rows_where (is_pair pair.0 pair.1) db'.conversations))

unfoldable pub new_message :
    SendInputs → String → SendMessageRequest → Conversation → Option String → Message
new_message i sender_id req conversation mime = record {
  id = i.message_id;
  conversation_id = conversation.id;
  sender_id = sender_id;
  recipient_id = req.recipient_id;
  client_msg_id = req.client_msg_id;
  body = req.body;
  attachment_key = req.attachment_key;
  attachment_mime = mime;
  status = MessageStatus.sent;
  created_at = i.now;
  delivered_at = none;
  read_at = none;
}

-- the checks before any query
unfoldable pub check_request : Externals → Settings → String → SendMessageRequest → Exec (Unit {0})
check_request x s sender_id req =
    if str_eq req.recipient_id sender_id
    then raise (app_error 422 "invalid_recipient" "You cannot message yourself")
    else elim req.body [
      | none ↦ pure tt
      | some body ↦
          if ltb s.message_max_graphemes (grapheme_length x body)
          then raise (record {
            status_code = 422;
            code = "body_too_long";
            message = body_exceeds s.message_max_graphemes;
          })
          else pure tt
    ]

unfoldable pub attachment_mime :
    Externals → Settings → String → Option String → Exec (Option String)
attachment_mime x s sender_id none = pure none
attachment_mime x s sender_id (some key) = do
  mime ← check_attachment x s sender_id key
  pure (some mime)

abbrev pub count_sent : Exec (Unit {0})
count_sent s = (ok tt, record s { messages_sent = s.messages_sent + 1 })

module _ (x : Externals) (k : Cursors) (i : SendInputs) (sender_id : String)
    (req : SendMessageRequest) where
  -- a concurrent retry with the same client_msg_id committed first
  unfoldable pub answer_from_other : Exec (MessageOut × Bool)
  answer_from_other = do
    rollback
    others_commit i.after_rollback
    existing ← by_client_msg_id sender_id req.client_msg_id
    elim existing [
      | none ↦ raise (app_error 409 "conflict" "Concurrent send, retry")
      | some m ↦ do out ← replay x k m req; pure (out, false)
    ]

  unfoldable pub announce : Message → Exec (MessageOut × Bool)
  announce message =
      let out = to_out x k message in
      do
        enqueue i.staged_at (req.recipient_id ∷ sender_id ∷ []) "message.new" (message_data out)
        commit
        count_sent
        pure (out, true)

  unfoldable pub insert_new : Option String → Conversation → Exec (MessageOut × Bool)
  insert_new mime conversation = do
    db ← gets (λ db. db)
    inserted ← lift (insert_message (new_message i sender_id req conversation mime) db)
    modify (λ _. inserted.1)
    elim inserted.0 [ none ↦ answer_from_other | some message ↦ announce message ]

  unfoldable pub insert_and_announce : Option String → Exec (MessageOut × Bool)
  insert_and_announce mime = do
    conversation ← get_or_create_conversation x i sender_id req.recipient_id
    insert_new mime conversation

  unfoldable pub send_message : Settings → Exec (MessageOut × Bool)
  send_message s = do
    check_request x s sender_id req
    existing ← by_client_msg_id sender_id req.client_msg_id
    elim existing [
      | some m ↦ do out ← replay x k m req; pure (out, false)
      | none ↦ do
        mime ← attachment_mime x s sender_id req.attachment_key
        others_commit i.meanwhile
        insert_and_announce mime
    ]
