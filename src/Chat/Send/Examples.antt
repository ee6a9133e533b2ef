-- ===== src/Chat/Send/Examples.antt =====
-- Tests of the send, and its theorems at concrete inputs.
use fastapi_realtime_chat_ba.Prelude.{true, false, ◌≡◌, refl}
use fastapi_realtime_chat_ba.Errors.{ok}
use fastapi_realtime_chat_ba.Models.{Db, MessageOut}
use fastapi_realtime_chat_ba.Chat.Session.{open_session, commit}
use fastapi_realtime_chat_ba.Chat.Statements.{
  insert_message, insert_conversation, insert_outbox, sorted_pair, has_content, message_columns_fit,
  conversation_columns_fit, column_text,
}
use fastapi_realtime_chat_ba.Chat.Common.{
  grapheme_length, to_out, enqueue, stage, from_keys, without, by_client_msg_id, replay,
  same_request,
}
use fastapi_realtime_chat_ba.Chat.Rely.{Rely}
use fastapi_realtime_chat_ba.Chat.Send.{
  SendInputs, send_message, check_request, attachment_mime, insert_and_announce, insert_new,
  announce, answer_from_other, new_message, get_or_create_conversation,
}
use fastapi_realtime_chat_ba.Chat.Send.Outcome.{Outcome}
use fastapi_realtime_chat_ba.Chat.Send.Cases.{send_message-Outcome}
use fastapi_realtime_chat_ba.Chat.Send.Guarantees.{
  sent_db, send_result, Answered, send_message-Answered,
}
use fastapi_realtime_chat_ba.Chat.Send.Retry.{send_message-Rely, retry_replays}
use fastapi_realtime_chat_ba.Chat.Receipts.Progress.{delivered_db, receipts-Rely}
use fastapi_realtime_chat_ba.Chat.Fixture.{
  externals, cursors, settings, empty_db, empty_db-IsValid, nothing, nothing-Rely, inputs, hello,
  hello_message,
}

abbrev alone : SendInputs
alone = inputs 100 7 nothing

-- another session sends the same request meanwhile
abbrev raced : SendInputs
raced = inputs 101 8 (sent_db externals cursors alone "alice" hello settings)

raced-Rely : Rely externals raced.meanwhile
raced-Rely =
    send_message-Rely externals cursors alone "alice" hello settings nothing-Rely nothing-Rely

abbrev shown : MessageOut
shown = to_out externals cursors hello_message

-- the recipient confirms delivery
abbrev delivered : Db → Db
delivered = delivered_db externals cursors 102 102 "bob" 7

first_send : send_result externals cursors alone "alice" hello settings empty_db ≡ ok (shown, true)
unfolding send_message check_request grapheme_length by_client_msg_id replay same_request
    attachment_mime insert_and_announce insert_new announce answer_from_other new_message
    get_or_create_conversation insert_message insert_conversation insert_outbox sorted_pair
    has_content message_columns_fit conversation_columns_fit enqueue stage from_keys without commit
    to_out column_text
first_send = refl

lost_race : send_result externals cursors raced "alice" hello settings empty_db ≡ ok (shown, false)
unfolding first_send
lost_race = refl

send_message-Outcome_example :
    Outcome externals cursors raced "alice" hello empty_db
      (send_message externals cursors raced "alice" hello settings (open_session empty_db))
send_message-Outcome_example =
    send_message-Outcome externals cursors raced "alice" hello empty_db settings empty_db-IsValid
      raced-Rely nothing-Rely

send_message-Answered_example :
    Answered externals cursors "alice" hello shown
      (sent_db externals cursors raced "alice" hello settings empty_db)
send_message-Answered_example =
    send_message-Answered externals cursors raced "alice" hello settings empty_db shown false
      empty_db-IsValid raced-Rely nothing-Rely lost_race

send_message-Rely_example : Rely externals (sent_db externals cursors raced "alice" hello settings)
send_message-Rely_example =
    send_message-Rely externals cursors raced "alice" hello settings raced-Rely nothing-Rely

abbrev db : Db
db = sent_db externals cursors alone "alice" hello settings empty_db

retry_replays_example :
    (again : MessageOut) × (send_result externals cursors raced "alice" hello settings
        (delivered db)
      ≡ ok (again, false))
    × (again.id ≡ shown.id)
    × (again.body ≡ shown.body)
    × (sent_db externals cursors raced "alice" hello settings (delivered db) ≡ delivered db)
retry_replays_example =
    retry_replays externals cursors alone raced "alice" hello settings delivered empty_db shown true
      empty_db-IsValid nothing-Rely nothing-Rely
      (receipts-Rely externals cursors 102 102 "bob" 7 3).0 first_send
