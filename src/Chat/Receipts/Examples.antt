-- ===== src/Chat/Receipts/Examples.antt =====
-- Tests of the receipts, and their theorems at concrete inputs.
use fastapi_realtime_chat_ba.Prelude.{true, some, [], ◌∷◌, ◌≡◌, refl, find_row}
use fastapi_realtime_chat_ba.Errors.{ok}
use fastapi_realtime_chat_ba.Models.{Conversation, Message, Db}
use fastapi_realtime_chat_ba.Chat.Session.{open_session, commit}
use fastapi_realtime_chat_ba.Chat.Statements.{has_id, is_conversation, insert_outbox}
use fastapi_realtime_chat_ba.Chat.Common.{
  to_out, enqueue, stage, from_keys, without, get_conversation, in_conversation,
}
use fastapi_realtime_chat_ba.Chat.Rely.{Rely}
use fastapi_realtime_chat_ba.Chat.Receipts.{
  ReadResult, awaits_delivery, deliver, not_delivered, announce_delivered, update_delivered,
  mark_delivered, is_unread_up_to, set_read, get_anchor, announce_read, read_up_to, mark_read,
}
use fastapi_realtime_chat_ba.Chat.Receipts.Delivered.{DeliveryOutcome, mark_delivered-Outcome}
use fastapi_realtime_chat_ba.Chat.Receipts.Read.{ReadOutcome, mark_read-Outcome}
use fastapi_realtime_chat_ba.Chat.Receipts.Advances.{Forward}
use fastapi_realtime_chat_ba.Chat.Receipts.Progress.{
  delivered_db, read_db, receipts_advance, receipts-Rely,
}
use fastapi_realtime_chat_ba.Chat.Receipts.Settled.{mark_read_twice, nothing_read}
use fastapi_realtime_chat_ba.Chat.Receipts.Marked.{Marked, mark_read-Marked}
use fastapi_realtime_chat_ba.Chat.Fixture.{
  externals, cursors, hello_message, hello_db, hello_db-IsValid,
}

abbrev read_one : ReadResult
read_one = record { conversation_id = 3; message_ids = 7 ∷ []; read_at = some 102 }

reads_it : (mark_read externals 102 102 "bob" 3 7 (open_session hello_db)).0 ≡ ok read_one
unfolding mark_read get_conversation in_conversation get_anchor read_up_to announce_read
    is_unread_up_to set_read enqueue stage from_keys without insert_outbox commit
reads_it = refl

confirms_it :
    (mark_delivered externals cursors 102 102 "bob" 7 (open_session hello_db)).0
    ≡ ok (to_out externals cursors (deliver 102 hello_message))
unfolding mark_delivered update_delivered awaits_delivery not_delivered announce_delivered enqueue
    stage from_keys without insert_outbox commit
confirms_it = refl

mark_delivered-Outcome_example :
    DeliveryOutcome externals cursors 102 102 "bob" 7 hello_db
      (mark_delivered externals cursors 102 102 "bob" 7 (open_session hello_db))
mark_delivered-Outcome_example =
    mark_delivered-Outcome externals cursors 102 102 "bob" 7 hello_db hello_db-IsValid

mark_read-Outcome_example :
    ReadOutcome externals 102 102 "bob" 3 7 hello_db
      (mark_read externals 102 102 "bob" 3 7 (open_session hello_db))
mark_read-Outcome_example = mark_read-Outcome externals 102 102 "bob" 3 7 hello_db

receipts_advance_example :
    Forward
      (has_id 7)
      hello_db.messages
      (delivered_db externals cursors 102 102 "bob" 7 hello_db).messages
    × Forward (has_id 7) hello_db.messages (read_db externals 102 102 "bob" 3 7 hello_db).messages
receipts_advance_example =
    receipts_advance externals cursors 102 102 "bob" 7 3 7 hello_db hello_db-IsValid

receipts-Rely_example :
    Rely externals (delivered_db externals cursors 102 102 "bob" 7)
    × Rely externals (read_db externals 102 102 "bob" 3 7)
receipts-Rely_example = receipts-Rely externals cursors 102 102 "bob" 7 3

-- the message to bob, and the anchor
mark_read-Marked_example :
    (conversation : Conversation) × (anchor : Message) × (n : Message) × (find_row
        (is_conversation 3)
        hello_db.conversations
      ≡ some conversation)
    × (in_conversation "bob" conversation ≡ true)
    × (find_row (has_id 7) hello_db.messages ≡ some anchor)
    × (anchor.conversation_id ≡ 3)
    × (find_row (has_id 7) (read_db externals 102 102 "bob" 3 7 hello_db).messages ≡ some n)
    × Marked 3 "bob" 102 anchor hello_message n
mark_read-Marked_example =
    mark_read-Marked externals 102 102 "bob" 3 7 hello_db read_one 7 hello_message reads_it refl

abbrev later_db : Db
later_db = read_db externals 102 102 "bob" 3 7 hello_db

mark_read_twice_example :
    ((mark_read externals 105 105 "bob" 3 7 (open_session later_db)).0 ≡ ok (nothing_read 3))
    × (read_db externals 105 105 "bob" 3 7 later_db ≡ later_db)
mark_read_twice_example =
    mark_read_twice externals 102 102 105 105 "bob" 3 7 hello_db read_one reads_it
