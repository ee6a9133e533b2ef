-- ===== src/Chat/Inbox/Examples.antt =====
-- The conversation list of one conversation with one message.
use mathlib.Core.List.{Perm}
use fastapi_realtime_chat_ba.Prelude.{List, map, ◌≡◌, refl, All, take, rows_where}
use fastapi_realtime_chat_ba.Errors.{ok}
use fastapi_realtime_chat_ba.Chat.Session.{open_session}
use fastapi_realtime_chat_ba.Chat.Common.{in_conversation}
use fastapi_realtime_chat_ba.Chat.Fixture.{externals, cursors, hello_db}
use fastapi_realtime_chat_ba.Chat.Inbox.{Row, row_of, conversation_out, list_conversations}
use fastapi_realtime_chat_ba.Chat.Inbox.Items.{Accurate, Newest, list_conversations_items}

list_conversations_items_example :
    (rows : List Row) × (list_conversations externals cursors "bob" 50 (open_session hello_db)
      ≡ (ok (map (conversation_out externals cursors "bob") (take 50 rows)), open_session hello_db))
    × Perm rows
        (map (row_of "bob" hello_db) (rows_where (in_conversation "bob") hello_db.conversations))
    × Newest rows
    × All (Accurate "bob" hello_db) rows
list_conversations_items_example =
    list_conversations_items externals cursors "bob" 50 hello_db (refl, tt)
