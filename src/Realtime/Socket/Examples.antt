-- ===== src/Realtime/Socket/Examples.antt =====
-- A frame that acknowledges a message, over a connection that is lost after the commit.

use fastapi_realtime_chat_ba.Prelude.{[]}
use fastapi_realtime_chat_ba.Chat.Fixture.{hello_db}
use fastapi_realtime_chat_ba.Realtime.Connection.Delivery.{new_connection}
use fastapi_realtime_chat_ba.Realtime.Socket.{Socket}

abbrev socket : Socket
socket = record {
  conn = new_connection "bob" 1;
  peers = [];
  last_seen = 0;
  published = [];
  db = hello_db;
}
