-- ===== src/Api/Posted.antt =====
-- POST /v1/messages: a valid message is created, and a retry is answered with it.
use fastapi_realtime_chat_ba.Prelude.{String, Option}
use fastapi_realtime_chat_ba.Settings.{Settings}
use fastapi_realtime_chat_ba.Models.{MessageOut, Db}
use fastapi_realtime_chat_ba.Externals.{Externals}
use fastapi_realtime_chat_ba.Ids.{Cursors}
use fastapi_realtime_chat_ba.Chat.Session.{Session, open_session}
use fastapi_realtime_chat_ba.Chat.Common.{SendMessageRequest}
use fastapi_realtime_chat_ba.Chat.Rely.{Rely}
use fastapi_realtime_chat_ba.Chat.Send.{SendInputs}
use fastapi_realtime_chat_ba.Api.{Reply, reply_of, HttpRequest, post_message}

module _ (x : Externals) (k : Cursors) (st : Settings) (request_id : Option String) where
  -- the response to a request, and the database after it
  abbrev pub post_reply : HttpRequest → SendInputs → SendMessageRequest → Db → Reply MessageOut
  post_reply r i payload d =
      reply_of request_id (post_message x k st r i payload (open_session d)).0

  abbrev pub posted_db : HttpRequest → SendInputs → SendMessageRequest → Db → Db
  posted_db r i payload d = (post_message x k st r i payload (open_session d)).1.committed
