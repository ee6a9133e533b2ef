-- ===== src/Chat/Send/Outcome.antt =====
-- The three ends of a send, whatever other sessions commit meanwhile.
use fastapi_realtime_chat_ba.Prelude.{
  ℕ, suc, String, Bool, true, false, Option, some, none, List, ◌∷◌, ◌≡◌, ◌⊎◌, find_row,
}
use fastapi_realtime_chat_ba.Errors.{Result, ok, err, Failure}
use fastapi_realtime_chat_ba.Models.{
  Time, Conversation, Message, MessageOut, Outbox, Event, Db, make_event, message_data, user_topic,
}
use fastapi_realtime_chat_ba.Externals.{Externals}
use fastapi_realtime_chat_ba.Ids.{Cursors}
use fastapi_realtime_chat_ba.Chat.Session.{Session}
use fastapi_realtime_chat_ba.Chat.Statements.{has_client_msg_id}
use fastapi_realtime_chat_ba.Chat.Common.{SendMessageRequest, to_out, same_request}
use fastapi_realtime_chat_ba.Chat.Valid.{IsValid}
use fastapi_realtime_chat_ba.Chat.Send.{SendInputs, new_message}

abbrev pub request_key : String → SendMessageRequest → Message → Bool
request_key sender_id req = has_client_msg_id sender_id req.client_msg_id

-- The outbox with one event more for each of two users.
abbrev pub with_events : ℕ → Time → Event → String → String → List Outbox → List Outbox
with_events n now event first second rows =
    record {
      id = suc n;
      topic = user_topic second;
      payload = event;
      created_at = now;
      published_at = none;
    }
    ∷ record {
      id = n;
      topic = user_topic first;
      payload = event;
      created_at = now;
      published_at = none;
    }
    ∷ rows

module _ (x : Externals) (k : Cursors) (i : SendInputs) (sender_id : String)
    (req : SendMessageRequest) (d : Db) where
  -- The database is what the other sessions have made of it.
  abbrev pub Untouched : Db → Type 0
  Untouched d' = (d' ≡ d) ⊎ (d' ≡ i.meanwhile d) ⊎ (d' ≡ i.after_rollback (i.meanwhile d))

  pub record Created (m : Message) (d' : Db) : Type 0 where
    pub conversation : Conversation
    pub mime : Option String
    pub as_requested : m ≡ new_message i sender_id req conversation mime
    pub was_new : find_row (request_key sender_id req) (i.meanwhile d).messages ≡ none
    pub messages : d'.messages ≡ m ∷ (i.meanwhile d).messages
    pub outbox :
        d'.outbox
        ≡ with_events
            (i.meanwhile d).next_outbox_id
            i.staged_at
            (make_event "message.new" (message_data (to_out x k m)))
            req.recipient_id
            sender_id
            (i.meanwhile d).outbox
    pub valid : IsValid x d'

  pub data Outcome (r : Result (MessageOut × Bool) × Session) : Type 0 where
    refused : (e : Failure) → r.0 ≡ err e → Untouched r.1.committed → r.1.notified ≡ 0 → Outcome r
    replayed :
        (m : Message)
        → r.0 ≡ ok (to_out x k m, false)
        → find_row (request_key sender_id req) r.1.committed.messages ≡ some m
        → same_request m req ≡ true
        → Untouched r.1.committed
        → r.1.notified ≡ 0
        → Outcome r
    created :
        (m : Message)
        → r.0 ≡ ok (to_out x k m, true)
        → Created m r.1.committed
        → r.1.notified ≡ 1
        → Outcome r
