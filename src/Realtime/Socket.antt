-- ===== src/Realtime/Socket.antt =====
-- app/api/ws.py, SocketSession: what a client's frame does, and the heartbeat.
pub mod Frames
mod Examples
use fastapi_realtime_chat_ba.Prelude.{
  ℕ, ◌-◌, String, Bool, true, false, Option, some, none, List, [], ◌∷◌, ltb, ◌==◌, if◌then◌else◌,
}
use fastapi_realtime_chat_ba.Errors.{
  ErrorText, says, AppError, Failure, raised, integrity_error, wrong_row_count, client_error,
  unexpected, index_error, invalid, redis_error, operational_error, Result, ok, err,
}
use fastapi_realtime_chat_ba.Models.{Uuid, Time, Conversation, peer_of, Db}
use fastapi_realtime_chat_ba.Externals.{Externals}
use fastapi_realtime_chat_ba.Ids.{Cursors}
use fastapi_realtime_chat_ba.Chat.Session.{Session, open_session}
use fastapi_realtime_chat_ba.Chat.Common.{get_conversation}
use fastapi_realtime_chat_ba.Chat.Receipts.{mark_delivered, mark_read}
use fastapi_realtime_chat_ba.Realtime.Connection.{Connection, send_nowait, close}

-- A client's `ref`, which a reply gives back; `none` where the frame has none.
abbrev pub Ref : Type 0
Ref = Option String

-- A frame. A UUID is `none` where its field is missing or no UUID, which the code meets as KeyError
-- or ValueError. `garbled` is no JSON object.
pub data Frame : Type 0 where
  garbled : Frame
  ping : Ref → Frame
  pong : Frame
  ack : Ref → Option Uuid → Frame
  read : Ref → Option Uuid → Option Uuid → Frame
  typing : Ref → Option Uuid → Bool → Frame
  unknown : Ref → String → Frame

-- What a session queues for its own client.
pub data Push : Type 0 where
  pong_push : Ref → Push
  ping_push : Time → Push
  error_push : String → ErrorText → Ref → Push
  unsupported_push : String → Ref → Push

-- A `typing` event for the peer, which goes to Redis and not through the outbox.
pub record Typing : Type 0 where
  pub to : String
  pub conversation_id : Uuid
  pub user_id : String
  pub is_typing : Bool

pub record Socket : Type 0 where
  pub conn : Connection Push
  pub peers : List (Uuid × String)
  pub last_seen : ℕ
  -- what the session has published to Redis, the latest first
  pub published : List Typing
  pub db : Db

abbrev pub push : Push → Socket → Socket
push p s = record s { conn = send_nowait p s.conn }

-- The `except` branches of `_guard`. `none`: none of them catches the failure.
unfoldable pub caught : Ref → Failure → Option Push
caught ref (raised e) = some (error_push e.code e.message ref)
caught ref integrity_error =
    some (error_push "service_unavailable" (says "Temporarily unavailable, retry") ref)
caught ref wrong_row_count =
    some (error_push "service_unavailable" (says "Temporarily unavailable, retry") ref)
caught ref client_error = none
caught ref unexpected = none
caught ref (invalid errors) = none
caught ref index_error = none
caught ref redis_error =
    some (error_push "service_unavailable" (says "Temporarily unavailable, retry") ref)
caught ref operational_error =
    some (error_push "service_unavailable" (says "Temporarily unavailable, retry") ref)

abbrev pub bad_fields : Ref → Push
bad_fields ref = error_push "bad_event" (says "Missing or invalid fields") ref

-- After a frame the reader goes on, or it ends with a failure that nothing caught.
pub data Handled : Type 0 where
  goes_on : Socket → Handled
  ends : Socket → Handled

abbrev pub socket_of : Handled → Socket
socket_of (goes_on s) = s
socket_of (ends s) = s

abbrev pub report : Socket → Option Push → Handled
report s none = ends s
report s (some p) = goes_on (push p s)

-- `_guard` around one call of the service, in a session of its own, and what follows it
unfoldable pub guard {ℓ} :
    {A : Type ℓ} → Ref → Result A × Session → (A → Socket → Handled) → Socket → Handled
guard ref (ok a, t) next s = next a (record s { db = t.committed })
guard ref (err f, t) next s = report (record s { db = t.committed }) (caught ref f)

-- The connection to the database during one call of the service: it stays, or it is lost before the
-- commit takes effect, or after that.
pub data Link : Type 0 where
  stays : Link
  lost_before : Link
  lost_after : Link

abbrev pub over {ℓ} : {A : Type ℓ} → Link → Db → Result A × Session → Result A × Session
over stays d r = r
over lost_before d r = (err operational_error, open_session d)
over lost_after d (a, t) = (err operational_error, t)

abbrev pub peer_at : Uuid → List (Uuid × String) → Option String
peer_at i [] = none
peer_at i (p ∷ ps) = if i == p.0 then some p.1 else peer_at i ps

-- `hub.publish`, with Redis there or not
unfoldable pub publish_typing : Bool → Ref → Uuid → Bool → String → Socket → Handled
publish_typing redis_up ref id is_typing peer s =
    if redis_up
    then goes_on (record s {
      published =
          record {
            to = peer;
            conversation_id = id;
            user_id = s.conn.user_id;
            is_typing = is_typing;
          }
          ∷ s.published;
    })
    else report s (caught ref redis_error)

-- the first `typing` of a conversation: the peer is looked up and remembered
unfoldable pub first_typing : Bool → Ref → Uuid → Bool → Conversation → Socket → Handled
first_typing redis_up ref id is_typing c s =
    let peer = peer_of c s.conn.user_id in
    publish_typing redis_up ref id is_typing peer (record s { peers = (id, peer) ∷ s.peers })

abbrev pub finish {ℓ} : {A : Type ℓ} → A → Socket → Handled
finish a s = goes_on s

unfoldable pub on_ack :
    Link → Externals → Cursors → Time → Time → Ref → Option Uuid → Socket → Handled
on_ack l x k now staged_at ref none s = goes_on (push (bad_fields ref) s)
on_ack l x k now staged_at ref (some id) s =
    guard ref (over l s.db (mark_delivered x k now staged_at s.conn.user_id id (open_session s.db)))
      finish s

unfoldable pub on_read :
    Link → Externals → Time → Time → Ref → Option Uuid → Option Uuid → Socket → Handled
on_read l x now staged_at ref none up_to s = goes_on (push (bad_fields ref) s)
on_read l x now staged_at ref (some id) none s = goes_on (push (bad_fields ref) s)
on_read l x now staged_at ref (some id) (some up_to) s =
    guard ref (over l s.db (mark_read x now staged_at s.conn.user_id id up_to (open_session s.db)))
      finish s

unfoldable pub typing_to : Link → Bool → Ref → Uuid → Bool → Option String → Socket → Handled
typing_to l redis_up ref id is_typing (some peer) s =
    publish_typing redis_up ref id is_typing peer s
typing_to l redis_up ref id is_typing none s =
    guard ref (over l s.db (get_conversation s.conn.user_id id (open_session s.db)))
      (first_typing redis_up ref id is_typing) s

unfoldable pub on_typing : Link → Bool → Ref → Option Uuid → Bool → Socket → Handled
on_typing l redis_up ref none is_typing s = goes_on (push (bad_fields ref) s)
on_typing l redis_up ref (some id) is_typing s =
    typing_to l redis_up ref id is_typing (peer_at id s.peers) s

-- `_handle`, and the branch of `_reader` for what is no JSON object
unfoldable pub handle : Link → Externals → Cursors → Time → Time → Bool → Frame → Socket → Handled
handle l x k now staged_at redis_up garbled s =
    goes_on (push (error_push "bad_event" (says "Events must be JSON objects") none) s)
handle l x k now staged_at redis_up (ping ref) s = goes_on (push (pong_push ref) s)
handle l x k now staged_at redis_up pong s = goes_on s
handle l x k now staged_at redis_up (ack ref id) s = on_ack l x k now staged_at ref id s
handle l x k now staged_at redis_up (read ref id up_to) s = on_read l x now staged_at ref id up_to s
handle l x k now staged_at redis_up (typing ref id is_typing) s =
    on_typing l redis_up ref id is_typing s
handle l x k now staged_at redis_up (unknown ref kind) s =
    goes_on (push (unsupported_push kind ref) s)

-- one turn of `_reader`, for a frame that arrives at `at`
unfoldable pub read_frame :
    Link → Externals → Cursors → ℕ → Time → Time → Bool → Frame → Socket → Handled
read_frame l x k at now staged_at redis_up frame s =
    handle l x k now staged_at redis_up frame (record s { last_seen = at })

-- One turn of `_heartbeat`, after its sleep: times in milliseconds, `wall` is time.time().
unfoldable pub heartbeat : ℕ → ℕ → Time → Socket → Socket
heartbeat idle_timeout at wall s =
    if ltb idle_timeout (at - s.last_seen)
    then record s { conn = close 4408 "idle timeout" s.conn }
    else push (ping_push wall) s
