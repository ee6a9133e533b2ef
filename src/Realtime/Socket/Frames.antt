-- ===== src/Realtime/Socket/Frames.antt =====
-- What a session answers to a frame.
use fastapi_realtime_chat_ba.Prelude.{Bool, some, ◌∷◌, ◌≡◌, ◌⊎◌}
use fastapi_realtime_chat_ba.Errors.{ok}
use fastapi_realtime_chat_ba.Models.{Uuid, Time, MessageOut}
use fastapi_realtime_chat_ba.Externals.{Externals}
use fastapi_realtime_chat_ba.Ids.{Cursors}
use fastapi_realtime_chat_ba.Chat.Session.{Session, open_session}
use fastapi_realtime_chat_ba.Chat.Receipts.{mark_delivered, mark_read, ReadResult}
use fastapi_realtime_chat_ba.Realtime.Connection.{Connection, send_nowait}
use fastapi_realtime_chat_ba.Realtime.Socket.{
  Link, lost_after, Ref, Frame, Push, Socket, Handled, socket_of, goes_on, ends, Typing,
}

-- A frame that gets no answer: a pong, one whose call of the service succeeded and is committed, a typing
-- event that was published, or one whose failure nothing catches, which ends the reader.
pub data Quiet (x : Externals) (k : Cursors) (now staged_at : Time) (s : Socket) (h : Handled)
    : Frame → Type 0 where
  kept_alive : h ≡ goes_on s → Quiet x k now staged_at s h Frame.pong
  acknowledged :
      (ref : Ref) (id : Uuid) (m : MessageOut)
      → (mark_delivered x k now staged_at s.conn.user_id id (open_session s.db)).0 ≡ ok m
      → (socket_of h).db
        ≡ (mark_delivered x k now staged_at s.conn.user_id id (open_session s.db)).1.committed
      → Quiet x k now staged_at s h (Frame.ack ref (some id))
  marked :
      (ref : Ref) (id up_to : Uuid) (r : ReadResult)
      → (mark_read x now staged_at s.conn.user_id id up_to (open_session s.db)).0 ≡ ok r
      → (socket_of h).db
        ≡ (mark_read x now staged_at s.conn.user_id id up_to (open_session s.db)).1.committed
      → Quiet x k now staged_at s h (Frame.read ref (some id) (some up_to))
  published :
      (ref : Ref) (id : Uuid) (is_typing : Bool) (e : Typing)
      → (socket_of h).published ≡ e ∷ s.published
      → e.conversation_id ≡ id
      → e.user_id ≡ s.conn.user_id
      → e.is_typing ≡ is_typing
      → (socket_of h).db ≡ s.db
      → Quiet x k now staged_at s h (Frame.typing ref (some id) is_typing)
  escaped : (frame : Frame) → h ≡ ends (socket_of h) → Quiet x k now staged_at s h frame

module _ (l : Link) (x : Externals) (k : Cursors) (now staged_at : Time) (redis_up : Bool)
    (s : Socket) where
  -- The session queues nothing, or it queues one answer, goes on and has written nothing to the
  -- database, but where the connection to it was lost after the commit.
  abbrev pub Answers : Frame → Handled → Type 0
  Answers frame h =
      (((socket_of h).conn ≡ s.conn) × Quiet x k now staged_at s h frame)
      ⊎ ((p : Push) × ((socket_of h).conn ≡ send_nowait p s.conn)
          × (h ≡ goes_on (socket_of h))
          × (((socket_of h).db ≡ s.db) ⊎ (l ≡ lost_after)))
