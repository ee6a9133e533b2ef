-- ===== src/Chat/Send/Guarantees.antt =====
-- What a client of `send_message` may count on.
use fastapi_realtime_chat_ba.Prelude.{
  String, Bool, true, some, ◌≡◌, refl, ap, arith, inl, inr, find_row, count_where,
  rows_where_unique, eq_iff, opt_eq_iff,
}
use fastapi_realtime_chat_ba.Errors.{Result, ok}
use fastapi_realtime_chat_ba.Settings.{Settings}
use fastapi_realtime_chat_ba.Models.{Message, MessageOut, Db}
use fastapi_realtime_chat_ba.Externals.{Externals}
use fastapi_realtime_chat_ba.Ids.{Cursors}
use fastapi_realtime_chat_ba.Chat.Session.{Session, open_session}
use fastapi_realtime_chat_ba.Chat.Statements.{has_client_msg_id}
use fastapi_realtime_chat_ba.Chat.Common.{SendMessageRequest, to_out, same_request}
use fastapi_realtime_chat_ba.Chat.Valid.{IsValid, same_client_msg_id, client_msg_id-Keyed}
use fastapi_realtime_chat_ba.Chat.Rely.{Rely}
use fastapi_realtime_chat_ba.Chat.Send.{SendInputs, new_message, send_message}
use fastapi_realtime_chat_ba.Chat.Send.Outcome.{
  request_key, Untouched, Created, Outcome, refused, replayed, created,
}
use fastapi_realtime_chat_ba.Chat.Send.Cases.{send_message-Outcome}

-- The database after the call, as all sessions see it.
abbrev pub sent_db :
    Externals → Cursors → SendInputs → String → SendMessageRequest → Settings → Db → Db
sent_db x k i sender_id req st d =
    (send_message x k i sender_id req st (open_session d)).1.committed

abbrev pub send_result :
    Externals
    → Cursors
    → SendInputs
    → String
    → SendMessageRequest
    → Settings
    → Db
    → Result (MessageOut × Bool)
send_result x k i sender_id req st d = (send_message x k i sender_id req st (open_session d)).0

-- The stored message that a reply shows.
pub record Answered (x : Externals) (k : Cursors) (sender_id : String) (req : SendMessageRequest)
    (out : MessageOut) (d : Db) : Type 0 where
  pub message : Message
  pub shown : out ≡ to_out x k message
  pub stored : find_row (request_key sender_id req) d.messages ≡ some message
  pub same : same_request message req ≡ true
  pub recipient : message.recipient_id ≡ req.recipient_id
  pub body : message.body ≡ req.body
  pub attachment : message.attachment_key ≡ req.attachment_key
  pub only : count_where (request_key sender_id req) d.messages ≡ 1

count_found :
    (x : Externals) (s c : String) (d : Db) (m : Message)
    → IsValid x d
    → find_row (has_client_msg_id s c) d.messages ≡ some m
    → count_where (has_client_msg_id s c) d.messages ≡ 1
count_found x s c d m v found =
    elim (rows_where_unique same_client_msg_id (has_client_msg_id s c) d.messages
      (client_msg_id-Keyed s c) v.client_msg_ids) [
        | inl (missing, _) ↦ cc
        | inr (n, _, only) ↦ rw only refl
      ]

same_request_new :
    (req : SendMessageRequest) (m : Message)
    → m.recipient_id ≡ req.recipient_id
    → m.body ≡ req.body
    → m.attachment_key ≡ req.attachment_key
    → same_request m req ≡ true
unfolding same_request
same_request_new req m a b c = ground (
  arith,
  eq_iff m.recipient_id req.recipient_id,
  opt_eq_iff m.body req.body,
  opt_eq_iff m.attachment_key req.attachment_key,
)

same_request_parts :
    (req : SendMessageRequest) (m : Message)
    → same_request m req ≡ true
    → (m.recipient_id ≡ req.recipient_id)
      × (m.body ≡ req.body)
      × (m.attachment_key ≡ req.attachment_key)
unfolding same_request
same_request_parts req m h = (
  ground (arith, eq_iff m.recipient_id req.recipient_id),
  ground (arith, opt_eq_iff m.body req.body),
  ground (arith, opt_eq_iff m.attachment_key req.attachment_key),
)

module _ (x : Externals) (k : Cursors) (i : SendInputs) (sender_id : String)
    (req : SendMessageRequest) (st : Settings) (d : Db) where
  Untouched-IsValid :
      IsValid x d
      → Rely x i.meanwhile
      → Rely x i.after_rollback
      → (d' : Db) → Untouched x k i sender_id req d d'
      → IsValid x d'
  Untouched-IsValid v f g d' (inl e) = rw e v
  Untouched-IsValid v f g d' (inr (inl e)) = rw e (f.keeps d v)
  Untouched-IsValid v f g d' (inr (inr e)) = rw e (g.keeps (i.meanwhile d) (f.keeps d v))

  Outcome-IsValid :
      (r : Result (MessageOut × Bool) × Session)
      → IsValid x d
      → Rely x i.meanwhile
      → Rely x i.after_rollback
      → Outcome x k i sender_id req d r
      → IsValid x r.1.committed
  Outcome-IsValid r v f g (refused e _ u _) = Untouched-IsValid v f g r.1.committed u
  Outcome-IsValid r v f g (replayed m _ _ _ u _) = Untouched-IsValid v f g r.1.committed u
  Outcome-IsValid r v f g (created m _ c _) = c.valid

  pub send_message-IsValid :
      IsValid x d
      → Rely x i.meanwhile
      → Rely x i.after_rollback
      → IsValid x (sent_db x k i sender_id req st d)
  send_message-IsValid v f g =
      Outcome-IsValid (send_message x k i sender_id req st (open_session d)) v f g
        (send_message-Outcome x k i sender_id req d st v f g)

  Created-found :
      (d' : Db) (m : Message)
      → Created x k i sender_id req d m d'
      → find_row (request_key sender_id req) d'.messages ≡ some m
  unfolding new_message
  Created-found d' m c = rw c.messages (
      ground (
        arith,
        eq_iff m.sender_id sender_id,
        eq_iff m.client_msg_id req.client_msg_id,
        ap (λ (z : Message). z.sender_id) c.as_requested,
        ap (λ (z : Message). z.client_msg_id) c.as_requested,
      ))

  found-Answered :
      (d' : Db) (out : MessageOut) (m : Message)
      → IsValid x d'
      → out ≡ to_out x k m
      → find_row (request_key sender_id req) d'.messages ≡ some m
      → same_request m req ≡ true
      → Answered x k sender_id req out d'
  found-Answered d' out m v shown found same =
      let parts = same_request_parts req m same in
      record {
        message = m;
        shown = shown;
        stored = found;
        same = same;
        recipient = parts.0;
        body = parts.1;
        attachment = parts.2;
        only = count_found x sender_id req.client_msg_id d' m v found;
      }

  Outcome-Answered :
      (r : Result (MessageOut × Bool) × Session) (out : MessageOut) (new : Bool)
      → IsValid x r.1.committed
      → Outcome x k i sender_id req d r
      → r.0 ≡ ok (out, new)
      → Answered x k sender_id req out r.1.committed
  unfolding new_message
  Outcome-Answered r out new v (refused e bad _ _) h = cc
  Outcome-Answered r out new v (replayed m good found same _ _) h =
      found-Answered r.1.committed out m v (cc) found same
  Outcome-Answered r out new v (created m good c _) h =
      found-Answered r.1.committed out m v (cc) (Created-found r.1.committed m c) (
        same_request_new req m (ap (λ z. z.recipient_id) c.as_requested)
          (ap (λ z. z.body) c.as_requested) (ap (λ z. z.attachment_key) c.as_requested))

  -- A send that answers has stored the message that it shows, with the recipient, the body and the
  -- attachment of the request, and it is the only message of its sender with its client_msg_id:
  -- also when other sessions send the same request at the same time.
  pub send_message-Answered :
      (out : MessageOut) (new : Bool)
      → IsValid x d
      → Rely x i.meanwhile
      → Rely x i.after_rollback
      → send_result x k i sender_id req st d ≡ ok (out, new)
      → Answered x k sender_id req out (sent_db x k i sender_id req st d)
  send_message-Answered out new v f g h =
      Outcome-Answered (send_message x k i sender_id req st (open_session d)) out new
        (send_message-IsValid v f g) (send_message-Outcome x k i sender_id req d st v f g) h
