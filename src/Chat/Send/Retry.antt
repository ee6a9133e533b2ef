-- ===== src/Chat/Send/Retry.antt =====
-- Sends beside other sends, and a send after itself.
use fastapi_realtime_chat_ba.Prelude.{
  String, Bool, true, false, some, ◌∷◌, ◌≡◌, refl, ap, arith, inl, inr, find_row, Bool-cases,
  if◌then◌else◌,
}
use fastapi_realtime_chat_ba.Errors.{Result, ok, err, raised}
use fastapi_realtime_chat_ba.Settings.{Settings}
use fastapi_realtime_chat_ba.Models.{Message, MessageOut, Db}
use fastapi_realtime_chat_ba.Externals.{Externals}
use fastapi_realtime_chat_ba.Ids.{Cursors}
use fastapi_realtime_chat_ba.Chat.Session.{Session, open_session}
use fastapi_realtime_chat_ba.Chat.Common.{
  SendMessageRequest, to_out, same_request, replay, idempotency_conflict,
}
use fastapi_realtime_chat_ba.Chat.Valid.{IsValid}
use fastapi_realtime_chat_ba.Chat.Rely.{
  Rely, Retains, SameContent, Retains-refl, Retains-trans, Retains-cons,
}
use fastapi_realtime_chat_ba.Chat.Lookup.{continue_cases, by_client_msg_id_lem}
use fastapi_realtime_chat_ba.Chat.Send.{SendInputs, new_message, send_message, check_request}
use fastapi_realtime_chat_ba.Chat.Send.Outcome.{
  request_key, Untouched, Outcome, refused, replayed, created,
}
use fastapi_realtime_chat_ba.Chat.Send.Cases.{send_message-Outcome}
use fastapi_realtime_chat_ba.Chat.Send.Guarantees.{
  sent_db, send_result, send_message-IsValid, send_message-Answered,
}

-- The answer to a message that is there already.
abbrev pub answer : Externals → Cursors → Message → SendMessageRequest → Result (MessageOut × Bool)
answer x k m req =
    if same_request m req then ok (to_out x k m, false) else err (raised idempotency_conflict)

module _ (x : Externals) (k : Cursors) (i : SendInputs) (sender_id : String)
    (req : SendMessageRequest) (st : Settings) where
  check_passed :
      (s t : Session) (r : MessageOut × Bool)
      → (send_message x k i sender_id req st s).0 ≡ ok r
      → check_request x st sender_id req t ≡ (ok tt, t)
  unfolding send_message check_request
  check_passed s t r h = ground arith

  -- With a message of this key in the database and a request that passes its checks nothing is written:
  -- the same request is answered with that message, and another one with the conflict.
  existing_answer :
      (d : Db) (m : Message)
      → IsValid x d
      → check_request x st sender_id req (open_session d) ≡ (ok tt, open_session d)
      → find_row (request_key sender_id req) d.messages ≡ some m
      → (send_result x k i sender_id req st d ≡ answer x k m req)
        × (sent_db x k i sender_id req st d ≡ d)
  unfolding send_message replay
  existing_answer d m v checked found =
      let s = open_session d in
      continue_cases (λ r. (r.0 ≡ answer x k m req) × (r.1.committed ≡ d)) _
        (check_request x st sender_id req s).0 s (check_request x st sender_id req s).1
        (ap (λ r. r.1) checked) (λ e h. cc (ap (λ r. r.0) checked))
        (λ u h.
          rw (by_client_msg_id_lem sender_id req.client_msg_id s v.client_msg_ids, found)
            (elim (Bool-cases (same_request m req)) [
              | inl e ↦ rw e (refl, refl)
              | inr e ↦ rw e (refl, refl)
            ]))

  module _ (meanwhile : Rely x i.meanwhile) (after : Rely x i.after_rollback) (d : Db)
      (v : IsValid x d) where
    Untouched-Retains :
        (d' : Db) → Untouched x k i sender_id req d d' → Retains d.messages d'.messages
    Untouched-Retains d' (inl e) = rw e (Retains-refl d.messages)
    Untouched-Retains d' (inr (inl e)) = rw e (meanwhile.retains d v)
    Untouched-Retains d' (inr (inr e)) = rw e (
        Retains-trans d.messages (i.meanwhile d).messages
          (i.after_rollback (i.meanwhile d)).messages (meanwhile.retains d v)
          (after.retains (i.meanwhile d) (meanwhile.keeps d v)))

    Outcome-Retains :
        (r : Result (MessageOut × Bool) × Session)
        → Outcome x k i sender_id req d r
        → Retains d.messages r.1.committed.messages
    unfolding new_message
    Outcome-Retains r (refused _ _ u _) = Untouched-Retains r.1.committed u
    Outcome-Retains r (replayed _ _ _ _ u _) = Untouched-Retains r.1.committed u
    Outcome-Retains r (created m _ c _) = rw c.messages (
        Retains-trans d.messages (i.meanwhile d).messages (m ∷ (i.meanwhile d).messages)
          (meanwhile.retains d v)
          (Retains-cons m (i.meanwhile d).messages (rw c.as_requested c.was_new)))

  -- What a send relies on of the other sessions, it grants them: it keeps the invariant, deletes no
  -- message and changes none but in its receipts, the status, delivered_at and read_at. So sends may run
  -- beside one another.
  pub send_message-Rely :
      Rely x i.meanwhile → Rely x i.after_rollback → Rely x (sent_db x k i sender_id req st)
  send_message-Rely meanwhile after = record {
    keeps = λ d v. send_message-IsValid x k i sender_id req st d v meanwhile after;
    retains = λ d v.
        Outcome-Retains meanwhile after d v (send_message x k i sender_id req st (open_session d))
          (send_message-Outcome x k i sender_id req d st v meanwhile after);
  }

-- A message of the same content answers the same request.
same_request-SameContent :
    (m n : Message) (req : SendMessageRequest)
    → SameContent m n
    → same_request m req ≡ true
    → same_request n req ≡ true
unfolding same_request
same_request-SameContent m n req same h = rw (same.recipient, same.body, same.attachment) h

-- A retry of a send that answered, with the same request and after anything that other sessions may
-- commit in between, is answered with the same message, as no new one, and writes nothing.
pub retry_replays :
    (x : Externals) (k : Cursors) (i j : SendInputs) (sender_id : String) (req : SendMessageRequest)
    (st : Settings) (between : Db → Db) (d : Db) (out : MessageOut) (new : Bool)
    → IsValid x d
    → Rely x i.meanwhile
    → Rely x i.after_rollback
    → Rely x between
    → send_result x k i sender_id req st d ≡ ok (out, new)
    → let d' = between (sent_db x k i sender_id req st d) in
      (again : MessageOut) × (send_result x k j sender_id req st d' ≡ ok (again, false))
      × (again.id ≡ out.id)
      × (again.body ≡ out.body)
      × (sent_db x k j sender_id req st d' ≡ d')
unfolding to_out
retry_replays x k i j sender_id req st between d out new v f g h sent =
    let first = sent_db x k i sender_id req st d in
    let v' = send_message-IsValid x k i sender_id req st d v f g in
    let a = send_message-Answered x k i sender_id req st d out new v f g sent in
    let (n, stored, same) = h.retains first v' sender_id req.client_msg_id a.message a.stored in
    let e =
      existing_answer x k j sender_id req st (between first) n (h.keeps first v')
        (check_passed x k i sender_id req st (open_session d) (open_session (between first))
          (out, new) sent)
        stored in
    (
      to_out x k n,
      rw (e.0, same_request-SameContent a.message n req same a.same) refl,
      rw a.shown same.id,
      rw a.shown same.body,
      e.1,
    )
