-- ===== src/Chat/Send/Cases.antt =====
-- Every send has one of the three ends.
use fastapi_realtime_chat_ba.Prelude.{
  String, false, Option, some, none, [], ◌∷◌, ◌≡◌, refl, ap, subst, arith, inl, inr, find_row,
  Bool-cases, Option-cases, str_eq,
}
use fastapi_realtime_chat_ba.Errors.{ok, raised, integrity_error}
use fastapi_realtime_chat_ba.Settings.{Settings}
use fastapi_realtime_chat_ba.Models.{Conversation, Message, Db, message_data}
use fastapi_realtime_chat_ba.Externals.{Externals}
use fastapi_realtime_chat_ba.Ids.{Cursors}
use fastapi_realtime_chat_ba.Chat.Session.{Session, open_session, pure, ◌>>=◌, commit}
use fastapi_realtime_chat_ba.Chat.Statements.{insert_outbox, sorted_pair}
use fastapi_realtime_chat_ba.Chat.Common.{
  SendMessageRequest, to_out, same_request, idempotency_conflict, replay, stage,
}
use fastapi_realtime_chat_ba.Chat.Valid.{IsValid, InConversation}
use fastapi_realtime_chat_ba.Chat.Rely.{Rely}
use fastapi_realtime_chat_ba.Chat.Lookup.{continue_cases, by_client_msg_id_lem}
use fastapi_realtime_chat_ba.Chat.Send.{
  SendInputs, new_message, send_message, insert_new, insert_and_announce, announce,
  answer_from_other, check_request, check_attachment, attachment_mime,
}
use fastapi_realtime_chat_ba.Chat.Send.Writes.{
  enqueue_pair, IsValid-stage, with_message, IsValid-with_message, violated, conflicting, added,
  insert_message-Inserted, pair_members,
}
use fastapi_realtime_chat_ba.Chat.Send.Conversations.{Holds, get_or_create_conversation_lem}
use fastapi_realtime_chat_ba.Chat.Send.Outcome.{
  request_key, Untouched, Outcome, refused, replayed, created,
}

module _ (x : Externals) (k : Cursors) (i : SendInputs) (sender_id : String)
    (req : SendMessageRequest) (d : Db) where
  replay-Outcome :
      (m : Message) (s : Session)
      → find_row (request_key sender_id req) s.committed.messages ≡ some m
      → Untouched x k i sender_id req d s.committed
      → s.notified ≡ 0
      → Outcome x k i sender_id req d ((replay x k m req >>= λ out. pure (out, false)) s)
  unfolding replay
  replay-Outcome m s found others quiet = elim (Bool-cases (same_request m req)) [
    | inl same ↦ replayed m (rw same refl) (rw same found) same (rw same others) (rw same quiet)
    | inr other ↦
        refused (raised idempotency_conflict) (rw other refl) (rw other others) (rw other quiet)
  ]

  answer_from_other-Outcome :
      (m : Message) (s : Session)
      → IsValid x (i.meanwhile d)
      → Rely x i.after_rollback
      → s.committed ≡ i.meanwhile d
      → s.notified ≡ 0
      → find_row (request_key sender_id req) (i.meanwhile d).messages ≡ some m
      → Outcome x k i sender_id req d (answer_from_other x k i sender_id req s)
  unfolding answer_from_other
  answer_from_other-Outcome m s v rely same quiet found =
      let (n, kept, _) = rely.retains (i.meanwhile d) v sender_id req.client_msg_id m found in
      let t : Session = record s {
        committed = i.after_rollback s.committed;
        working = i.after_rollback s.committed;
      } in
      let v' : IsValid x (i.after_rollback s.committed) = rw same (rely.keeps (i.meanwhile d) v) in
      let found' : find_row (request_key sender_id req) (i.after_rollback s.committed).messages
          ≡ some n =
        rw same kept in
      rw (by_client_msg_id_lem sender_id req.client_msg_id t v'.client_msg_ids, found')
        (replay-Outcome n t found' (inr (inr (ap i.after_rollback same))) quiet)

  announce-Outcome :
      (c : Conversation) (mime : Option String) (s : Session)
      → str_eq req.recipient_id sender_id ≡ false
      → s.notified ≡ 0
      → IsValid x s.working
      → find_row (request_key sender_id req) (i.meanwhile d).messages ≡ none
      → s.working.messages ≡ new_message i sender_id req c mime ∷ (i.meanwhile d).messages
      → s.working.outbox ≡ (i.meanwhile d).outbox
      → s.working.next_outbox_id ≡ (i.meanwhile d).next_outbox_id
      → Outcome x k i sender_id req d
          (announce x k i sender_id req (new_message i sender_id req c mime) s)
  unfolding announce commit stage insert_outbox
  announce-Outcome c mime s differ quiet v new messages outbox next =
      let m = new_message i sender_id req c mime in
      let event = message_data (to_out x k m) in
      rw (enqueue_pair i.staged_at req.recipient_id sender_id "message.new" event s differ) (
        created m refl
          (record {
            conversation = c;
            mime = mime;
            as_requested = refl;
            was_new = new;
            messages = messages;
            outbox = cc;
            valid =
                IsValid-stage x i.staged_at event "message.new" (req.recipient_id ∷ sender_id ∷ [])
                  s.working v;
          })
          (omega arith))

  insert-Outcome :
      (c : Conversation) (mime : Option String) (s : Session)
      → str_eq req.recipient_id sender_id ≡ false
      → s.notified ≡ 0
      → s.committed ≡ i.meanwhile d
      → IsValid x (i.meanwhile d)
      → Rely x i.after_rollback
      → Holds x
          (sorted_pair sender_id req.recipient_id).0
          (sorted_pair sender_id req.recipient_id).1
          (i.meanwhile d)
          s.working
          c
      → Outcome x k i sender_id req d (insert_new x k i sender_id req mime c s)
  unfolding insert_new new_message
  insert-Outcome c mime s differ quiet same v rely h =
      let m = new_message i sender_id req c mime in
      let members = pair_members sender_id req.recipient_id c h.pair in
      elim (insert_message-Inserted m s.working) [
        | violated e ↦ rw e (refused integrity_error refl (inr (inl same)) quiet)
        | conflicting o found e ↦ rw e (
            answer_from_other-Outcome o s v rely same quiet
              (subst (λ ms. find_row (request_key sender_id req) ms ≡ some o) h.messages found))
        | added new no_id content e ↦
            let member : InConversation s.working.conversations m = record {
              conversation = c;
              found = h.found;
              of_sender = members.0;
              peer = members.1;
            } in
            rw e (
              announce-Outcome c mime (record s { working = with_message m s.working }) differ quiet
                (IsValid-with_message x m s.working h.valid new no_id content (refl, refl) member)
                (subst (λ ms. find_row (request_key sender_id req) ms ≡ none) h.messages new)
                (ap (◌∷◌ m) h.messages) h.outbox h.next)
      ]

  insert_and_announce-Outcome :
      (mime : Option String) (s : Session)
      → str_eq req.recipient_id sender_id ≡ false
      → s.notified ≡ 0
      → s.committed ≡ i.meanwhile d
      → s.working ≡ i.meanwhile d
      → IsValid x (i.meanwhile d)
      → Rely x i.after_rollback
      → Outcome x k i sender_id req d (insert_and_announce x k i sender_id req mime s)
  unfolding insert_and_announce
  insert_and_announce-Outcome mime s differ quiet same same' v rely =
      elim (get_or_create_conversation_lem x i sender_id req.recipient_id s (rw same' v)) [
        | inl e ↦ rw e (refused integrity_error refl (inr (inl same)) quiet)
        | inr (d', c, e, h) ↦ rw e (
            insert-Outcome c mime (record s { working = d' }) differ quiet same v rely
              (rw same' at h))
      ]

  check_request_state :
      (st : Settings) (s : Session)
      → ((check_request x st sender_id req s).1 ≡ s)
        × ((u : Unit {0})
            → (check_request x st sender_id req s).0 ≡ ok u
            → str_eq req.recipient_id sender_id ≡ false)
  unfolding check_request
  check_request_state st s = (ground arith, λ u h. ground arith)

  attachment_mime_state :
      (st : Settings) (key : Option String) (s : Session)
      → (attachment_mime x st sender_id key s).1 ≡ s
  unfolding attachment_mime check_attachment
  attachment_mime_state st none s = refl
  attachment_mime_state st (some key) s = ground arith

  -- From a valid database, and while the other sessions keep to `Rely`, every send ends in one of
  -- three ways: it fails and writes nothing; it answers with the stored message of its
  -- client_msg_id, which has the same content, and writes nothing; or it stores one new message
  -- with an event for each of the two users, in one commit, and answers with it.
  pub send_message-Outcome :
      (st : Settings)
      → IsValid x d
      → Rely x i.meanwhile
      → Rely x i.after_rollback
      → Outcome x k i sender_id req d (send_message x k i sender_id req st (open_session d))
  unfolding send_message
  send_message-Outcome st v meanwhile after =
      let s = open_session d in
      let checked = check_request_state st s in
      continue_cases (Outcome x k i sender_id req d) _ (check_request x st sender_id req s).0 s
        (check_request x st sender_id req s).1 checked.0 (λ e h. refused e refl (inl refl) refl)
        (λ u h.
          rw (by_client_msg_id_lem sender_id req.client_msg_id s v.client_msg_ids)
            (elim (Option-cases (find_row (request_key sender_id req) d.messages)) [
              | inr (m, found) ↦ rw found (replay-Outcome m s found (inl refl) refl)
              | inl new ↦ rw new (
                  continue_cases (Outcome x k i sender_id req d) _
                    (attachment_mime x st sender_id req.attachment_key s).0 s
                    (attachment_mime x st sender_id req.attachment_key s).1
                    (attachment_mime_state st req.attachment_key s)
                    (λ e h'. refused e refl (inl refl) refl)
                    (λ mime h'.
                      insert_and_announce-Outcome mime
                        (record s { committed = i.meanwhile d; working = i.meanwhile d })
                        (checked.1 u h) refl refl refl (meanwhile.keeps d v) after))
            ]))
