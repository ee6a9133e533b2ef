-- ===== src/Chat/Receipts/Delivered.antt =====
-- What `mark_delivered` does on each branch.
use fastapi_realtime_chat_ba.Prelude.{
  ℕ, String, Bool, true, false, ◌&&◌, some, none, List, [], ◌∷◌, ◌≡◌, refl, ap, arith, inl, inr,
  str_eq, ◌==◌, find_row, rows_where, rows_set, rows_where-and, find_row-rows_set_eq, rows_set-none,
  find_row_sound, if◌then◌else◌, keep_if, Option-cases, Bool-cases, Keyed, UniqueBy, ◌∙◌, ==_iff,
  str_eq_comm,
}
use fastapi_realtime_chat_ba.Errors.{Result, ok, err, raised, app_error, not_found}
use fastapi_realtime_chat_ba.Models.{
  Uuid, Time, Message, MessageOut, MessageStatus, status_eq, Outbox, Db, user_topic, make_event,
  delivered_data,
}
use fastapi_realtime_chat_ba.Externals.{Externals}
use fastapi_realtime_chat_ba.Ids.{Cursors}
use fastapi_realtime_chat_ba.Chat.Session.{Session, open_session, commit}
use fastapi_realtime_chat_ba.Chat.Statements.{has_id, insert_outbox, update_messages}
use fastapi_realtime_chat_ba.Chat.Common.{to_out, enqueue, stage, from_keys, without}
use fastapi_realtime_chat_ba.Chat.Valid.{IsValid, same_id}
use fastapi_realtime_chat_ba.Chat.Receipts.{
  awaits_delivery, deliver, not_delivered, announce_delivered, update_delivered, mark_delivered,
}

pub id-Keyed : (id : Uuid) → Keyed same_id (has_id id)
id-Keyed id r q h = ground arith

-- May the user confirm delivery of the message, and is it new?
abbrev pub is_deliverable : String → Message → Bool
is_deliverable user_id m = str_eq m.recipient_id user_id && status_eq m.status MessageStatus.sent

abbrev pub delivered_event : Time → Time → ℕ → Message → Outbox
delivered_event now staged_at n m = record {
  id = n;
  topic = user_topic m.sender_id;
  payload =
      make_event "message.delivered" (delivered_data m.id m.conversation_id m.client_msg_id now);
  created_at = staged_at;
  published_at = none;
}

module _ (x : Externals) (k : Cursors) (now staged_at : Time) (user_id : String) (message_id : Uuid)
    (d : Db) where
  pub data DeliveryOutcome (r : Result MessageOut × Session) : Type 0 where
    -- the recipient confirms a message that was `sent`
    confirmed :
        (m : Message)
        → find_row (has_id message_id) d.messages ≡ some m
        → is_deliverable user_id m ≡ true
        → r.0 ≡ ok (to_out x k (deliver now m))
        → ((j : Uuid)
            → find_row (has_id j) r.1.committed.messages
              ≡ (if j == message_id then some (deliver now m) else find_row (has_id j) d.messages))
        → r.1.committed.conversations ≡ d.conversations
        → r.1.committed.outbox ≡ delivered_event now staged_at d.next_outbox_id m ∷ d.outbox
        → r.1.notified ≡ 1
        → DeliveryOutcome r
    -- the recipient confirms again
    already :
        (m : Message)
        → find_row (has_id message_id) d.messages ≡ some m
        → str_eq m.recipient_id user_id ≡ true
        → status_eq m.status MessageStatus.sent ≡ false
        → r.0 ≡ ok (to_out x k m)
        → r.1.committed ≡ d
        → r.1.notified ≡ 0
        → DeliveryOutcome r
    -- the sender tries
    denied :
        (m : Message)
        → find_row (has_id message_id) d.messages ≡ some m
        → str_eq user_id m.sender_id ≡ true
        → str_eq m.recipient_id user_id ≡ false
        → r.0
          ≡ err (raised (app_error 403 "access_denied" "Only the recipient can confirm delivery"))
        → r.1.committed ≡ d
        → r.1.notified ≡ 0
        → DeliveryOutcome r
    -- there is no such message, or it is one of other users
    unknown :
        ((m : Message)
          → find_row (has_id message_id) d.messages ≡ some m
          → (str_eq user_id m.sender_id ≡ false) × (str_eq m.recipient_id user_id ≡ false))
        → r.0 ≡ err (raised (not_found "Message not found"))
        → r.1.committed ≡ d
        → r.1.notified ≡ 0
        → DeliveryOutcome r

module _ (now : Time) (user_id : String) (message_id : Uuid) (s : Session)
    (u : UniqueBy same_id s.working.messages) where
  delivered_rows :
      rows_where (awaits_delivery user_id message_id) s.working.messages
      ≡ keep_if (is_deliverable user_id) (find_row (has_id message_id) s.working.messages)
  unfolding awaits_delivery
  delivered_rows =
      rows_where-and same_id (has_id message_id) (is_deliverable user_id) s.working.messages
        (id-Keyed message_id) u

  update_delivered-none :
      keep_if (is_deliverable user_id) (find_row (has_id message_id) s.working.messages) ≡ []
      → update_delivered now user_id message_id s ≡ (ok none, s)
  unfolding update_delivered
  update_delivered-none h =
      let e = delivered_rows ∙ h in
      rw (e, rows_set-none (awaits_delivery user_id message_id) (deliver now) s.working.messages e)
        refl

  update_delivered-some :
      (m : Message)
      → find_row (has_id message_id) s.working.messages ≡ some m
      → is_deliverable user_id m ≡ true
      → update_delivered now user_id message_id s ≡ (
        ok (some (deliver now m)),
        record s {
          working = update_messages (awaits_delivery user_id message_id) (deliver now) s.working;
        },
      )
  unfolding update_delivered
  update_delivered-some m found ready =
      let e : rows_where (awaits_delivery user_id message_id) s.working.messages ≡ m ∷ [] =
        delivered_rows ∙ ground arith in
      rw e refl

-- The update of one message, as its identifier finds it.
find-delivered :
    (now : Time) (user_id : String) (message_id : Uuid) (ms : List Message) (m : Message) (j : Uuid)
    → find_row (has_id message_id) ms ≡ some m
    → is_deliverable user_id m ≡ true
    → find_row (has_id j) (rows_set (awaits_delivery user_id message_id) (deliver now) ms)
      ≡ (if j == message_id then some (deliver now m) else find_row (has_id j) ms)
unfolding awaits_delivery deliver
find-delivered now user_id message_id ms m j found ready =
    find_row-rows_set_eq (has_id j) (awaits_delivery user_id message_id) (deliver now) ms
      (λ r. refl)
    ∙ elim (Bool-cases (j == message_id)) [
      | inl e ↦ ground (
        arith,
        ap (λ (n : ℕ). find_row (has_id n) ms) ((==_iff j message_id).0 e),
        find_row_sound (has_id message_id) ms m found,
      )
      | inr e ↦ elim (Option-cases (find_row (has_id j) ms)) [
        | inl missing ↦ ground arith
        | inr (r, there) ↦ ground (arith, find_row_sound (has_id j) ms r there)
      ]
    ]

module _ (x : Externals) (k : Cursors) (now staged_at : Time) (user_id : String) (message_id : Uuid)
    (d : Db) where
  not_delivered-Outcome :
      ((m : Message)
        → find_row (has_id message_id) d.messages ≡ some m
        → is_deliverable user_id m ≡ false)
      → DeliveryOutcome x k now staged_at user_id message_id d
          (not_delivered x k user_id message_id (open_session d))
  unfolding not_delivered
  not_delivered-Outcome still = elim (Option-cases (find_row (has_id message_id) d.messages)) [
    | inl missing ↦ rw missing (unknown (λ m found. cc) refl refl refl)
    | inr (m, found) ↦ elim (Bool-cases (str_eq m.recipient_id user_id)) [
      | inl mine ↦ rw found (
          already m found mine (ground (arith, still m found))
            (ground (arith, str_eq_comm user_id m.recipient_id))
            (ground (arith, str_eq_comm user_id m.recipient_id))
            (ground (arith, str_eq_comm user_id m.recipient_id)))
      | inr other ↦ elim (Bool-cases (str_eq user_id m.sender_id)) [
        | inl sender ↦ rw found (
            denied m found sender other (ground (arith, str_eq_comm user_id m.recipient_id))
              (ground (arith, str_eq_comm user_id m.recipient_id))
              (ground (arith, str_eq_comm user_id m.recipient_id)))
        | inr stranger ↦ rw found (
            unknown (λ n there. ground arith) (ground (arith, str_eq_comm user_id m.recipient_id))
              (ground (arith, str_eq_comm user_id m.recipient_id))
              (ground (arith, str_eq_comm user_id m.recipient_id)))
      ]
    ]
  ]

  announce_delivered-Outcome :
      (m : Message)
      → find_row (has_id message_id) d.messages ≡ some m
      → is_deliverable user_id m ≡ true
      → DeliveryOutcome x k now staged_at user_id message_id d (
          announce_delivered x k now staged_at (deliver now m) (record (open_session d) {
            working = update_messages (awaits_delivery user_id message_id) (deliver now) d;
          }))
  unfolding announce_delivered enqueue commit stage from_keys without insert_outbox deliver
  announce_delivered-Outcome m found ready =
      confirmed m found ready refl
        (λ j. find-delivered now user_id message_id d.messages m j found ready) refl refl refl

  -- Each call of `mark_delivered` ends in one of four ways, decided by the message and the user. Only
  -- the first writes: the recipient's confirmation of a message that was `sent` changes that message
  -- alone and stages one event for its sender, in one commit.
  pub mark_delivered-Outcome :
      IsValid x d
      → DeliveryOutcome x k now staged_at user_id message_id d
          (mark_delivered x k now staged_at user_id message_id (open_session d))
  unfolding mark_delivered
  mark_delivered-Outcome v = elim (Option-cases (find_row (has_id message_id) d.messages)) [
    | inl missing ↦
        rw (update_delivered-none now user_id message_id (open_session d) v.ids (rw missing refl))
          (not_delivered-Outcome (λ m found. cc))
    | inr (m, found) ↦ elim (Bool-cases (is_deliverable user_id m)) [
      | inl ready ↦
          rw (update_delivered-some now user_id message_id (open_session d) v.ids m found ready)
            (announce_delivered-Outcome m found ready)
      | inr done ↦
          rw
            (update_delivered-none now user_id message_id (open_session d) v.ids
              (rw (found, done) refl))
            (not_delivered-Outcome (λ n there. ground arith))
    ]
  ]
