-- ===== src/Chat/Receipts/Progress.antt =====
-- What the receipts keep: the invariant of the database, the content of every message, and the order
-- of the statuses.
use fastapi_realtime_chat_ba.Prelude.{String, Bool, List, ◌≡◌, refl, rows_set}
use fastapi_realtime_chat_ba.Models.{Uuid, Time, Message, EventData, Db}
use fastapi_realtime_chat_ba.Externals.{Externals}
use fastapi_realtime_chat_ba.Ids.{Cursors}
use fastapi_realtime_chat_ba.Chat.Session.{open_session}
use fastapi_realtime_chat_ba.Chat.Statements.{has_id, has_client_msg_id, update_messages}
use fastapi_realtime_chat_ba.Chat.Common.{stage}
use fastapi_realtime_chat_ba.Chat.Valid.{IsValid}
use fastapi_realtime_chat_ba.Chat.Keeps.{Keeps}
use fastapi_realtime_chat_ba.Chat.Rely.{Retains, Rely}
use fastapi_realtime_chat_ba.Chat.Send.Writes.{IsValid-stage, stage-messages}
use fastapi_realtime_chat_ba.Chat.Receipts.{
  awaits_delivery, deliver, mark_delivered, is_unread_up_to, set_read, mark_read,
}
use fastapi_realtime_chat_ba.Chat.Receipts.Rules.{mark_delivered-Keeps, mark_read-Keeps}
use fastapi_realtime_chat_ba.Chat.Receipts.Valid.{deliver-IsValid, read-IsValid}
use fastapi_realtime_chat_ba.Chat.Receipts.Advances.{
  Forward, Advances-refl, Forward-rows_set, Forward-trans, deliver-Advances, set_read-Advances,
}

-- What is shown of a later database: it is valid, and each message has advanced.
module _ (x : Externals) (t : Message → Bool) (ls : List Message)
    (delivered_keeps : (now : Time) (m : Message) → t (deliver now m) ≡ t m)
    (read_keeps : (now : Time) (m : Message) → t (set_read now m) ≡ t m) where
  abbrev Later : Db → Type 0
  Later d = IsValid x d × Forward t ls d.messages

  stage-Later :
      (now : Time) (content : EventData) (kind : String) (us : List String) (d : Db)
      → Later d
      → Later (stage now content kind us d)
  stage-Later now content kind us d (v, f) =
      (IsValid-stage x now content kind us d v, rw (stage-messages now content kind us d).0 f)

  deliver-Later :
      (now : Time) (user_id : String) (id : Uuid) (d : Db)
      → Later d
      → Later (update_messages (awaits_delivery user_id id) (deliver now) d)
  deliver-Later now user_id id d (v, f) = (
    deliver-IsValid x now user_id id d v,
    Forward-trans t ls d.messages (rows_set (awaits_delivery user_id id) (deliver now) d.messages) f
        (Forward-rows_set t (awaits_delivery user_id id) (deliver now) d.messages
          (delivered_keeps now) (deliver-Advances now user_id id) v.receipts),
  )

  read-Later :
      (now : Time) (c : Uuid) (user_id : String) (anchor : Message) (d : Db)
      → Later d
      → Later (update_messages (is_unread_up_to c user_id anchor) (set_read now) d)
  read-Later now c user_id anchor d (v, f) = (
    read-IsValid x now c user_id anchor d v,
    Forward-trans t ls d.messages
        (rows_set (is_unread_up_to c user_id anchor) (set_read now) d.messages) f
        (Forward-rows_set t (is_unread_up_to c user_id anchor) (set_read now) d.messages
          (read_keeps now) (set_read-Advances now c user_id anchor) v.receipts),
  )

  mark_delivered-Later :
      (k : Cursors) (now staged_at : Time) (user_id : String) (message_id : Uuid)
      → Keeps Later (mark_delivered x k now staged_at user_id message_id)
  mark_delivered-Later = mark_delivered-Keeps Later stage-Later deliver-Later read-Later x

  mark_read-Later :
      (now staged_at : Time) (user_id : String) (c up_to : Uuid)
      → Keeps Later (mark_read x now staged_at user_id c up_to)
  mark_read-Later = mark_read-Keeps Later stage-Later deliver-Later read-Later x

abbrev pub delivered_db : Externals → Cursors → Time → Time → String → Uuid → Db → Db
delivered_db x k now staged_at user_id message_id d =
    (mark_delivered x k now staged_at user_id message_id (open_session d)).1.committed

abbrev pub read_db : Externals → Time → Time → String → Uuid → Uuid → Db → Db
read_db x now staged_at user_id c up_to d =
    (mark_read x now staged_at user_id c up_to (open_session d)).1.committed

Forward-refl : (t : Message → Bool) (ms : List Message) → Forward t ms ms
Forward-refl t ms m found = (m, found, Advances-refl m)

module _ (x : Externals) (t : Message → Bool) (d : Db) (v : IsValid x d)
    (delivered_keeps : (now : Time) (m : Message) → t (deliver now m) ≡ t m)
    (read_keeps : (now : Time) (m : Message) → t (set_read now m) ≡ t m) where
  delivered_later :
      (k : Cursors) (now staged_at : Time) (user_id : String) (message_id : Uuid)
      → IsValid x (delivered_db x k now staged_at user_id message_id d)
        × Forward t d.messages (delivered_db x k now staged_at user_id message_id d).messages
  delivered_later k now staged_at user_id message_id =
      (mark_delivered-Later x t d.messages delivered_keeps read_keeps k now staged_at user_id
          message_id).committed
        (open_session d) (v, Forward-refl t d.messages) (v, Forward-refl t d.messages)

  read_later :
      (now staged_at : Time) (user_id : String) (c up_to : Uuid)
      → IsValid x (read_db x now staged_at user_id c up_to d)
        × Forward t d.messages (read_db x now staged_at user_id c up_to d).messages
  read_later now staged_at user_id c up_to =
      (mark_read-Later x t d.messages delivered_keeps read_keeps now staged_at user_id c
          up_to).committed
        (open_session d) (v, Forward-refl t d.messages) (v, Forward-refl t d.messages)

-- No receipt, whoever asks for it and whether it succeeds, sets a message back: each message keeps
-- all but its receipts, its status is the same or a later one, and a time that was set stays.
pub receipts_advance :
    (x : Externals) (k : Cursors) (now staged_at : Time) (user_id : String) (message_id c j : Uuid)
    (d : Db)
    → IsValid x d
    → Forward (has_id j) d.messages (delivered_db x k now staged_at user_id message_id d).messages
      × Forward (has_id j) d.messages (read_db x now staged_at user_id c message_id d).messages
unfolding deliver set_read
receipts_advance x k now staged_at user_id message_id c j d v = (
  (delivered_later x (has_id j) d v (λ n m. refl) (λ n m. refl) k now staged_at user_id
      message_id).1,
  (read_later x (has_id j) d v (λ n m. refl) (λ n m. refl) now staged_at user_id c message_id).1,
)

Forward-Retains :
    (ms ns : List Message)
    → ((s c : String) → Forward (has_client_msg_id s c) ms ns)
    → Retains ms ns
Forward-Retains ms ns f s c m found = let (n, found', a) = f s c m found in (n, found', a.content)

-- Both calls grant what a send relies on: they keep the invariant, delete no message and change none
-- but in its receipts.
pub receipts-Rely :
    (x : Externals) (k : Cursors) (now staged_at : Time) (user_id : String) (message_id c : Uuid)
    → Rely x (delivered_db x k now staged_at user_id message_id)
      × Rely x (read_db x now staged_at user_id c message_id)
unfolding deliver set_read
receipts-Rely x k now staged_at user_id message_id c = (
  record {
    keeps = λ d v.
        (delivered_later x (has_id 0) d v (λ n m. refl) (λ n m. refl) k now staged_at user_id
          message_id).0;
    retains = λ d v. Forward-Retains d.messages _ λ s r.
        (delivered_later x (has_client_msg_id s r) d v (λ n m. refl) (λ n m. refl) k now staged_at
          user_id message_id).1;
  },
  record {
    keeps = λ d v.
        (read_later x (has_id 0) d v (λ n m. refl) (λ n m. refl) now staged_at user_id c
          message_id).0;
    retains = λ d v. Forward-Retains d.messages _ λ s r.
        (read_later x (has_client_msg_id s r) d v (λ n m. refl) (λ n m. refl) now staged_at user_id
          c message_id).1;
  },
)
