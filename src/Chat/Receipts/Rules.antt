-- ===== src/Chat/Receipts/Rules.antt =====
-- The rules for the receipts: what their statements keep, they keep.
use fastapi_realtime_chat_ba.Prelude.{String, List, [], ◌∷◌, arith}
use fastapi_realtime_chat_ba.Models.{Uuid, Time, Message, EventData, Db, Conversation}
use fastapi_realtime_chat_ba.Externals.{Externals}
use fastapi_realtime_chat_ba.Ids.{Cursors}
use fastapi_realtime_chat_ba.Chat.Statements.{update_messages}
use fastapi_realtime_chat_ba.Chat.Common.{stage, enqueue, from_keys, get_conversation}
use fastapi_realtime_chat_ba.Chat.Keeps.{
  Keeps, Keeps-modify, Keeps-bind, Keeps-gets, Keeps-reads, Keeps-option, keeps_rules,
}
use fastapi_realtime_chat_ba.Chat.Receipts.{
  awaits_delivery, deliver, not_delivered, announce_delivered, update_delivered, mark_delivered,
  is_unread_up_to, set_read, get_anchor, announce_read, read_up_to, mark_read,
}

-- The rules for the two calls, for an invariant that their statements keep.
module _ (P : Db → Type 0)
    (staged : (now : Time) (content : EventData) (kind : String) (us : List String) (d : Db)
      → P d
      → P (stage now content kind us d))
    (delivers : (now : Time) (user_id : String) (id : Uuid) (d : Db)
      → P d
      → P (update_messages (awaits_delivery user_id id) (deliver now) d))
    (reads : (now : Time) (c : Uuid) (user_id : String) (anchor : Message) (d : Db)
      → P d
      → P (update_messages (is_unread_up_to c user_id anchor) (set_read now) d)) where
  enqueue-Keeps :
      (now : Time) (us : List String) (kind : String) (content : EventData)
      → Keeps P (enqueue now us kind content)
  unfolding enqueue
  enqueue-Keeps now us kind content = Keeps-modify _ (staged now content kind (from_keys us))

  update_delivered-Keeps :
      (now : Time) (user_id : String) (message_id : Uuid)
      → Keeps P (update_delivered now user_id message_id)
  unfolding update_delivered
  update_delivered-Keeps now user_id message_id =
      search (keeps_rules, delivers now user_id message_id)

  not_delivered-Keeps :
      (x : Externals) (k : Cursors) (user_id : String) (message_id : Uuid)
      → Keeps P (not_delivered x k user_id message_id)
  unfolding not_delivered
  not_delivered-Keeps x k user_id message_id = Keeps-reads _ (λ s. ground arith)

  announce_delivered-Keeps :
      (x : Externals) (k : Cursors) (now staged_at : Time) (m : Message)
      → Keeps P (announce_delivered x k now staged_at m)
  unfolding announce_delivered
  announce_delivered-Keeps x k now staged_at m = search (keeps_rules, enqueue-Keeps)

  pub mark_delivered-Keeps :
      (x : Externals) (k : Cursors) (now staged_at : Time) (user_id : String) (message_id : Uuid)
      → Keeps P (mark_delivered x k now staged_at user_id message_id)
  unfolding mark_delivered
  mark_delivered-Keeps x k now staged_at user_id message_id =
      Keeps-bind _ _ (update_delivered-Keeps now user_id message_id) λ updated.
        Keeps-option updated _ _ (not_delivered-Keeps x k user_id message_id)
          (announce_delivered-Keeps x k now staged_at)

  announce_read-Keeps :
      (now staged_at : Time) (user_id : String) (c : Conversation) (ids : List Uuid)
      → Keeps P (announce_read now staged_at user_id c ids)
  unfolding announce_read
  announce_read-Keeps now staged_at user_id c [] = search keeps_rules
  announce_read-Keeps now staged_at user_id c (id ∷ ids) = search (keeps_rules, enqueue-Keeps)

  get_conversation-Keeps : (user_id : String) (c : Uuid) → Keeps P (get_conversation user_id c)
  unfolding get_conversation
  get_conversation-Keeps user_id c = Keeps-reads _ (λ s. ground arith)

  get_anchor-Keeps : (c : Conversation) (up_to : Uuid) → Keeps P (get_anchor c up_to)
  unfolding get_anchor
  get_anchor-Keeps c up_to = Keeps-reads _ (λ s. ground arith)

  read_up_to-Keeps :
      (x : Externals) (now staged_at : Time) (user_id : String) (c : Conversation) (a : Message)
      → Keeps P (read_up_to x now staged_at user_id c a)
  unfolding read_up_to
  read_up_to-Keeps x now staged_at user_id c a = Keeps-bind _ _ (Keeps-gets _) λ ids.
      Keeps-bind _ _ (Keeps-modify _ (reads now c.id user_id a))
        λ u. announce_read-Keeps now staged_at user_id c ids

  pub mark_read-Keeps :
      (x : Externals) (now staged_at : Time) (user_id : String) (c up_to : Uuid)
      → Keeps P (mark_read x now staged_at user_id c up_to)
  unfolding mark_read
  mark_read-Keeps x now staged_at user_id c up_to =
      search (keeps_rules, get_conversation-Keeps, get_anchor-Keeps, read_up_to-Keeps)
