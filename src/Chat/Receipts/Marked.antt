-- ===== src/Chat/Receipts/Marked.antt =====
-- Which rows `mark_read` changes, and how.
use fastapi_realtime_chat_ba.Prelude.{
  ◌≤◌, ◌<◌, String, true, false, some, ◌≡◌, refl, sym, ap, arith, ◌∙◌, ◌⊎◌, inl, inr, str_eq,
  eq_iff, if◌then◌else◌, find_row, find_row-rows_set_eq, set_if, Bool-cases,
}
use fastapi_realtime_chat_ba.Errors.{ok}
use fastapi_realtime_chat_ba.Models.{
  Uuid, Time, Conversation, Message, MessageStatus, status_eq, Db,
}
use fastapi_realtime_chat_ba.Externals.{Externals}
use fastapi_realtime_chat_ba.Chat.Session.{open_session}
use fastapi_realtime_chat_ba.Chat.Statements.{has_id, is_conversation, key_le}
use fastapi_realtime_chat_ba.Chat.Common.{in_conversation}
use fastapi_realtime_chat_ba.Chat.Rely.{SameContent}
use fastapi_realtime_chat_ba.Chat.Receipts.{ReadResult, is_unread_up_to, set_read, mark_read}
use fastapi_realtime_chat_ba.Chat.Receipts.Progress.{read_db}
use fastapi_realtime_chat_ba.Chat.Receipts.Settled.{mark_read-Settled}

-- A message of the conversation to the user that is not read and not after the anchor.
pub record Due (c : Uuid) (user_id : String) (anchor m : Message) : Type 0 where
  pub inside : m.conversation_id ≡ c
  pub to_user : m.recipient_id ≡ user_id
  pub not_read : status_eq m.status MessageStatus.read ≡ false
  pub not_after :
      (m.created_at < anchor.created_at) ⊎ ((m.created_at ≡ anchor.created_at) × (m.id ≤ anchor.id))

-- A due message is read from `now` on, with the same content; any other is as it was.
abbrev pub Marked : Uuid → String → Time → Message → Message → Message → Type 0
Marked c user_id now anchor m n =
    (Due c user_id anchor m
      × SameContent m n
      × (n.status ≡ MessageStatus.read)
      × (n.read_at ≡ some now))
    ⊎ ((Due c user_id anchor m → false ≡ true) × (n ≡ m))

is_unread_up_to-Due :
    (c : Uuid) (user_id : String) (a m : Message)
    → is_unread_up_to c user_id a m ≡ true
    → Due c user_id a m
unfolding is_unread_up_to
is_unread_up_to-Due c user_id a m h = record {
  inside = ground arith;
  to_user = (eq_iff m.recipient_id user_id).0 (ground arith);
  not_read = ground arith;
  not_after = ground arith;
}

Due-is_unread_up_to :
    (c : Uuid) (user_id : String) (a m : Message)
    → Due c user_id a m
    → is_unread_up_to c user_id a m ≡ true
unfolding is_unread_up_to
Due-is_unread_up_to c user_id a m due =
    let mine : str_eq m.recipient_id user_id ≡ true =
      (eq_iff m.recipient_id user_id).1 due.to_user in
    let place : key_le m.created_at m.id a.created_at a.id ≡ true = elim due.not_after [
      | inl before ↦ ground arith
      | inr (same, below) ↦ ground arith
    ] in
    let inside : (m.conversation_id ≡ c) = due.inside in
    rw (mine, due.not_read, place) (ground arith)

set_read-SameContent : (now : Time) (m : Message) → SameContent m (set_read now m)
unfolding set_read
set_read-SameContent now m = record {
  id = refl;
  conversation = refl;
  sender = refl;
  client_msg_id = refl;
  recipient = refl;
  body = refl;
  attachment = refl;
  mime = refl;
  created = refl;
}

-- A call that succeeds reaches a conversation of the user and a message in it, the anchor, and of every
-- message that is stored it makes what it means to: one of the conversation that is to the user, not
-- read and not after the anchor is then read, at the time of the call and with the same content; every
-- other one is as it was.
pub mark_read-Marked :
    (x : Externals) (now staged_at : Time) (user_id : String) (c up_to : Uuid) (d : Db)
    (res : ReadResult) (id : Uuid) (m : Message)
    → (mark_read x now staged_at user_id c up_to (open_session d)).0 ≡ ok res
    → find_row (has_id id) d.messages ≡ some m
    → (conversation : Conversation) × (anchor : Message) × (n : Message) × (find_row
          (is_conversation c)
          d.conversations
        ≡ some conversation)
      × (in_conversation user_id conversation ≡ true)
      × (find_row (has_id up_to) d.messages ≡ some anchor)
      × (anchor.conversation_id ≡ c)
      × (find_row (has_id id) (read_db x now staged_at user_id c up_to d).messages ≡ some n)
      × Marked c user_id now anchor m n
unfolding set_read
mark_read-Marked x now staged_at user_id c up_to d res id m h found =
    let s = mark_read-Settled x now staged_at user_id c up_to d res h in
    let due = is_unread_up_to c user_id s.anchor in
    let moved : find_row (has_id id) (read_db x now staged_at user_id c up_to d).messages
        ≡ set_if due (set_read now) (some m) =
      ap (find_row (has_id id)) s.messages
      ∙ find_row-rows_set_eq (has_id id) due (set_read now) d.messages (λ r. refl)
      ∙ ap (set_if due (set_read now)) found in
    (
      s.conversation,
      s.anchor,
      if due m then set_read now m else m,
      s.reached.conversation,
      s.reached.member,
      s.reached.anchor_found,
      s.reached.anchor_inside,
      moved,
      elim (Bool-cases (due m)) [
        | inl hit ↦ rw hit (
            inl (
              is_unread_up_to-Due c user_id s.anchor m hit,
              set_read-SameContent now m,
              refl,
              refl,
            ))
        | inr miss ↦
            rw miss
              (inr (λ is_due. sym miss ∙ Due-is_unread_up_to c user_id s.anchor m is_due, refl))
      ],
    )
