-- ===== src/Chat/Receipts/Read.antt =====
-- What `mark_read` does on each branch.
use mathlib.Core.List.{Perm}
use mathlib.Core.List.Perm
use fastapi_realtime_chat_ba.Prelude.{
  ℕ, String, true, false, some, none, List, [], ◌∷◌, map, ◌≡◌, ◌≢◌, refl, sym, subst, arith, inl,
  inr, ◌∙◌, ◌==◌, find_row, rows_where, rows_set, find_row_sound, Option-cases, Bool-cases, ==_iff,
}
use fastapi_realtime_chat_ba.Errors.{Result, ok, err, Failure}
use fastapi_realtime_chat_ba.Models.{
  Uuid, Time, Conversation, peer_of, Message, Outbox, Db, user_topic, make_event, read_data,
}
use fastapi_realtime_chat_ba.Externals.{Externals}
use fastapi_realtime_chat_ba.Chat.Session.{Session, open_session, commit}
use fastapi_realtime_chat_ba.Chat.Statements.{has_id, is_conversation, insert_outbox}
use fastapi_realtime_chat_ba.Chat.Common.{
  get_conversation, in_conversation, enqueue, stage, from_keys, without,
}
use fastapi_realtime_chat_ba.Chat.Lookup.{continue_cases}
use fastapi_realtime_chat_ba.Chat.Receipts.{
  ReadResult, is_unread_up_to, set_read, get_anchor, announce_read, read_up_to, mark_read,
}

abbrev pub read_event : Time → Time → ℕ → String → Conversation → List Uuid → Outbox
read_event now staged_at n user_id c ids = record {
  id = n;
  topic = user_topic (peer_of c user_id);
  payload = make_event "message.read" (read_data c.id user_id ids now);
  created_at = staged_at;
  published_at = none;
}

abbrev pub ids_of : List Message → List Uuid
ids_of ms = map (λ m. m.id) ms

module _ (x : Externals) (now staged_at : Time) (user_id : String) (conversation_id up_to : Uuid)
    (d : Db) where
  -- The messages that a call reaches, where it succeeds.
  pub record Reached (c : Conversation) (anchor : Message) : Type 0 where
    pub conversation : find_row (is_conversation conversation_id) d.conversations ≡ some c
    pub member : in_conversation user_id c ≡ true
    pub anchor_found : find_row (has_id up_to) d.messages ≡ some anchor
    pub anchor_inside : anchor.conversation_id ≡ conversation_id

  pub data ReadOutcome (r : Result ReadResult × Session) : Type 0 where
    -- there were unread messages
    read_some :
        (c : Conversation) (anchor : Message) (ids : List Uuid)
        → Reached c anchor
        → Perm ids (ids_of (rows_where (is_unread_up_to conversation_id user_id anchor) d.messages))
        → ids ≢ []
        → r.0
          ≡ ok (record { conversation_id = conversation_id; message_ids = ids; read_at = some now })
        → r.1.committed.messages
          ≡ rows_set (is_unread_up_to conversation_id user_id anchor) (set_read now) d.messages
        → r.1.committed.conversations ≡ d.conversations
        → r.1.committed.outbox ≡ read_event now staged_at d.next_outbox_id user_id c ids ∷ d.outbox
        → r.1.notified ≡ 1
        → ReadOutcome r
    -- there were none
    read_none :
        (c : Conversation) (anchor : Message)
        → Reached c anchor
        → rows_where (is_unread_up_to conversation_id user_id anchor) d.messages ≡ []
        → r.0 ≡ ok (record { conversation_id = conversation_id; message_ids = []; read_at = none })
        → r.1.committed ≡ d
        → r.1.notified ≡ 0
        → ReadOutcome r
    -- there is no such conversation of the user, or no such message in it
    refused :
        (e : Failure)
        → ((c : Conversation) (anchor : Message) → ¬ Reached c anchor)
        → r.0 ≡ err e
        → r.1.committed ≡ d
        → r.1.notified ≡ 0
        → ReadOutcome r

  get_conversation_state :
      (s : Session)
      → ((get_conversation user_id conversation_id s).1 ≡ s)
        × ((c : Conversation)
            → (get_conversation user_id conversation_id s).0 ≡ ok c
            → (find_row (is_conversation conversation_id) s.working.conversations ≡ some c)
              × (in_conversation user_id c ≡ true)
              × (c.id ≡ conversation_id))
  unfolding get_conversation
  get_conversation_state s =
      elim (Option-cases (find_row (is_conversation conversation_id) s.working.conversations)) [
        | inl missing ↦ rw missing (refl, λ c h. cc)
        | inr (c, found) ↦ elim (Bool-cases (in_conversation user_id c)) [
          | inl inside ↦
              rw (found, inside)
                (
                  refl,
                  λ e h. (
                    ground arith,
                    ground arith,
                    ground (
                      arith,
                      ==_iff c.id conversation_id,
                      find_row_sound (is_conversation conversation_id) s.working.conversations c
                          found,
                    ),
                  ),
                )
          | inr outside ↦ rw (found, outside) (refl, λ e h. cc)
        ]
      ]

  get_conversation_refuses :
      (e : Failure) (s : Session)
      → (get_conversation user_id conversation_id s).0 ≡ err e
      → (c : Conversation)
      → find_row (is_conversation conversation_id) s.working.conversations ≡ some c
      → in_conversation user_id c ≡ false
  unfolding get_conversation
  get_conversation_refuses e s h c found = ground arith

  get_anchor_refuses :
      (e : Failure) (c : Conversation) (s : Session)
      → (get_anchor c up_to s).0 ≡ err e
      → (a : Message) → find_row (has_id up_to) s.working.messages ≡ some a
      → a.conversation_id ≢ c.id
  unfolding get_anchor
  get_anchor_refuses e c s h a found same = ground arith

  get_anchor_state :
      (c : Conversation) (s : Session)
      → ((get_anchor c up_to s).1 ≡ s)
        × ((a : Message)
            → (get_anchor c up_to s).0 ≡ ok a
            → (find_row (has_id up_to) s.working.messages ≡ some a) × (a.conversation_id ≡ c.id))
  unfolding get_anchor
  get_anchor_state c s = elim (Option-cases (find_row (has_id up_to) s.working.messages)) [
    | inl missing ↦ rw missing (refl, λ a h. cc)
    | inr (a, found) ↦ elim (Bool-cases (a.conversation_id == c.id)) [
      | inl inside ↦ rw (found, inside) (refl, λ b h. (ground arith, ground arith))
      | inr outside ↦ rw (found, outside) (refl, λ b h. cc)
    ]
  ]

-- No identifier comes back exactly where no row was due.
ids_nil : (ms : List Message) → Perm {A = Uuid} [] (ids_of ms) → ms ≡ []
ids_nil [] p = refl
ids_nil (m ∷ ms) p = cc (Perm.nil-eq p)

read_up_to-Outcome :
    (x : Externals) (now staged_at : Time) (user_id : String) (up_to : Uuid) (d : Db)
    (c : Conversation) (anchor : Message) (ids : List Uuid)
    → Reached x now staged_at user_id c.id up_to d c anchor
    → x.returned (ids_of (rows_where (is_unread_up_to c.id user_id anchor) d.messages)) ≡ ids
    → ReadOutcome x now staged_at user_id c.id up_to d
        (read_up_to x now staged_at user_id c anchor (open_session d))
unfolding read_up_to announce_read enqueue commit stage from_keys without insert_outbox
read_up_to-Outcome x now staged_at user_id up_to d c anchor [] reached e =
    let rows = rows_where (is_unread_up_to c.id user_id anchor) d.messages in
    rw e (
      read_none c anchor reached
        (ids_nil rows (subst (λ l. Perm l (ids_of rows)) e (x.returned-perm (ids_of rows)))) refl
        refl refl)
read_up_to-Outcome x now staged_at user_id up_to d c anchor (id ∷ ids) reached e =
    let rows = rows_where (is_unread_up_to c.id user_id anchor) d.messages in
    rw e (
      read_some c anchor (id ∷ ids) reached
        (subst (λ l. Perm l (ids_of rows)) e (x.returned-perm (ids_of rows))) (λ h. cc) refl refl
        refl refl refl)

-- Each call of `mark_read` fails and changes nothing, finds nothing unread and changes nothing, or
-- marks exactly the due messages, returns their identifiers in some order, and stages one event for
-- the peer, in one commit.
pub mark_read-Outcome :
    (x : Externals) (now staged_at : Time) (user_id : String) (conversation_id up_to : Uuid)
    (d : Db)
    → ReadOutcome x now staged_at user_id conversation_id up_to d
        (mark_read x now staged_at user_id conversation_id up_to (open_session d))
unfolding mark_read
mark_read-Outcome x now staged_at user_id conversation_id up_to d =
    let s = open_session d in
    let P = ReadOutcome x now staged_at user_id conversation_id up_to d in
    let got = get_conversation_state x now staged_at user_id conversation_id up_to d s in
    continue_cases P _ (get_conversation user_id conversation_id s).0 s
      (get_conversation user_id conversation_id s).1 got.0
      (λ e h.
        refused e
          (λ c a reached. cc (
            get_conversation_refuses x now staged_at user_id conversation_id up_to d e s h c
                reached.conversation,
            reached.member,
          ))
          refl refl refl)
      (λ c h.
        let (found, member, same) = got.1 c h in
        let anchored = get_anchor_state x now staged_at user_id conversation_id up_to d c s in
        continue_cases P _ (get_anchor c up_to s).0 s (get_anchor c up_to s).1 anchored.0
          (λ e h'.
            refused e
              (λ c' a reached.
                get_anchor_refuses x now staged_at user_id conversation_id up_to d e c s h' a
                  reached.anchor_found (reached.anchor_inside ∙ sym same))
              refl refl refl)
          (λ a h'.
            let (a_found, inside) = anchored.1 a h' in
            subst
              (λ z.
                ReadOutcome x now staged_at user_id z up_to d
                  (read_up_to x now staged_at user_id c a (open_session d)))
              same
              (read_up_to-Outcome x now staged_at user_id up_to d c a _
                (record {
                  conversation =
                      subst (λ z. find_row (is_conversation z) d.conversations ≡ some c) (sym same)
                        found;
                  member = member;
                  anchor_found = a_found;
                  anchor_inside = inside;
                })
                refl)))
