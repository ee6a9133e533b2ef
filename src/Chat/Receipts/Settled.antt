-- ===== src/Chat/Receipts/Settled.antt =====
-- After `mark_read` nothing is left to mark, and a second call says so.
use mathlib.Core.List.{Perm}
use mathlib.Core.List.Perm
use fastapi_realtime_chat_ba.Prelude.{
  String, false, some, none, List, [], ◌≡◌, refl, sym, ap, subst, arith, ◌∙◌, fun_ext, inl, inr,
  find_row, rows_where, rows_set, rows_where-rows_set, rows_set-none, find_row-rows_set_eq,
  Bool-cases,
}
use fastapi_realtime_chat_ba.Errors.{Result, ok, err}
use fastapi_realtime_chat_ba.Models.{Uuid, Time, Conversation, Message, Db}
use fastapi_realtime_chat_ba.Externals.{Externals}
use fastapi_realtime_chat_ba.Chat.Session.{Session, open_session}
use fastapi_realtime_chat_ba.Chat.Statements.{has_id}
use fastapi_realtime_chat_ba.Chat.Receipts.{ReadResult, is_unread_up_to, set_read, mark_read}
use fastapi_realtime_chat_ba.Chat.Receipts.Read.{
  ReadOutcome, read_some, read_none, refused, Reached, ids_of, mark_read-Outcome,
}
use fastapi_realtime_chat_ba.Chat.Receipts.Progress.{read_db}

-- What a successful call leaves behind.
pub record Settled (x : Externals) (now staged_at : Time) (user_id : String) (c up_to : Uuid)
    (d d' : Db) (res : ReadResult) : Type 0 where
  pub conversation : Conversation
  pub anchor : Message
  pub reached : Reached x now staged_at user_id c up_to d conversation anchor
  pub marked :
      Perm res.message_ids (ids_of (rows_where (is_unread_up_to c user_id anchor) d.messages))
  pub messages : d'.messages ≡ rows_set (is_unread_up_to c user_id anchor) (set_read now) d.messages
  pub conversations : d'.conversations ≡ d.conversations
  pub nothing_left : rows_where (is_unread_up_to c user_id anchor) d'.messages ≡ []

abbrev message_ids_of : Result ReadResult → List Uuid
message_ids_of (ok r) = r.message_ids
message_ids_of (err e) = []

module _ (x : Externals) (now staged_at : Time) (user_id : String) (c up_to : Uuid) (d : Db) where
  set_read_unread : (anchor m : Message) → is_unread_up_to c user_id anchor (set_read now m) ≡ false
  unfolding is_unread_up_to set_read
  set_read_unread anchor m = ground arith

  Outcome-Settled :
      (r : Result ReadResult × Session) (res : ReadResult)
      → ReadOutcome x now staged_at user_id c up_to d r
      → r.0 ≡ ok res
      → Settled x now staged_at user_id c up_to d r.1.committed res
  Outcome-Settled r res (read_some cv a ids reached p _ good ms cs _ _) h = record {
    conversation = cv;
    anchor = a;
    reached = reached;
    marked =
        subst (λ l. Perm l (ids_of (rows_where (is_unread_up_to c user_id a) d.messages)))
          (ap message_ids_of (sym good ∙ h)) p;
    messages = ms;
    conversations = cs;
    nothing_left = rw ms (
        rows_where-rows_set (is_unread_up_to c user_id a) (set_read now) d.messages
          (set_read_unread a));
  }
  Outcome-Settled r res (read_none cv a reached empty good same _) h = record {
    conversation = cv;
    anchor = a;
    reached = reached;
    marked =
        subst (λ l. Perm l (ids_of (rows_where (is_unread_up_to c user_id a) d.messages)))
          (ap message_ids_of (sym good ∙ h)) (rw empty Perm.nil);
    messages =
        ap (λ (z : Db). z.messages) same
        ∙ sym (rows_set-none (is_unread_up_to c user_id a) (set_read now) d.messages empty);
    conversations = ap (λ (z : Db). z.conversations) same;
    nothing_left = rw same empty;
  }
  Outcome-Settled r res (refused e _ bad _ _) h = cc

  -- A call that succeeds marks the unread messages of the conversation to the user up to the anchor,
  -- and no other; it returns their identifiers, in some order, and leaves none of them unread.
  pub mark_read-Settled :
      (res : ReadResult)
      → (mark_read x now staged_at user_id c up_to (open_session d)).0 ≡ ok res
      → Settled x now staged_at user_id c up_to d (read_db x now staged_at user_id c up_to d) res
  mark_read-Settled res h =
      Outcome-Settled (mark_read x now staged_at user_id c up_to (open_session d)) res
        (mark_read-Outcome x now staged_at user_id c up_to d) h

-- The anchor counts by its place in the order only.
due_place :
    (c : Uuid) (user_id : String) (a b : Message)
    → a.created_at ≡ b.created_at
    → a.id ≡ b.id
    → is_unread_up_to c user_id a ≡ is_unread_up_to c user_id b
unfolding is_unread_up_to
due_place c user_id a b t i = fun_ext λ m. cc (t, i)

-- The anchor, after the update.
record Moved (a : Message) (up_to : Uuid) (ms : List Message) : Type 0 where
  row : Message
  found : find_row (has_id up_to) ms ≡ some row
  created : row.created_at ≡ a.created_at
  id : row.id ≡ a.id
  conversation : row.conversation_id ≡ a.conversation_id

anchor-Moved :
    (c up_to : Uuid) (user_id : String) (now : Time) (a : Message) (ms : List Message)
    → find_row (has_id up_to) ms ≡ some a
    → Moved a up_to (rows_set (is_unread_up_to c user_id a) (set_read now) ms)
unfolding set_read
anchor-Moved c up_to user_id now a ms found =
    let e =
      find_row-rows_set_eq (has_id up_to) (is_unread_up_to c user_id a) (set_read now) ms
        (λ r. refl) in
    elim (Bool-cases (is_unread_up_to c user_id a a)) [
      | inl hit ↦ record {
        row = set_read now a;
        found = e ∙ rw (found, hit) refl;
        created = refl;
        id = refl;
        conversation = refl;
      }
      | inr miss ↦ record {
        row = a;
        found = e ∙ rw (found, miss) refl;
        created = refl;
        id = refl;
        conversation = refl;
      }
    ]

abbrev pub nothing_read : Uuid → ReadResult
nothing_read c = record { conversation_id = c; message_ids = []; read_at = none }

settled_again :
    (x : Externals) (now staged_at : Time) (user_id : String) (c up_to : Uuid) (d : Db)
    (cv : Conversation) (a : Message)
    → Reached x now staged_at user_id c up_to d cv a
    → rows_where (is_unread_up_to c user_id a) d.messages ≡ []
    → (r : Result ReadResult × Session) → ReadOutcome x now staged_at user_id c up_to d r
    → (r.0 ≡ ok (nothing_read c)) × (r.1.committed ≡ d)
settled_again x now staged_at user_id c up_to d cv a reached empty r
      (read_some cv' b ids reached' p some_ids _ _ _ _ _) =
    absurd (some_ids (Perm.eq-nil (subst (λ l. Perm ids (ids_of l)) e p)))
  where
    same : b ≡ a
    same = cc (reached'.anchor_found, reached.anchor_found)

    e : rows_where (is_unread_up_to c user_id b) d.messages ≡ []
    e = ap (λ z. rows_where (is_unread_up_to c user_id z) d.messages) same ∙ empty
settled_again x now staged_at user_id c up_to d cv a reached empty r
      (read_none _ _ _ _ good same _) =
    (good, same)
settled_again x now staged_at user_id c up_to d cv a reached empty r (refused _ never _ _ _) =
    absurd (never cv a reached)

-- A second call for the same anchor, at any later time, succeeds, returns no identifier, stages no
-- event and leaves the database as it is.
pub mark_read_twice :
    (x : Externals) (now staged_at later staged_later : Time) (user_id : String) (c up_to : Uuid)
    (d : Db) (res : ReadResult)
    → (mark_read x now staged_at user_id c up_to (open_session d)).0 ≡ ok res
    → let d' = read_db x now staged_at user_id c up_to d in
      ((mark_read x later staged_later user_id c up_to (open_session d')).0 ≡ ok (nothing_read c))
      × (read_db x later staged_later user_id c up_to d' ≡ d')
mark_read_twice x now staged_at later staged_later user_id c up_to d res h =
    let d' = read_db x now staged_at user_id c up_to d in
    let s = mark_read-Settled x now staged_at user_id c up_to d res h in
    let moved = anchor-Moved c up_to user_id now s.anchor d.messages s.reached.anchor_found in
    settled_again x later staged_later user_id c up_to d' s.conversation moved.row
      (record {
        conversation = rw s.conversations s.reached.conversation;
        member = s.reached.member;
        anchor_found = rw s.messages moved.found;
        anchor_inside = moved.conversation ∙ s.reached.anchor_inside;
      })
      (rw (due_place c user_id moved.row s.anchor moved.created moved.id) s.nothing_left)
      (mark_read x later staged_later user_id c up_to (open_session d'))
      (mark_read-Outcome x later staged_later user_id c up_to d')
