-- ===== src/Chat/Listing/Sync.antt =====
-- Catch-up sync: a client that passes each page's cursor back as `after` sees every message once.
use mathlib.Core.List.{map-append}
use mathlib.Core.Option
use fastapi_realtime_chat_ba.Prelude.{
  ℕ, zero, suc, ◌+◌, ◌≤◌, ◌<◌, String, true, false, Option, some, none, List, [], ◌∷◌, ◌++◌, map,
  ◌≡◌, ◌≢◌, refl, sym, ap, arith, inl, inr, ltb, find_row, UniqueBy, take, drop, length, last?,
  Bool-cases, ◌∙◌, if◌then◌else◌, length-take, length-drop, take-take_suc, take_all,
  take-append-drop,
}
use fastapi_realtime_chat_ba.Errors.{Result, ok, err}
use fastapi_realtime_chat_ba.Models.{Uuid, Time, Cursor, Conversation, Message, MessageOut, Db}
use fastapi_realtime_chat_ba.Externals.{Externals}
use fastapi_realtime_chat_ba.Ids.{Cursors}
use fastapi_realtime_chat_ba.Chat.Session.{Session, open_session}
use fastapi_realtime_chat_ba.Chat.Statements.{is_conversation}
use fastapi_realtime_chat_ba.Chat.Common.{to_out, get_conversation, in_conversation}
use fastapi_realtime_chat_ba.Chat.Valid.{same_id}
use fastapi_realtime_chat_ba.Chat.Lookup.{get_conversation_lem}
use fastapi_realtime_chat_ba.Chat.Listing.{
  MessagePage, read_cursor, rows_after, page_after, last_or, list_after, list_messages,
}
use fastapi_realtime_chat_ba.Chat.Listing.Rows.{rows_after_last}

-- The client of the sync, on one state of the database: it asks for the next page while there is
-- one. `none` is an error of a call, or the end of the fuel.
abbrev pub next_page : Option Cursor → Cursor
next_page none = []
next_page (some cursor) = cursor

abbrev pub joined : List MessageOut → Option (List MessageOut) → Option (List MessageOut)
joined items none = none
joined items (some rest) = some (items ++ rest)

abbrev pub follow :
    Result MessagePage → (Cursor → Option (List MessageOut)) → Option (List MessageOut)
follow (err e) rest = none
follow (ok page) rest =
    let later = rest (next_page page.next_cursor) in
    if page.has_more then joined page.items later else some page.items

module _ (x : Externals) (k : Cursors) (user_id : String) (id : Uuid) (limit : ℕ) (d : Db) where
  pub page_of : Cursor → Result MessagePage
  page_of after = (list_messages x k user_id id limit none (some after) (open_session d)).0

  pub sync : ℕ → Cursor → Option (List MessageOut)
  sync zero after = none
  sync (suc fuel) after = follow (page_of after) (sync fuel)

pub read_cursor_lem :
    (k : Cursors) (raw : Cursor) (key : Time × Uuid) (s : Session)
    → k.decode_cursor raw ≡ some key
    → read_cursor k raw s ≡ (ok key, s)
unfolding read_cursor
read_cursor_lem k raw key s e = rw (e, read_cursor) refl

-- The page of a cursor, where the conversation is the user's.
list_messages-after :
    (x : Externals) (k : Cursors) (user_id : String) (id : Uuid) (limit : ℕ) (d : Db)
    (c : Conversation) (after : Cursor) (key : Time × Uuid)
    → find_row (is_conversation id) d.conversations ≡ some c
    → in_conversation user_id c ≡ true
    → c.id ≡ id
    → after ≢ []
    → k.decode_cursor after ≡ some key
    → page_of x k user_id id limit d after ≡ ok (page_after x k limit after (rows_after id key d))
unfolding page_of list_messages list_after get_conversation page_after
list_messages-after x k user_id id limit d c [] key found member same some_text decoded =
    absurd (some_text refl)
list_messages-after x k user_id id limit d c (ch ∷ rest) key found member same some_text decoded =
    rw
      (
        get_conversation_lem user_id id c (open_session d) found member,
        read_cursor_lem k (ch ∷ rest) key (open_session d) decoded,
      )
      (ap (λ z. ok (page_after x k limit (ch ∷ rest) (rows_after z key d))) same)

pub last?-map :
    (f : Message → MessageOut) (ms : List Message) (l : Message)
    → last? ms ≡ some l
    → last? (map f ms) ≡ some (f l)
last?-map f [] l e = cc
last?-map f (m ∷ []) l e = ap (Option.map f) e
last?-map f (m ∷ n ∷ ms) l e = last?-map f (n ∷ ms) l e

pub take-last? :
    (n : ℕ) (ms : List Message)
    → 1 ≤ n
    → 0 < length ms
    → (l : Message) × (last? (take n ms) ≡ some l)
take-last? zero ms h h' = absurd (omega arith)
take-last? (suc n) [] h h' = absurd (omega arith)
take-last? (suc zero) (m ∷ ms) h h' = (m, refl)
take-last? (suc (suc n)) (m ∷ []) h h' = (m, refl)
take-last? (suc (suc n)) (m ∷ k ∷ ms) h h' = take-last? (suc n) (k ∷ ms) (omega arith) (omega arith)

last_or_page :
    (x : Externals) (k : Cursors) (ms : List Message) (l : Message) (after : Cursor)
    → last? ms ≡ some l
    → last_or (map (to_out x k) ms) after ≡ k.encode_cursor l.created_at l.id
unfolding last_or to_out
last_or_page x k ms l after e = rw (last?-map (to_out x k) ms l e, last_or) refl

short_page :
    (limit : ℕ) (rows : List Message)
    → ltb limit (length (take (limit + 1) rows)) ≡ false
    → length rows ≤ limit
short_page limit rows h = ground (arith, length-take (limit + 1) rows)

pub long_page :
    (limit : ℕ) (rows : List Message)
    → ltb limit (length (take (limit + 1) rows)) ≡ true
    → limit < length rows
long_page limit rows h = ground (arith, length-take (limit + 1) rows)

module _ (x : Externals) (k : Cursors) (user_id : String) (id : Uuid) (limit : ℕ) (d : Db)
    (c : Conversation) (u : UniqueBy same_id d.messages)
    (found : find_row (is_conversation id) d.conversations ≡ some c)
    (member : in_conversation user_id c ≡ true) (same : c.id ≡ id) (room : 1 ≤ limit) where
  -- A client that follows the cursors from any cursor gets every message of the conversation after
  -- it, each once, in ascending order of (created_at, id), whatever the page size.
  pub sync_complete :
      (fuel : ℕ) (after : Cursor) (key : Time × Uuid)
      → after ≢ []
      → k.decode_cursor after ≡ some key
      → length (rows_after id key d) < fuel
      → sync x k user_id id limit d fuel after ≡ some (map (to_out x k) (rows_after id key d))
  unfolding sync page_after
  sync_complete zero after key text decoded enough = absurd (omega arith)
  sync_complete (suc fuel) after key text decoded enough =
      let rows = rows_after id key d in
      rw (list_messages-after x k user_id id limit d c after key found member same text decoded)
        (elim (Bool-cases (ltb limit (length (take (limit + 1) rows)))) [
          | inr last ↦
              rw (last, take-take_suc limit rows, take_all limit rows (short_page limit rows last))
                refl
          | inl more ↦
              let left : limit < length rows = long_page limit rows more in
              let (l, e) = take-last? limit rows room (omega arith) in
              let next = rows_after_last id key d u limit l e in
              rw
                (
                  more,
                  take-take_suc limit rows,
                  last_or_page x k (take limit rows) l after e,
                  sync_complete fuel (k.encode_cursor l.created_at l.id) (l.created_at, l.id)
                      (k.encode-ne-nil l.created_at l.id) (k.decode-encode l.created_at l.id)
                      (rw next (omega (arith, length-drop limit rows))),
                  next,
                )
                (ap some (
                  sym (map-append (to_out x k) (take limit rows) (drop limit rows))
                  ∙ ap (map (to_out x k)) (take-append-drop limit rows)))
        ])
