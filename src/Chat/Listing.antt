-- ===== src/Chat/Listing.antt =====
-- app/services/chat.py: ChatService.list_messages
pub mod Rows
pub mod Sync
mod Examples
use fastapi_realtime_chat_ba.Prelude.{
  ℕ, ◌+◌, String, Bool, true, false, ◌&&◌, Option, some, none, List, [], ◌∷◌, map, ltb, ◌==◌,
  if◌then◌else◌, rows_where, order_by, take, length, last?,
}
use fastapi_realtime_chat_ba.Errors.{Result, ok, err, app_error, index_error}
use fastapi_realtime_chat_ba.Models.{Uuid, Time, Cursor, Conversation, Message, MessageOut, Db}
use fastapi_realtime_chat_ba.Externals.{Externals}
use fastapi_realtime_chat_ba.Ids.{Cursors}
use fastapi_realtime_chat_ba.Chat.Session.{
  Session, Exec, ◌>>=◌, ◌>>◌, pure, lift, fail, raise, gets,
}
use fastapi_realtime_chat_ba.Chat.Statements.{key_lt}
use fastapi_realtime_chat_ba.Chat.Common.{to_out, get_conversation}

-- app/schemas.py
pub record MessagePage : Type 0 where
  pub items : List MessageOut
  pub next_cursor : Option Cursor
  pub has_more : Bool

-- `bool` of an optional cursor: None and the empty text are false.
abbrev pub given : Option Cursor → Option Cursor
given none = none
given (some []) = none
given (some (ch ∷ rest)) = some (ch ∷ rest)

-- (created_at, id) of the first row is less than that of the second
abbrev pub message_lt : Message → Message → Bool
message_lt m n = key_lt m.created_at m.id n.created_at n.id

abbrev pub message_gt : Message → Message → Bool
message_gt m n = message_lt n m

unfoldable pub of_conversation : Uuid → Message → Bool
of_conversation id m = m.conversation_id == id

-- ChatService._cursor
unfoldable pub read_cursor : Cursors → Cursor → Exec (Time × Uuid)
read_cursor k raw = elim (k.decode_cursor raw) [
  | none ↦ raise (app_error 400 "invalid_cursor" "Malformed pagination cursor")
  | some key ↦ pure key
]

-- the statement of `after`: the key of the cursor is less than that of the row
unfoldable pub rows_after : Uuid → Time × Uuid → Db → List Message
unfolding of_conversation
rows_after id key db = order_by message_lt (
    rows_where (λ m. key_lt key.0 key.1 m.created_at m.id)
      (rows_where (of_conversation id) db.messages))

-- the statement of `before`: it is greater
unfoldable pub rows_before : Uuid → Time × Uuid → Db → List Message
unfolding of_conversation
rows_before id key db = order_by message_gt (
    rows_where (λ m. key_lt m.created_at m.id key.0 key.1)
      (rows_where (of_conversation id) db.messages))

unfoldable pub rows_newest : Uuid → Db → List Message
unfolding of_conversation
rows_newest id db = order_by message_gt (rows_where (of_conversation id) db.messages)

-- `items[-1].cursor`
abbrev pub last_cursor : List MessageOut → Result Cursor
last_cursor items = elim (last? items) [ none ↦ err index_error | some out ↦ ok out.cursor ]

unfoldable pub last_or : List MessageOut → Cursor → Cursor
last_or items after = elim (last? items) [ none ↦ after | some out ↦ out.cursor ]

-- the page of the rows that the statement finds, where LIMIT is `limit + 1`
unfoldable pub page_after : Externals → Cursors → ℕ → Cursor → List Message → MessagePage
page_after x k limit after found =
    let rows = take (limit + 1) found in
    let items = map (to_out x k) (take limit rows) in
    record {
      items = items;
      next_cursor = some (last_or items after);
      has_more = ltb limit (length rows);
    }

unfoldable pub page_before : Externals → Cursors → ℕ → List Message → Exec MessagePage
page_before x k limit found =
    let rows = take (limit + 1) found in
    let items = map (to_out x k) (take limit rows) in
    if ltb limit (length rows)
    then (do
      cursor ← lift (last_cursor items)
      pure (record { items = items; next_cursor = some cursor; has_more = true }))
    else pure (record { items = items; next_cursor = none; has_more = false })

unfoldable pub list_before :
    Externals → Cursors → Conversation → ℕ → Option Cursor → Exec MessagePage
list_before x k c limit none = do found ← gets (rows_newest c.id); page_before x k limit found
list_before x k c limit (some before) = do
  key ← read_cursor k before
  found ← gets (rows_before c.id key)
  page_before x k limit found

unfoldable pub list_after : Externals → Cursors → Conversation → ℕ → Cursor → Exec MessagePage
list_after x k c limit after = do
  key ← read_cursor k after
  found ← gets (rows_after c.id key)
  pure (page_after x k limit after found)

abbrev pub list_page :
    Externals → Cursors → Conversation → ℕ → Option Cursor → Option Cursor → Exec MessagePage
list_page x k c limit before (some after) = list_after x k c limit after
list_page x k c limit before none = list_before x k c limit before

abbrev pub not_both : Option Cursor → Option Cursor → Exec (Unit {0})
not_both (some before) (some after) =
    raise (app_error 400 "bad_request" "Use either before or after, not both")
not_both _ _ = pure tt

unfoldable pub list_messages :
    Externals → Cursors → String → Uuid → ℕ → Option Cursor → Option Cursor → Exec MessagePage
list_messages x k user_id conversation_id limit before after = do
  not_both (given before) (given after)
  conversation ← get_conversation user_id conversation_id
  list_page x k conversation limit (given before) (given after)
