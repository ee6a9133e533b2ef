-- ===== src/Chat/Listing/Examples.antt =====
-- Tests of the listing, and its theorems at concrete inputs.
use fastapi_realtime_chat_ba.Prelude.{ℕ, some, [], ◌∷◌, ◌≡◌, refl, arith, map, order_by, UniqueBy}
use fastapi_realtime_chat_ba.Models.{Db, Message, Uuid}
use fastapi_realtime_chat_ba.Chat.Common.{to_out, in_conversation}
use fastapi_realtime_chat_ba.Chat.Valid.{same_id}
use fastapi_realtime_chat_ba.Chat.Listing.{rows_after}
use fastapi_realtime_chat_ba.Chat.Listing.Sync.{sync, sync_complete}
use fastapi_realtime_chat_ba.Chat.Fixture.{externals, cursors, hello_message, hello_db}

abbrev numbered : Uuid → ℕ → Message
numbered id now = record hello_message { id = id; created_at = now }

-- three messages, not in the order of their times
abbrev three : Db
three = record hello_db { messages = numbered 9 300 ∷ numbered 7 100 ∷ numbered 8 200 ∷ [] }

in_order : rows_after 3 (50, 0) three ≡ numbered 7 100 ∷ numbered 8 200 ∷ numbered 9 300 ∷ []
unfolding rows_after order_by
in_order = refl

three-ids : UniqueBy same_id three.messages
three-ids = (refl, (refl, (refl, tt)))

sync_complete_example :
    sync externals cursors "bob" 3 1 three 5 (50 ∷ 0 ∷ [])
    ≡ some (map (to_out externals cursors) (rows_after 3 (50, 0) three))
unfolding in_conversation rows_after order_by
sync_complete_example =
    sync_complete externals cursors "bob" 3 1 three
      (record { id = 3; user_a = "alice"; user_b = "bob"; created_at = 100 }) three-ids refl refl
      refl (omega arith) 5 (50 ∷ 0 ∷ []) (50, 0) (λ e. cc) refl (omega arith)
