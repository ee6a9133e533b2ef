-- ===== src/Chat/Send/Succeeds.antt =====
-- When a send stores its message.
use fastapi_realtime_chat_ba.Prelude.{
  String, Bool, true, false, ◌||◌, Option, some, none, ◌≡◌, ◌≢◌, refl, sym, subst, arith, inl, inr,
  find_row, Bool-cases, str_eq,
}
use fastapi_realtime_chat_ba.Errors.{Result, ok, err, integrity_error}
use fastapi_realtime_chat_ba.Settings.{Settings}
use fastapi_realtime_chat_ba.Models.{Conversation, Message, MessageOut, Db, message_data}
use fastapi_realtime_chat_ba.Externals.{Externals}
use fastapi_realtime_chat_ba.Ids.{Cursors}
use fastapi_realtime_chat_ba.Chat.Session.{Session, open_session, commit}
use fastapi_realtime_chat_ba.Chat.Statements.{
  has_id, column_text, unbounded, is_pair, is_conversation, fits, is_some, has_content,
  message_columns_fit, conversation_columns_fit, sorted_pair, insert_message, insert_conversation,
}
use fastapi_realtime_chat_ba.Chat.Common.{SendMessageRequest, to_out}
use fastapi_realtime_chat_ba.Chat.Valid.{IsValid}
use fastapi_realtime_chat_ba.Chat.Lookup.{by_client_msg_id_lem}
use fastapi_realtime_chat_ba.Chat.Rely.{Rely}
use fastapi_realtime_chat_ba.Chat.Send.{
  SendInputs, new_message, check_request, attachment_mime, get_or_create_conversation, announce,
  insert_new, insert_and_announce, send_message,
}
use fastapi_realtime_chat_ba.Chat.Send.Conversations.{Holds, insert_conversation_lem}
use fastapi_realtime_chat_ba.Chat.Send.Writes.{with_message, enqueue_pair}
use fastapi_realtime_chat_ba.Chat.Send.Outcome.{request_key}
use fastapi_realtime_chat_ba.Chat.Send.Guarantees.{send_result}

module _ (x : Externals) (k : Cursors) (i : SendInputs) (sender_id : String)
    (req : SendMessageRequest) where
  -- The pair's columns, either way round.
  pair_fits :
      (u w : String)
      → column_text 64 u ≡ true
      → column_text 64 w ≡ true
      → (column_text 64 (sorted_pair u w).0 ≡ true) × (column_text 64 (sorted_pair u w).1 ≡ true)
  unfolding sorted_pair
  pair_fits u w a b = ground arith

  conversation_inserts :
      (c : Conversation) (d : Db)
      → column_text 64 c.user_a ≡ true
      → column_text 64 c.user_b ≡ true
      → x.text_lt c.user_a c.user_b ≡ true
      → find_row (is_conversation c.id) d.conversations ≡ none
      → insert_conversation x c d ≢ err integrity_error
  unfolding insert_conversation conversation_columns_fit
  conversation_inserts c d a b sorted fresh h =
      elim (Bool-cases (is_some (find_row (is_pair c.user_a c.user_b) d.conversations))) [
        | inl there ↦ ground arith
        | inr missing ↦ ground arith
      ]

  -- the new conversation of the two
  abbrev pair_row : Conversation
  pair_row = record {
    id = i.conversation_id;
    user_a = (sorted_pair sender_id req.recipient_id).0;
    user_b = (sorted_pair sender_id req.recipient_id).1;
    created_at = i.conversation_at;
  }

  conversation_there :
      (s : Session)
      → IsValid x s.working
      → column_text 64 sender_id ≡ true
      → column_text 64 req.recipient_id ≡ true
      → x.text_lt
          (sorted_pair sender_id req.recipient_id).0
          (sorted_pair sender_id req.recipient_id).1
        ≡ true
      → find_row (is_conversation i.conversation_id) s.working.conversations ≡ none
      → (d' : Db) × (c : Conversation) × (get_or_create_conversation x i sender_id req.recipient_id
            s
          ≡ (ok c, record s { working = d' }))
        × Holds x
            (sorted_pair sender_id req.recipient_id).0
            (sorted_pair sender_id req.recipient_id).1
            s.working
            d'
            c
  unfolding get_or_create_conversation
  conversation_there s v short short' sorted fresh =
      let (a, b) = pair_fits sender_id req.recipient_id short short' in
      elim (insert_conversation_lem x pair_row s.working v) [
        | inl bad ↦ absurd (conversation_inserts pair_row s.working a b sorted fresh bad)
        | inr (d', c, good, h) ↦ (d', c, rw (good, h.selected) refl, h)
      ]

  announce_answers :
      (m : Message) (s : Session)
      → str_eq req.recipient_id sender_id ≡ false
      → (announce x k i sender_id req m s).0 ≡ ok (to_out x k m, true)
  unfolding announce commit
  announce_answers m s differ =
      rw
        (enqueue_pair i.staged_at req.recipient_id sender_id "message.new"
          (message_data (to_out x k m)) s differ)
        refl

  insert_new_answers :
      (c : Conversation) (mime : Option String) (s : Session)
      → str_eq req.recipient_id sender_id ≡ false
      → column_text 64 sender_id ≡ true
      → column_text 64 req.recipient_id ≡ true
      → column_text 64 req.client_msg_id ≡ true
      → unbounded req.body ≡ true
      → fits 512 req.attachment_key ≡ true
      → fits 100 mime ≡ true
      → (is_some req.body || is_some req.attachment_key) ≡ true
      → find_row (request_key sender_id req) s.working.messages ≡ none
      → find_row (has_id i.message_id) s.working.messages ≡ none
      → (insert_new x k i sender_id req mime c s).0
        ≡ ok (to_out x k (new_message i sender_id req c mime), true)
  unfolding insert_new new_message insert_message message_columns_fit has_content
  insert_new_answers c mime s differ a b e body key m content new fresh =
      let row = new_message i sender_id req c mime in
      let stored : insert_message row s.working ≡ ok (some row, with_message row s.working) =
        ground arith in
      rw stored (announce_answers row (record s { working = with_message row s.working }) differ)

  insert_after :
      (c : Conversation) (mime : Option String) (s : Session) (d' : Db)
      {r : Result (MessageOut × Bool)}
      → get_or_create_conversation x i sender_id req.recipient_id s
        ≡ (ok c, record s { working = d' })
      → (insert_new x k i sender_id req mime c (record s { working = d' })).0 ≡ r
      → (insert_and_announce x k i sender_id req mime s).0 ≡ r
  unfolding insert_and_announce
  insert_after c mime s d' got h = rw got h

  -- A send that passes the checks stores its message and answers with it: its texts fit the columns
  -- and it has content, its attachment passes, the database's collation orders the two users as the
  -- code does, no message of its client_msg_id is there, and the two new identifiers are new, also
  -- after what the other sessions commit before the first write.
  pub send_message_stores :
      (st : Settings) (d : Db) (mime : Option String)
      → IsValid x d
      → Rely x i.meanwhile
      → check_request x st sender_id req (open_session d) ≡ (ok tt, open_session d)
      → attachment_mime x st sender_id req.attachment_key (open_session d)
        ≡ (ok mime, open_session d)
      → str_eq req.recipient_id sender_id ≡ false
      → column_text 64 sender_id ≡ true
      → column_text 64 req.recipient_id ≡ true
      → column_text 64 req.client_msg_id ≡ true
      → unbounded req.body ≡ true
      → fits 512 req.attachment_key ≡ true
      → fits 100 mime ≡ true
      → (is_some req.body || is_some req.attachment_key) ≡ true
      → x.text_lt
          (sorted_pair sender_id req.recipient_id).0
          (sorted_pair sender_id req.recipient_id).1
        ≡ true
      → find_row (request_key sender_id req) d.messages ≡ none
      → find_row (request_key sender_id req) (i.meanwhile d).messages ≡ none
      → find_row (has_id i.message_id) (i.meanwhile d).messages ≡ none
      → find_row (is_conversation i.conversation_id) (i.meanwhile d).conversations ≡ none
      → (c : Conversation) × (send_result x k i sender_id req st d
          ≡ ok (to_out x k (new_message i sender_id req c mime), true))
  unfolding send_message
  send_message_stores st d mime v meanwhile checked attached differ a b e body key m content sorted
        new new' fresh fresh' =
      let s = open_session d in
      let t : Session = record s { committed = i.meanwhile d; working = i.meanwhile d } in
      let (d', c, got, h) = conversation_there t (meanwhile.keeps d v) a b sorted fresh' in
      (
        c,
        rw (checked, send_result)
            (rw (by_client_msg_id_lem sender_id req.client_msg_id s v.client_msg_ids) (
              rw new (
                rw attached (
                  insert_after c mime t d' got (
                    insert_new_answers c mime (record t { working = d' }) differ a b e body key m
                      content
                      (subst (λ ms. find_row (request_key sender_id req) ms ≡ none) (sym h.messages)
                        new')
                      (subst (λ ms. find_row (has_id i.message_id) ms ≡ none) (sym h.messages)
                        fresh)))))),
      )
