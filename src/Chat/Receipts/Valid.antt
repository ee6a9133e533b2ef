-- ===== src/Chat/Receipts/Valid.antt =====
-- The updates of the receipts keep the invariant of the database.
use fastapi_realtime_chat_ba.Prelude.{
  String, Bool, true, ◌≡◌, refl, arith, UniqueBy-rows_set, All-rows_set,
}
use fastapi_realtime_chat_ba.Models.{Uuid, Time, Message, Db}
use fastapi_realtime_chat_ba.Externals.{Externals}
use fastapi_realtime_chat_ba.Chat.Statements.{has_content, update_messages}
use fastapi_realtime_chat_ba.Chat.Valid.{
  IsValid, InConversation, HasReceipts, same_id, same_client_msg_id,
}
use fastapi_realtime_chat_ba.Chat.Receipts.{awaits_delivery, deliver, is_unread_up_to, set_read}

-- An update of messages that changes only their receipts, and those as their status asks.
IsValid-update_messages :
    (x : Externals) (p : Message → Bool) (f : Message → Message) (d : Db)
    → ((m : Message) → (f m).id ≡ m.id)
    → ((m : Message) → (f m).sender_id ≡ m.sender_id)
    → ((m : Message) → (f m).client_msg_id ≡ m.client_msg_id)
    → ((m : Message) → has_content m ≡ true → has_content (f m) ≡ true)
    → ((m : Message) → p m ≡ true → HasReceipts m → HasReceipts (f m))
    → ((m : Message) → InConversation d.conversations m → InConversation d.conversations (f m))
    → IsValid x d
    → IsValid x (update_messages p f d)
IsValid-update_messages x p f d id sender client content receipts member v = record {
  client_msg_ids =
      UniqueBy-rows_set same_client_msg_id p f d.messages (λ r q. rw (sender q, client q) refl)
        (λ r q. rw (sender r, client r) refl) v.client_msg_ids;
  ids =
      UniqueBy-rows_set same_id p f d.messages (λ r q. rw (id q) refl) (λ r q. rw (id r) refl)
        v.ids;
  pairs = v.pairs;
  conversation_ids = v.conversation_ids;
  outbox_ids = v.outbox_ids;
  below_next = v.below_next;
  sorted_pairs = v.sorted_pairs;
  contents = All-rows_set p f d.messages (λ m _. content m) v.contents;
  receipts = All-rows_set p f d.messages receipts v.receipts;
  members = All-rows_set p f d.messages (λ m _. member m) v.members;
}

pub deliver-IsValid :
    (x : Externals) (now : Time) (user_id : String) (id : Uuid) (d : Db)
    → IsValid x d
    → IsValid x (update_messages (awaits_delivery user_id id) (deliver now) d)
unfolding deliver awaits_delivery has_content
deliver-IsValid x now user_id id d v =
    IsValid-update_messages x (awaits_delivery user_id id) (deliver now) d (λ m. refl) (λ m. refl)
      (λ m. refl) (λ m h. h) (λ m h r. (refl, ground arith))
      (λ m c. record {
        conversation = c.conversation;
        found = c.found;
        of_sender = c.of_sender;
        peer = c.peer;
      })
      v

pub read-IsValid :
    (x : Externals) (now : Time) (c : Uuid) (user_id : String) (anchor : Message) (d : Db)
    → IsValid x d
    → IsValid x (update_messages (is_unread_up_to c user_id anchor) (set_read now) d)
unfolding set_read is_unread_up_to has_content
read-IsValid x now c user_id anchor d v =
    IsValid-update_messages x (is_unread_up_to c user_id anchor) (set_read now) d (λ m. refl)
      (λ m. refl) (λ m. refl) (λ m h. h) (λ m h r. (ground arith, refl))
      (λ m c. record {
        conversation = c.conversation;
        found = c.found;
        of_sender = c.of_sender;
        peer = c.peer;
      })
      v
