-- ===== src/Chat/Send/Conversations.antt =====
-- `_get_or_create_conversation`: the conversation of a pair is there afterwards, once.
use fastapi_realtime_chat_ba.Prelude.{
  String, true, false, ◌&&◌, some, none, List, [], ◌∷◌, ◌≡◌, refl, arith, ◌⊎◌, inl, inr, find_row,
  rows_where, All-map, rows_where_unique, Bool-cases, Option-cases, eq_refl, ◌==◌, find_row_sound,
  rows_where-nil,
}
use fastapi_realtime_chat_ba.Errors.{ok, err, integrity_error}
use fastapi_realtime_chat_ba.Models.{Conversation, Message, Db}
use fastapi_realtime_chat_ba.Externals.{Externals}
use fastapi_realtime_chat_ba.Chat.Session.{Session}
use fastapi_realtime_chat_ba.Chat.Statements.{
  is_pair, is_conversation, insert_conversation, sorted_pair, conversation_columns_fit,
}
use fastapi_realtime_chat_ba.Chat.Valid.{
  IsValid, InConversation, same_pair, pair-Keyed, find_conversation,
}
use fastapi_realtime_chat_ba.Chat.Send.{SendInputs, get_or_create_conversation}

InConversation-cons :
    (c : Conversation) (cs : List Conversation) (m : Message)
    → find_row (is_conversation c.id) cs ≡ none
    → InConversation cs m
    → InConversation (c ∷ cs) m
InConversation-cons c cs m fresh v = record {
  conversation = v.conversation;
  found = later (ground arith);
  of_sender = v.of_sender;
  peer = v.peer;
}
  where
    later :
        (c.id == m.conversation_id) ≡ false
        → find_row (is_conversation m.conversation_id) (c ∷ cs) ≡ some v.conversation
    later e = ground (arith, v.found)

-- The database before and after: conversation `c` is there, and nothing else has changed.
pub record Holds (x : Externals) (user_a user_b : String) (d d' : Db) (c : Conversation)
    : Type 0 where
  pub valid : IsValid x d'
  pub messages : d'.messages ≡ d.messages
  pub outbox : d'.outbox ≡ d.outbox
  pub next : d'.next_outbox_id ≡ d.next_outbox_id
  pub selected : rows_where (is_pair user_a user_b) d'.conversations ≡ c ∷ []
  pub found : find_row (is_conversation c.id) d'.conversations ≡ some c
  pub pair : is_pair user_a user_b c ≡ true

is_pair_self : (c : Conversation) → is_pair c.user_a c.user_b c ≡ true
is_pair_self c = ground (arith, eq_refl c.user_a, eq_refl c.user_b)

Holds-old :
    (x : Externals) (a b : String) (d : Db) (c : Conversation)
    → IsValid x d
    → find_row (is_pair a b) d.conversations ≡ some c
    → Holds x a b d d c
Holds-old x a b d c v h = record {
  valid = v;
  messages = refl;
  outbox = refl;
  next = refl;
  selected =
      elim (rows_where_unique same_pair (is_pair a b) d.conversations (pair-Keyed a b) v.pairs) [
        | inl (missing, _) ↦ cc
        | inr (e, same, only) ↦ ground arith
      ];
  found = find_conversation (is_pair a b) d.conversations c v.conversation_ids h;
  pair = find_row_sound (is_pair a b) d.conversations c h;
}

abbrev with_conversation : Conversation → Db → Db
with_conversation c d = record d { conversations = c ∷ d.conversations }

Holds-new :
    (x : Externals) (c : Conversation) (d : Db)
    → IsValid x d
    → x.text_lt c.user_a c.user_b ≡ true
    → find_row (is_pair c.user_a c.user_b) d.conversations ≡ none
    → find_row (is_conversation c.id) d.conversations ≡ none
    → Holds x c.user_a c.user_b d (with_conversation c d) c
Holds-new x c d v sorted no_pair no_id = record {
  valid = record {
    client_msg_ids = v.client_msg_ids;
    ids = v.ids;
    pairs = (no_pair, v.pairs);
    conversation_ids = (no_id, v.conversation_ids);
    outbox_ids = v.outbox_ids;
    below_next = v.below_next;
    sorted_pairs = (sorted, v.sorted_pairs);
    contents = v.contents;
    receipts = v.receipts;
    members = All-map d.messages (λ m. InConversation-cons c d.conversations m no_id) v.members;
  };
  messages = refl;
  outbox = refl;
  next = refl;
  selected = ground (arith, is_pair_self c, rows_where-nil _ d.conversations no_pair);
  found = ground arith;
  pair = is_pair_self c;
}

-- An insert that does not fail leaves one conversation of the pair.
pub insert_conversation_lem :
    (x : Externals) (c : Conversation) (d : Db)
    → IsValid x d
    → (insert_conversation x c d ≡ err integrity_error)
      ⊎ ((d' : Db) × (e : Conversation) × (insert_conversation x c d ≡ ok d')
          × Holds x c.user_a c.user_b d d' e)
unfolding insert_conversation
insert_conversation_lem x c d v =
    elim (Option-cases (find_row (is_pair c.user_a c.user_b) d.conversations)) [
      | inr (e, there) ↦
          elim (Bool-cases (conversation_columns_fit c && x.text_lt c.user_a c.user_b)) [
            | inl fit ↦ inr (d, e, ground arith, Holds-old x c.user_a c.user_b d e v there)
            | inr bad ↦ inl (ground arith)
          ]
      | inl no_pair ↦ elim (Option-cases (find_row (is_conversation c.id) d.conversations)) [
        | inr (e, there) ↦ inl (ground arith)
        | inl no_id ↦ elim (Bool-cases (conversation_columns_fit c)) [
          | inr bad ↦ inl (ground arith)
          | inl fit ↦ elim (Bool-cases (x.text_lt c.user_a c.user_b)) [
            | inr bad ↦ inl (ground arith)
            | inl sorted ↦
                inr (with_conversation c d, c, ground arith, Holds-new x c d v sorted no_pair no_id)
          ]
        ]
      ]
    ]

-- `_get_or_create_conversation` in a session: it fails and writes nothing, or returns the one
-- conversation of the pair.
pub get_or_create_conversation_lem :
    (x : Externals) (i : SendInputs) (u w : String) (s : Session)
    → IsValid x s.working
    → (get_or_create_conversation x i u w s ≡ (err integrity_error, s))
      ⊎ ((d' : Db) × (e : Conversation) × (get_or_create_conversation x i u w s
            ≡ (ok e, record s { working = d' }))
          × Holds x (sorted_pair u w).0 (sorted_pair u w).1 s.working d' e)
unfolding get_or_create_conversation
get_or_create_conversation_lem x i u w s v = elim (insert_conversation_lem x new s.working v) [
  | inl bad ↦ inl (rw bad refl)
  | inr (d', e, good, h) ↦ inr (d', e, rw (good, h.selected) refl, h)
]
  where
    new : Conversation
    new = record {
      id = i.conversation_id;
      user_a = (sorted_pair u w).0;
      user_b = (sorted_pair u w).1;
      created_at = i.conversation_at;
    }
