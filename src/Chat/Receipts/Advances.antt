-- ===== src/Chat/Receipts/Advances.antt =====
-- The order of a message's states, and that the updates of the receipts follow it.
use fastapi_realtime_chat_ba.Prelude.{
  ℕ, ◌≤◌, String, Bool, true, Option, some, none, List, ◌≡◌, refl, ◌∙◌, sym, arith, ◌⊎◌, inl, inr,
  find_row, rows_set, All, All-find_row, find_row-rows_set_eq, Bool-cases,
}
use fastapi_realtime_chat_ba.Models.{Uuid, Time, Message, MessageStatus, sent, delivered, read}
use fastapi_realtime_chat_ba.Chat.Valid.{HasReceipts}
use fastapi_realtime_chat_ba.Chat.Rely.{SameContent, SameContent-refl, SameContent-trans}
use fastapi_realtime_chat_ba.Chat.Receipts.{awaits_delivery, deliver, is_unread_up_to, set_read}

abbrev pub rank : MessageStatus → ℕ
rank sent = 0
rank delivered = 1
rank read = 2

-- `n` is `m`, later: the status has not gone back, no time once set has changed, and the rest is the
-- same.
pub record Advances (m n : Message) : Type 0 where
  pub content : SameContent m n
  pub status : rank m.status ≤ rank n.status
  pub delivered_at : (m.delivered_at ≡ none) ⊎ (n.delivered_at ≡ m.delivered_at)
  pub read_at : (m.read_at ≡ none) ⊎ (n.read_at ≡ m.read_at)

pub Advances-refl : (m : Message) → Advances m m
Advances-refl m = record {
  content = SameContent-refl m;
  status = omega arith;
  delivered_at = inr refl;
  read_at = inr refl;
}

-- A time that is set stays, from one message to the next.
stays : {l m n : Option Time} → (l ≡ none) ⊎ (m ≡ l) → (m ≡ none) ⊎ (n ≡ m) → (l ≡ none) ⊎ (n ≡ l)
stays (inl e) h = inl e
stays (inr e) (inl h) = inl (sym e ∙ h)
stays (inr e) (inr h) = inr (h ∙ e)

Advances-trans : {l m n : Message} → Advances l m → Advances m n → Advances l n
Advances-trans a b = record {
  content = SameContent-trans a.content b.content;
  status = omega arith;
  delivered_at = stays a.delivered_at b.delivered_at;
  read_at = stays a.read_at b.read_at;
}

pub deliver-Advances :
    (now : Time) (user_id : String) (id : Uuid) (m : Message)
    → awaits_delivery user_id id m ≡ true
    → HasReceipts m
    → Advances m (deliver now m)
unfolding awaits_delivery deliver
deliver-Advances now user_id id m due r = record {
  content = record {
    id = refl;
    conversation = refl;
    sender = refl;
    client_msg_id = refl;
    recipient = refl;
    body = refl;
    attachment = refl;
    mime = refl;
    created = refl;
  };
  status = ground arith;
  delivered_at = inl (ground arith);
  read_at = inr refl;
}

pub set_read-Advances :
    (now : Time) (c : Uuid) (user_id : String) (anchor m : Message)
    → is_unread_up_to c user_id anchor m ≡ true
    → HasReceipts m
    → Advances m (set_read now m)
unfolding is_unread_up_to set_read
set_read-Advances now c user_id anchor m due r = record {
  content = record {
    id = refl;
    conversation = refl;
    sender = refl;
    client_msg_id = refl;
    recipient = refl;
    body = refl;
    attachment = refl;
    mime = refl;
    created = refl;
  };
  status = ground arith;
  delivered_at = ground arith;
  read_at = inl (ground arith);
}

-- Each message that `t` finds in the first list has advanced to one that it finds in the second.
abbrev pub Forward : (Message → Bool) → List Message → List Message → Type 0
Forward t ms ns =
    (m : Message) → find_row t ms ≡ some m → (n : Message) × (find_row t ns ≡ some n) × Advances m n

pub Forward-rows_set :
    (t p : Message → Bool) (f : Message → Message) (ms : List Message)
    → ((m : Message) → t (f m) ≡ t m)
    → ((m : Message) → p m ≡ true → HasReceipts m → Advances m (f m))
    → All HasReceipts ms
    → Forward t ms (rows_set p f ms)
Forward-rows_set t p f ms keep step r m found =
    let e = find_row-rows_set_eq t p f ms keep in
    elim (Bool-cases (p m)) [
      | inl hit ↦
          (f m, e ∙ rw (found, hit) refl, step m hit (All-find_row HasReceipts t ms m r found))
      | inr miss ↦ (m, e ∙ rw (found, miss) refl, Advances-refl m)
    ]

pub Forward-trans :
    (t : Message → Bool) (ls ms ns : List Message)
    → Forward t ls ms
    → Forward t ms ns
    → Forward t ls ns
Forward-trans t ls ms ns f g l found =
    let (m, found', a) = f l found in
    let (n, found'', b) = g m found' in (n, found'', Advances-trans a b)
