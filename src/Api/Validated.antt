-- ===== src/Api/Validated.antt =====
-- What a validated SendMessageRequest guarantees to the chat service.
use fastapi_realtime_chat_ba.Prelude.{
  String, Bool, true, false, not, ◌&&◌, ◌||◌, Option, some, none, ◌≡◌, refl, subst, arith, ◌⊎◌, inl,
  inr, no_nul, is_nil, strip, Bool-cases,
}
use fastapi_realtime_chat_ba.Auth.{is_user_id}
use fastapi_realtime_chat_ba.Chat.Statements.{is_some}
use fastapi_realtime_chat_ba.Chat.Common.{SendMessageRequest}
use fastapi_realtime_chat_ba.Api.Schemas.{
  length_between, key_fits, checked_body, with_body, has_request_content, valid_send,
}

-- A body of a text without NUL that is not blank, or none.
abbrev pub body_is_text : Option String → Bool
body_is_text none = true
body_is_text (some body) = no_nul body && not (is_nil (strip body))

-- a body of blanks
abbrev pub is_blank : Option String → Bool
is_blank none = false
is_blank (some body) = is_nil (strip body)

-- What the validation of `req` into `out` promises: `out` is `req` but for a blank body, its texts are
-- well formed and it has content, and to validate it again changes nothing.
pub record Checked (req out : SendMessageRequest) : Type 0 where
  pub same_recipient : out.recipient_id ≡ req.recipient_id
  pub same_id : out.client_msg_id ≡ req.client_msg_id
  pub same_key : out.attachment_key ≡ req.attachment_key
  pub recipient : is_user_id out.recipient_id ≡ true
  pub id_fits : length_between 1 64 out.client_msg_id ≡ true
  pub key : key_fits out.attachment_key ≡ true
  pub body : body_is_text out.body ≡ true
  pub same_body : (out.body ≡ req.body) ⊎ ((out.body ≡ none) × (is_blank req.body ≡ true))
  pub content : (is_some out.body || is_some out.attachment_key) ≡ true
  pub again : valid_send out ≡ some out

checked_body_text : (b b' : Option String) → checked_body b ≡ some b' → body_is_text b' ≡ true
unfolding checked_body
checked_body_text none b' h = ground arith
checked_body_text (some b) b' h = elim (Bool-cases (no_nul b)) [
  | inl clean ↦ elim (Bool-cases (is_nil (strip b))) [
    | inl blank ↦ ground arith
    | inr full ↦ ground arith
  ]
  | inr nul ↦ ground arith
]

checked_body_same :
    (b b' : Option String)
    → checked_body b ≡ some b'
    → (b' ≡ b) ⊎ ((b' ≡ none) × (is_blank b ≡ true))
unfolding checked_body
checked_body_same none b' h = inl (ground arith)
checked_body_same (some b) b' h = elim (Bool-cases (no_nul b)) [
  | inl clean ↦ elim (Bool-cases (is_nil (strip b))) [
    | inl blank ↦ inr (ground arith, blank)
    | inr full ↦ inl (ground arith)
  ]
  | inr nul ↦ absurd (ground arith)
]

checked_body_again : (b : Option String) → body_is_text b ≡ true → checked_body b ≡ some b
unfolding checked_body
checked_body_again none h = refl
checked_body_again (some b) h = ground arith

abbrev well_formed : SendMessageRequest → Bool
well_formed req =
    is_user_id req.recipient_id
    && length_between 1 64 req.client_msg_id
    && key_fits req.attachment_key

checked :
    (req : SendMessageRequest) (body : Option String)
    → well_formed req ≡ true
    → body_is_text body ≡ true
    → (body ≡ req.body) ⊎ ((body ≡ none) × (is_blank req.body ≡ true))
    → (is_some body || is_some req.attachment_key) ≡ true
    → Checked req (record req { body = body })
unfolding valid_send has_request_content
checked req body good fine same content = record {
  same_recipient = refl;
  same_id = refl;
  same_key = refl;
  recipient = ground arith;
  id_fits = ground arith;
  key = ground arith;
  body = fine;
  same_body = same;
  content = content;
  again = rw (good, checked_body_again body fine) (ground arith);
}

with_body_lem :
    (req out : SendMessageRequest) (o : Option (Option String))
    → with_body req o ≡ some out
    → (body : Option String) × (o ≡ some body)
      × ((is_some body || is_some req.attachment_key) ≡ true)
      × (record req { body = body } ≡ out)
with_body_lem req out none h = absurd (cc)
with_body_lem req out (some body) h =
    elim (Bool-cases (is_some body || is_some req.attachment_key)) [
      | inl content ↦ (body, refl, content, ground arith)
      | inr empty ↦ absurd (ground arith)
    ]

-- A validated request's texts are well formed, it has a body that is not blank or an attachment, and
-- it differs from the request that came in at most by a blank body, which is dropped; to validate it
-- again gives it back.
pub valid_send-Checked :
    (req out : SendMessageRequest) → valid_send req ≡ some out → Checked req out
unfolding valid_send has_request_content
valid_send-Checked req out h = elim (Bool-cases (well_formed req)) [
  | inl good ↦
      let (body, e, content, same) = with_body_lem req out (checked_body req.body) (ground arith) in
      subst (Checked req) same (
        checked req body good (checked_body_text req.body body e)
          (checked_body_same req.body body e) content)
  | inr bad ↦ absurd (ground arith)
]
