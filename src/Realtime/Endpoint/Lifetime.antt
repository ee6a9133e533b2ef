-- ===== src/Realtime/Endpoint/Lifetime.antt =====
-- A WebSocket leaves no trace in the hub.
use fastapi_realtime_chat_ba.Prelude.{
  ℕ, String, true, false, ◌&&◌, Option, some, none, List, [], ◌∷◌, ◌≡◌, refl, sym, ap, ◌∙◌, arith,
  ◌⊎◌, inl, inr, ◌==◌, str_eq, eq_refl, Bool-cases, is_nil,
}
use fastapi_realtime_chat_ba.Errors.{ok, err, raised, unexpected, AppError, token_rejected}
use fastapi_realtime_chat_ba.Settings.{Settings}
use fastapi_realtime_chat_ba.Auth.{
  JwtPackage, Jwt, fine, jwt_error, escapes, Claim, text_claim, number, other, Claims, claim_at,
  no_user, pattern_match, decoded, user_of_claim, user_of_claims, verify, websocket_token,
}
use fastapi_realtime_chat_ba.Realtime.Hub.{Hub, Event, joins, leaves, step, steps}
use fastapi_realtime_chat_ba.Realtime.Hub.Members.{
  registered, member_after, member_from, steps-member,
}
use fastapi_realtime_chat_ba.Realtime.Endpoint.{
  closed, ran, raises, Served, serve, with_token, chat_socket,
}

-- one step of a hub, on the membership of a connection
step-member :
    (e : Event) (h : Hub) (u : String) (j : ℕ)
    → registered u j (step e h).registry ≡ member_after e u j (registered u j h.registry)
unfolding steps
step-member e h u j = steps-member (e ∷ []) h u j

-- What a connection leaves: itself it is not registered, another is as the other events left it.
abbrev pub NoTrace : String → ℕ → List Event → Hub → Hub → Type 0
NoTrace user i meanwhile h h' =
    (registered user i h'.registry ≡ false)
    × ((u : String) (j : ℕ)
        → (str_eq u user && j == i) ≡ false
        → registered u j h'.registry ≡ registered u j (steps meanwhile h).registry)

-- There is no token, or an empty one.
abbrev pub HasNoToken : Option String → Type 0
HasNoToken token = (token ≡ none) ⊎ ((t : String) × (token ≡ some t) × (is_nil t ≡ true))

-- The four ends of a WebSocket.
pub data Life (j : JwtPackage) (s : Settings) (now i : ℕ) (meanwhile : List Event) (h : Hub)
    (token : Option String) (r : Served) : Type 0 where
  without_token :
      HasNoToken token
      → r.ended ≡ closed 4401 "missing token"
      → r.hub ≡ h
      → Life j s now i meanwhile h token r
  rejected :
      (t : String) (e : AppError)
      → token ≡ some t
      → is_nil t ≡ false
      → verify j s now t ≡ err (raised e)
      → r.ended ≡ closed 4401 e.code
      → r.hub ≡ h
      → Life j s now i meanwhile h token r
  broken :
      (t : String)
      → token ≡ some t
      → is_nil t ≡ false
      → verify j s now t ≡ err unexpected
      → r.ended ≡ raises unexpected
      → r.hub ≡ h
      → Life j s now i meanwhile h token r
  lived :
      (t user : String)
      → token ≡ some t
      → is_nil t ≡ false
      → verify j s now t ≡ ok user
      → r.ended ≡ ran user
      → NoTrace user i meanwhile h r.hub
      → Life j s now i meanwhile h token r

serve-NoTrace :
    (user : String) (i : ℕ) (meanwhile : List Event) (h : Hub)
    → NoTrace user i meanwhile h (step (leaves user i) (steps meanwhile (step (joins user i) h)))
serve-NoTrace user i meanwhile h =
    let h1 = step (joins user i) h in
    let h2 = steps meanwhile h1 in
    (
      step-member (leaves user i) h2 user i ∙ ground (arith, eq_refl user),
      λ u j other.
          step-member (leaves user i) h2 u j
          ∙ rw other (
              steps-member meanwhile h1 u j
              ∙ ap (member_from meanwhile u j) (step-member (joins user i) h u j ∙ rw other refl)
              ∙ sym (steps-member meanwhile h u j)),
    )

-- What `verify` raises is an AppError, or what escapes PyJWT.
user_of_claim_cases :
    (s : Settings) (c : Option Claim)
    → ((u : String) × (user_of_claim s c ≡ ok u))
      ⊎ ((e : AppError) × (user_of_claim s c ≡ err (raised e)))
unfolding user_of_claim
user_of_claim_cases s none = inr (no_user s, refl)
user_of_claim_cases s (some (number n)) = inr (no_user s, refl)
user_of_claim_cases s (some other) = inr (no_user s, refl)
user_of_claim_cases s (some (text_claim u)) = elim (Bool-cases (pattern_match u)) [
  | inl good ↦ inl (u, rw good refl)
  | inr bad ↦ inr (no_user s, rw bad refl)
]

verify_cases :
    (j : JwtPackage) (s : Settings) (now : ℕ) (t : String)
    → ((u : String) × (verify j s now t ≡ ok u))
      ⊎ (((e : AppError) × (verify j s now t ≡ err (raised e)))
          ⊎ (verify j s now t ≡ err unexpected))
unfolding verify user_of_claims
verify_cases j s now t = claims_cases (decoded j s now t)
  where
    claims_cases :
        (o : Jwt Claims)
        → ((u : String) × (user_of_claims s o ≡ ok u))
          ⊎ (((e : AppError) × (user_of_claims s o ≡ err (raised e)))
              ⊎ (user_of_claims s o ≡ err unexpected))
    claims_cases (jwt_error why) = inr (
        inl (
          record { status_code = 401; code = "invalid_token"; message = token_rejected why },
          refl,
        ))
    claims_cases escapes = inr (inr refl)
    claims_cases (fine claims) = elim (user_of_claim_cases s (claim_at s.jwt_user_claim claims)) [
      | inl good ↦ inl good
      | inr bad ↦ inr (inl bad)
    ]

module _ (j : JwtPackage) (s : Settings) (now i : ℕ) (meanwhile : List Event) (h : Hub) where
  with_token-Life :
      (p : Option String × Option String)
      → Life j s now i meanwhile h p.0 (with_token j s now i meanwhile h p)
  unfolding with_token serve
  with_token-Life (none, sub) = without_token (inl refl) refl refl
  with_token-Life (some t, sub) = elim (Bool-cases (is_nil t)) [
    | inl empty ↦ rw (empty, with_token) (without_token (inr (t, refl, empty)) refl refl)
    | inr text ↦ elim (verify_cases j s now t) [
      | inl (user, good) ↦
          rw (text, with_token)
            (rw good (lived t user refl text good refl (serve-NoTrace user i meanwhile h)))
      | inr (inl (e, bad)) ↦ rw (text, with_token) (rw bad (rejected t e refl text bad refl refl))
      | inr (inr bad) ↦ rw (text, with_token) (rw bad (broken t refl text bad refl refl))
    ]
  ]

  -- A WebSocket that brings no token, or an empty one, is closed with 4401 and "missing token", one
  -- whose token `verify` rejects with 4401 and the code of the error, and one where another exception
  -- than PyJWT's own escapes `verify` raises it; the hub is then as before. Exactly for the tokens that
  -- `verify` accepts the session runs, for the user of the token, and at its end its connection is not
  -- registered and every other one is as the other events of the time alone leave it.
  pub chat_socket-Life :
      (header : String) (query : Option String)
      → Life j s now i meanwhile h
          (websocket_token header query).0
          (chat_socket j s now header query i meanwhile h)
  unfolding chat_socket
  chat_socket-Life header query = with_token-Life (websocket_token header query)
