-- ===== src/Api/Demo.antt =====
-- GET /v1/demo/token: the tokens that it hands out.
use fastapi_realtime_chat_ba.Prelude.{
  ℕ, ◌+◌, ◌≤◌, ◌<◌, String, true, false, Option, ◌≡◌, refl, sym, ap, subst, ◌∙◌, arith, ◌⊎◌, inl,
  inr, str_eq, eq_iff, Bool-cases,
}
use fastapi_realtime_chat_ba.Errors.{ok}
use fastapi_realtime_chat_ba.Settings.{Settings}
use fastapi_realtime_chat_ba.Auth.{is_user_char, is_user_id, verify, mint_token, minted_claims}
use fastapi_realtime_chat_ba.Auth.Tokens.{IsDecoded, IsPlain, minted_verifies}
use fastapi_realtime_chat_ba.Api.{
  Reply, answered, failed, reply_of, HttpRequest, demo_served, is_demo_user, demo_ttl, demo_out,
  demo_token, demo_route,
}
use fastapi_realtime_chat_ba.Api.Schemas.{TokenOut}

demo_id : (user : String) → is_demo_user user ≡ true → is_user_id user ≡ true
unfolding is_user_id is_user_char
demo_id user h = elim (Bool-cases (str_eq user "alice")) [
  | inl alice ↦ subst (λ u. is_user_id u ≡ true) (sym ((eq_iff user "alice").0 alice)) refl
  | inr other ↦
      let bob : str_eq user "bob" ≡ true = ground arith in
      subst (λ u. is_user_id u ≡ true) (sym ((eq_iff user "bob").0 bob)) refl
]

abbrev token_of : Reply TokenOut → String
token_of (answered status t) = t.access_token
token_of (failed e) = ""

module _ (request_id : Option String) (r : HttpRequest) (st : Settings) (user : String) where
  served_token :
      (t : TokenOut)
      → demo_route request_id r st user ≡ answered 200 t
      → (demo_served st ≡ true)
        × (is_demo_user user ≡ true)
        × (t.access_token
            ≡ mint_token r.jwt r.seconds user st.jwt_secret demo_ttl st.jwt_user_claim st.jwt_issuer
                st.jwt_audience)
  unfolding demo_route demo_token reply_of
  served_token t h = elim (Bool-cases (demo_served st)) [
    | inr unserved ↦ absurd (ground arith)
    | inl served ↦ elim (Bool-cases (is_demo_user user)) [
      | inr stranger ↦ absurd (ground arith)
      | inl known ↦
          let e : demo_route request_id r st user ≡ answered 200 (demo_out r st user) =
            rw (served, demo_route) (rw known refl) in
          (served, known, ap token_of (sym h ∙ e))
    ]
  ]

  -- The token of the demo, where the application serves it, is accepted by the server for the twelve
  -- hours that it promises and names its user, who is alice or bob: for a PyJWT that decodes what it
  -- encoded, a user claim that is no registered claim with a meaning of its own, and an issuer and an
  -- audience that are unset or not empty.
  pub demo_token_verifies :
      (t : TokenOut) (later : ℕ)
      → demo_route request_id r st user ≡ answered 200 t
      → str_eq st.jwt_user_claim "iat" ≡ false
      → str_eq st.jwt_user_claim "exp" ≡ false
      → str_eq st.jwt_user_claim "iss" ≡ false
      → str_eq st.jwt_user_claim "aud" ≡ false
      → str_eq st.jwt_user_claim "nbf" ≡ false
      → IsPlain st.jwt_issuer
      → IsPlain st.jwt_audience
      → r.seconds ≤ later
      → later < r.seconds + 43200
      → IsDecoded r.jwt later
          (minted_claims r.seconds user 43200 st.jwt_user_claim st.jwt_issuer st.jwt_audience)
          st.jwt_secret
      → (verify r.jwt st later t.access_token ≡ ok user) × ((user ≡ "alice") ⊎ (user ≡ "bob"))
  demo_token_verifies t later h iat exp iss aud nbf issuer audience late soon decodes =
      let (served, known, minted) = served_token t h in
      (
        ap (verify r.jwt st later) minted
            ∙ minted_verifies r.jwt st r.seconds 43200 user later (ground arith)
                (demo_id user known) iat exp iss aud nbf issuer audience (omega arith) (omega arith)
                decodes,
        elim (Bool-cases (str_eq user "alice")) [
          | inl alice ↦ inl ((eq_iff user "alice").0 alice)
          | inr other ↦ inr ((eq_iff user "bob").0 (ground arith))
        ],
      )
