-- ===== src/Auth/Tokens.antt =====
-- Minted tokens come back, and the token of a WebSocket is the one that its client sent.
use Prim.Native.String.{◌++◌ as str_append}
use text.Mathlib.TextLemmas.{nil-append, cons-append, append_assoc}
use fastapi_realtime_chat_ba.Prelude.{
  ℕ, ◌+◌, ◌≤◌, ◌<◌, String, Bool, true, false, not, Option, some, none, List, [], ◌∷◌, ◌≡◌, refl,
  ap, ◌∙◌, arith, ◌⊎◌, inl, inr, ◌==◌, str_eq, eq_iff, eq_refl, if◌then◌else◌, Bool-cases, every,
  is_nil, strip, split_at, is_space, strip_left, strip_right, strip_none, strip_space,
  split_at_none, split_at_piece,
}
use fastapi_realtime_chat_ba.Errors.{ok}
use fastapi_realtime_chat_ba.Settings.{Settings, is_hs256, given_text}
use fastapi_realtime_chat_ba.Auth.{
  is_user_id, pattern_match, Claim, text_claim, number, other, Claims, claim_at, set_claim,
  set_given, DecodeCall, fine, JwtPackage, jwk_client, key_with, key_and_algorithms, decode_call,
  decoded, user_of_claim, user_of_claims, verify, minted_claims, mint_token, websocket_token,
}

-- The two pieces of the header.
split_bearer :
    (t : String)
    → every (λ c. not (c == b',')) t ≡ true
    → split_at b',' (str_append "bearer, " t) ≡ "bearer" ∷ (String.◌∷◌ " " t ∷ [])
split_bearer t one =
    ap (split_at b',') (
      append_assoc "bearer" ", " t
      ∙ ap (λ z. str_append "bearer" z)
          (cons-append "," " " t
            ∙ ap (λ z. String.◌∷◌ "," z)
                (cons-append " " "" t ∙ ap (λ z. String.◌∷◌ " " z) (nil-append t))))
    ∙ split_at_piece b',' "bearer" "," (String.◌∷◌ " " t) refl refl
    ∙ ap (λ z. "bearer" ∷ z) (split_at_none b',' (String.◌∷◌ " " t) (ground arith))

space_is_space : is_space b' ' ≡ true
unfolding is_space
space_is_space = refl

bearer_strip : strip "bearer" ≡ "bearer"
unfolding strip strip_left strip_right is_space
bearer_strip = refl

-- A client that sends the header `bearer, <token>` is known by this token, and is answered with the
-- protocol `bearer`, whatever the query says: for any token without spaces and commas.
pub websocket_token_sent :
    (t : String) (query : Option String)
    → is_nil t ≡ false
    → every (λ c. not (is_space c)) t ≡ true
    → every (λ c. not (c == b',')) t ≡ true
    → websocket_token (str_append "bearer, " t) query ≡ (some t, some "bearer")
unfolding websocket_token
websocket_token_sent t query some_text solid one =
    let own = strip_space " " t space_is_space ∙ strip_none t solid in
    rw (split_bearer t one, bearer_strip, own) (ground (arith, eq_refl "bearer"))

abbrev pub is_text : String → Option Claim → Bool
is_text v none = false
is_text v (some (text_claim w)) = str_eq v w
is_text v (some (number n)) = false
is_text v (some other) = false

-- A claim that is asked for, if one is, is there.
abbrev pub asked_for : String → Option String → Claims → Bool
asked_for k none cs = true
asked_for k (some v) cs = is_text v (claim_at k cs)

-- What PyJWT documents of a token that it encoded with HS256: with the same secret and HS256 allowed,
-- it is decoded before the time of its claim `exp` and not before that of `iat`, both with the leeway,
-- if it has no claim `nbf` and the issuer and the audience that are asked for are those of its claims.
abbrev pub IsDecoded : JwtPackage → ℕ → Claims → String → Type 0
IsDecoded j now claims secret =
    (c : DecodeCall) (expires issued : ℕ)
    → c.token ≡ j.encode claims secret
    → c.key ≡ secret
    → c.algorithms ≡ "HS256" ∷ []
    → asked_for "iss" c.issuer claims ≡ true
    → asked_for "aud" c.audience claims ≡ true
    → (c.audience ≡ none → c.verify_aud ≡ false)
    → claim_at "exp" claims ≡ some (number expires)
    → now < expires + c.leeway
    → claim_at "iat" claims ≡ some (number issued)
    → issued ≤ now + c.leeway
    → claim_at "nbf" claims ≡ none
    → j.decode now c ≡ fine claims

claim_at-set_claim :
    (k i : String) (v : Claim) (cs : Claims)
    → claim_at k (set_claim i v cs) ≡ (if str_eq k i then some v else claim_at k cs)
claim_at-set_claim k i v [] = refl
claim_at-set_claim k i v (c ∷ cs) =
    ground (arith, eq_iff k i, eq_iff i c.0, eq_iff k c.0, claim_at-set_claim k i v cs)

-- Another claim than the one that is set stays.
claim_at-set_given :
    (k i : String) (o : Option String) (cs : Claims)
    → str_eq k i ≡ false
    → claim_at k (set_given i o cs) ≡ claim_at k cs
claim_at-set_given k i none cs h = refl
claim_at-set_given k i (some v) cs h = elim (Bool-cases (is_nil v)) [
  | inl e ↦ rw e refl
  | inr e ↦ rw e (claim_at-set_claim k i (text_claim v) cs ∙ rw h refl)
]

-- A setting that is unset or not empty.
abbrev pub IsPlain : Option String → Type 0
IsPlain o = (o ≡ none) ⊎ (given_text o ≡ true)

asked_for-set_given :
    (i : String) (o : Option String) (cs : Claims)
    → IsPlain o
    → asked_for i o (set_given i o cs) ≡ true
asked_for-set_given i none cs p = refl
asked_for-set_given i (some v) cs p =
    let full : is_nil v ≡ false = ground arith in
    rw full (ap (is_text v) (claim_at-set_claim i i (text_claim v) cs) ∙ rw (eq_refl i) (eq_refl v))

asked_for-same :
    (k : String) (o : Option String) (cs ds : Claims)
    → claim_at k cs ≡ claim_at k ds
    → asked_for k o cs ≡ asked_for k o ds
asked_for-same k none cs ds e = refl
asked_for-same k (some v) cs ds e = ap (is_text v) e

no_audience :
    (s : Settings) (token : String)
    → s.jwt_audience ≡ none
    → (decode_call s token (s.jwt_secret, "HS256" ∷ [])).verify_aud ≡ false
no_audience s token unset = rw unset refl

decoded_with :
    (j : JwtPackage) (s : Settings) (now : ℕ) (token : String) (k : String × List String)
    → key_with j s token (jwk_client s) ≡ fine k
    → decoded j s now token ≡ j.decode now (decode_call s token k)
unfolding decoded key_and_algorithms
decoded_with j s now token k e = rw (e, decoded) refl

-- Another claim than `iss` and `aud` is the one that was set before them.
claim_at-given :
    (k : String) (issuer audience : Option String) (cs : Claims)
    → str_eq k "iss" ≡ false
    → str_eq k "aud" ≡ false
    → claim_at k (set_given "aud" audience (set_given "iss" issuer cs)) ≡ claim_at k cs
claim_at-given k issuer audience cs a b =
    claim_at-set_given k "aud" audience (set_given "iss" issuer cs) b
    ∙ claim_at-set_given k "iss" issuer cs a

module _ (now : ℕ) (user : String) (ttl : ℕ) (user_claim : String)
    (issuer audience : Option String) where
  minted_exp :
      claim_at "exp" (minted_claims now user ttl user_claim issuer audience)
      ≡ some (number (now + ttl))
  unfolding minted_claims
  minted_exp =
      let single : Claims = (user_claim, text_claim user) ∷ [] in
      let mid : Claims = set_claim "iat" (number now) single in
      let base : Claims = set_claim "exp" (number (now + ttl)) mid in
      claim_at-given "exp" issuer audience base refl refl
      ∙ claim_at-set_claim "exp" "exp" (number (now + ttl)) mid

  minted_iat :
      claim_at "iat" (minted_claims now user ttl user_claim issuer audience) ≡ some (number now)
  unfolding minted_claims
  minted_iat =
      let single : Claims = (user_claim, text_claim user) ∷ [] in
      let mid : Claims = set_claim "iat" (number now) single in
      let base : Claims = set_claim "exp" (number (now + ttl)) mid in
      claim_at-given "iat" issuer audience base refl refl
      ∙ claim_at-set_claim "iat" "exp" (number (now + ttl)) mid
      ∙ claim_at-set_claim "iat" "iat" (number now) single

  minted_nbf :
      str_eq user_claim "nbf" ≡ false
      → claim_at "nbf" (minted_claims now user ttl user_claim issuer audience) ≡ none
  unfolding minted_claims
  minted_nbf free =
      let single : Claims = (user_claim, text_claim user) ∷ [] in
      let mid : Claims = set_claim "iat" (number now) single in
      let base : Claims = set_claim "exp" (number (now + ttl)) mid in
      let differ : str_eq "nbf" user_claim ≡ false =
        ground (arith, eq_iff user_claim "nbf", eq_iff "nbf" user_claim) in
      claim_at-given "nbf" issuer audience base refl refl
      ∙ claim_at-set_claim "nbf" "exp" (number (now + ttl)) mid
      ∙ claim_at-set_claim "nbf" "iat" (number now) single
      ∙ rw differ refl

module _ (j : JwtPackage) (s : Settings) (now ttl : ℕ) (user : String) where
  -- A token that the server mints is accepted by the server, in mode hs256, from the time that it is
  -- minted until its lifetime is over, both with the leeway, and names the user: for a PyJWT that
  -- decodes what it encoded, a user id, a user claim that is no registered claim with a meaning of its
  -- own, and an issuer and an audience that are unset or not empty.
  pub minted_verifies :
      (later : ℕ)
      → is_hs256 s.auth_mode ≡ true
      → is_user_id user ≡ true
      → str_eq s.jwt_user_claim "iat" ≡ false
      → str_eq s.jwt_user_claim "exp" ≡ false
      → str_eq s.jwt_user_claim "iss" ≡ false
      → str_eq s.jwt_user_claim "aud" ≡ false
      → str_eq s.jwt_user_claim "nbf" ≡ false
      → IsPlain s.jwt_issuer
      → IsPlain s.jwt_audience
      → now ≤ later + s.jwt_leeway_seconds
      → later < now + ttl + s.jwt_leeway_seconds
      → IsDecoded j later
          (minted_claims now user ttl s.jwt_user_claim s.jwt_issuer s.jwt_audience)
          s.jwt_secret
      → verify j s later
          (mint_token j now user s.jwt_secret ttl s.jwt_user_claim s.jwt_issuer s.jwt_audience)
        ≡ ok user
  unfolding verify decoded key_and_algorithms mint_token user_of_claims user_of_claim pattern_match
      minted_claims
  minted_verifies later mode good iat exp iss aud nbf issuer audience late soon decodes =
      let token =
        mint_token j now user s.jwt_secret ttl s.jwt_user_claim s.jwt_issuer s.jwt_audience in
      let base : Claims =
        set_claim "exp" (number (now + ttl))
          (set_claim "iat" (number now) ((s.jwt_user_claim, text_claim user) ∷ [])) in
      let inner : Claims = set_given "iss" s.jwt_issuer base in
      let all : Claims = set_given "aud" s.jwt_audience inner in
      let no_client : jwk_client s ≡ none = rw mode refl in
      let call = decode_call s token (s.jwt_secret, "HS256" ∷ []) in
      let issuer_there : asked_for "iss" s.jwt_issuer all ≡ true =
        asked_for-same "iss" s.jwt_issuer all inner
          (claim_at-set_given "iss" "aud" s.jwt_audience inner refl)
        ∙ asked_for-set_given "iss" s.jwt_issuer base issuer in
      let audience_there : asked_for "aud" s.jwt_audience all ≡ true =
        asked_for-set_given "aud" s.jwt_audience inner audience in
      let read : j.decode later call ≡ fine all =
        decodes call (now + ttl) now refl refl refl issuer_there audience_there
          (no_audience s token)
          (minted_exp now user ttl s.jwt_user_claim s.jwt_issuer s.jwt_audience) soon
          (minted_iat now user ttl s.jwt_user_claim s.jwt_issuer s.jwt_audience) late
          (minted_nbf now user ttl s.jwt_user_claim s.jwt_issuer s.jwt_audience nbf) in
      let single : Claims = (s.jwt_user_claim, text_claim user) ∷ [] in
      let mid : Claims = set_claim "iat" (number now) single in
      let e1 = claim_at-set_claim s.jwt_user_claim "exp" (number (now + ttl)) mid in
      let e2 = claim_at-set_claim s.jwt_user_claim "iat" (number now) single in
      let at_base : claim_at s.jwt_user_claim base ≡ some (text_claim user) =
        rw (e1, exp, e2, iat, eq_refl s.jwt_user_claim) refl in
      let named : claim_at s.jwt_user_claim all ≡ some (text_claim user) =
        claim_at-set_given s.jwt_user_claim "aud" s.jwt_audience inner aud
        ∙ claim_at-set_given s.jwt_user_claim "iss" s.jwt_issuer base iss
        ∙ at_base in
      let key : key_with j s token (jwk_client s) ≡ fine (s.jwt_secret, "HS256" ∷ []) =
        ap (key_with j s token) no_client in
      let got : decoded j s later token ≡ fine all =
        decoded_with j s later token (s.jwt_secret, "HS256" ∷ []) key ∙ read in
      ap (user_of_claims s) got ∙ ap (user_of_claim s) named ∙ rw good refl
