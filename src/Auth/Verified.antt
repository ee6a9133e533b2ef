-- ===== src/Auth/Verified.antt =====
-- Whom a token names, and with which key it was checked.
use Prim.Native.Char.{Char, code}
use Prim.Native.String.{◌++◌ as str_append}
use text.Mathlib.TextEquality.{Char-path}
use text.Mathlib.TextLemmas.{nil-append, cons-append}
use fastapi_realtime_chat_ba.Prelude.{
  ℕ, ◌≤◌, String, true, false, ◌&&◌, Option, some, none, List, [], ◌∷◌, ◌≡◌, refl, sym, ap, subst,
  ◌∙◌, arith, ◌⊎◌, inl, inr, ◌==◌, Bool-cases, Option-cases, every-append, text_length, is_nil,
}
use fastapi_realtime_chat_ba.Errors.{ok}
use fastapi_realtime_chat_ba.Settings.{
  Settings, AuthMode, hs256, jwks, is_hs256, given_text, check_auth,
}
use fastapi_realtime_chat_ba.Auth.{
  is_user_char, is_user_id, chop_newline, pattern_match, Claim, text_claim, number, other, Claims,
  claim_at, Jwt, fine, jwt_error, escapes, JwtPackage, DecodeCall, decode_call, jwk_client,
  with_algorithms, key_with, key_and_algorithms, decoded, user_of_claim, user_of_claims, verify,
}

-- A text ends in the newline that is chopped, or nothing is chopped.
chop_cases : (s : String) → (chop_newline s ≡ s) ⊎ (s ≡ str_append (chop_newline s) "\n")
unfolding chop_newline
chop_cases String.[] = inl refl
chop_cases (String.◌∷◌ c s) = elim (Bool-cases (is_nil s && code c == b'\n')) [
  | inl e ↦ inr (rw e (newline_alone c s e))
  | inr e ↦ rw e (elim (chop_cases s) [
    | inl same ↦ inl (ap (λ z. String.◌∷◌ c z) same)
    | inr split ↦ inr (ap (λ z. String.◌∷◌ c z) split ∙ sym (cons-append c (chop_newline s) "\n"))
  ])
]
  where
    newline_alone :
        (d : Char) (t : String)
        → (is_nil t && code d == b'\n') ≡ true
        → String.◌∷◌ d t ≡ str_append String.[] "\n"
    newline_alone d String.[] h =
        ap (λ z. String.◌∷◌ z String.[]) (Char-path d "\n" (ground arith)) ∙ sym (nil-append "\n")
    newline_alone d (String.◌∷◌ e t) h = cc

-- What the pattern lets through: a user id, or one with a newline behind it.
pub IsUser : String → Type 0
IsUser u = (is_user_id u ≡ true) ⊎ ((w : String) × (u ≡ str_append w "\n") × (is_user_id w ≡ true))

not_nil : (s : String) → is_nil (str_append s "\n") ≡ false
not_nil String.[] = refl
not_nil (String.◌∷◌ c s) = rw (cons-append c s "\n") refl

newline_is_no_user_char : is_user_char b'\n' ≡ false
unfolding is_user_char
newline_is_no_user_char = refl

given_text-true : (o : Option String) → given_text o ≡ true → (v : String) × (o ≡ some v)
given_text-true none h = absurd (cc)
given_text-true (some v) h = (v, refl)

chop_newline-append : (w : String) → chop_newline (str_append w "\n") ≡ w
unfolding chop_newline
chop_newline-append String.[] = refl
chop_newline-append (String.◌∷◌ c s) =
    rw (cons-append c s "\n") (ground (arith, chop_newline-append s, not_nil s))

mode_cases :
    (m : AuthMode) → ((m ≡ hs256) × (is_hs256 m ≡ true)) ⊎ ((m ≡ jwks) × (is_hs256 m ≡ false))
mode_cases hs256 = inl (refl, refl)
mode_cases jwks = inr (refl, refl)

pattern_match-IsUser : (u : String) → pattern_match u ≡ true → IsUser u
unfolding pattern_match IsUser
pattern_match-IsUser u h = elim (Bool-cases (is_user_id u)) [
  | inl good ↦ inl good
  | inr bad ↦ elim (chop_cases u) [
    | inl same ↦ absurd (let h' : is_user_id (chop_newline u) ≡ true = ground arith in cc)
    | inr split ↦ inr (chop_newline u, split, ground arith)
  ]
]

module _ (j : JwtPackage) (s : Settings) (now : ℕ) (token : String) where
  -- The one call of `jwt.decode` that accepted the token, and the claim that names the user.
  abbrev pub Named : String → Type 0
  Named u =
      (k : String × List String) × (call : DecodeCall) × (claims : Claims) × (key_and_algorithms j s
          token
        ≡ fine k)
      × (j.decode now call ≡ fine claims)
      × (call.token ≡ token)
      × (call.key ≡ k.0)
      × (call.algorithms ≡ k.1)
      × (call.issuer ≡ s.jwt_issuer)
      × (call.audience ≡ s.jwt_audience)
      × (call.leeway ≡ s.jwt_leeway_seconds)
      × ((s.jwt_audience ≡ none) ⊎ (call.verify_aud ≡ true))
      × (claim_at s.jwt_user_claim claims ≡ some (text_claim u))
      × IsUser u

  decoded_call :
      (claims : Claims)
      → decoded j s now token ≡ fine claims
      → (k : String × List String) × (key_and_algorithms j s token ≡ fine k)
        × (j.decode now (decode_call s token k) ≡ fine claims)
  unfolding decoded
  decoded_call claims h = by_key (key_and_algorithms j s token) refl
    where
      by_key :
          (r : Jwt (String × List String))
          → key_and_algorithms j s token ≡ r
          → (k : String × List String) × (key_and_algorithms j s token ≡ fine k)
            × (j.decode now (decode_call s token k) ≡ fine claims)
      by_key (fine k) e = (k, e, sym (rw (e, decoded) refl) ∙ h)
      by_key (jwt_error why) e =
          absurd (let stuck : decoded j s now token ≡ jwt_error why = rw (e, decoded) refl in cc)
      by_key escapes e =
          absurd (let stuck : decoded j s now token ≡ escapes = rw (e, decoded) refl in cc)

  audience_checked :
      (k : String × List String)
      → (s.jwt_audience ≡ none) ⊎ ((decode_call s token k).verify_aud ≡ true)
  audience_checked k = elim (Option-cases s.jwt_audience) [
    | inl unset ↦ inl unset
    | inr (a, set) ↦ inr (rw set refl)
  ]

  of_claim :
      (o : Option Claim) (u : String)
      → user_of_claim s o ≡ ok u
      → (o ≡ some (text_claim u)) × IsUser u
  unfolding user_of_claim
  of_claim none u h = absurd (cc)
  of_claim (some (number n)) u h = absurd (cc)
  of_claim (some other) u h = absurd (cc)
  of_claim (some (text_claim v)) u h = elim (Bool-cases (pattern_match v)) [
    | inl good ↦
        let same : v ≡ u = ground arith in
        (ap (λ z. some (text_claim z)) same, subst IsUser same (pattern_match-IsUser v good))
    | inr bad ↦ absurd (ground arith)
  ]

  -- A token that is accepted was decoded by PyJWT with the key and the algorithms of the mode and the
  -- issuer, the audience and the leeway of the settings, the audience being checked wherever one is
  -- set, and its user claim is a text: a user id, or a user id with a newline behind it.
  pub verify-Named : (u : String) → verify j s now token ≡ ok u → Named u
  unfolding verify user_of_claims
  verify-Named u h = by_decoded (decoded j s now token) refl h
    where
      by_decoded :
          (d : Jwt Claims) → decoded j s now token ≡ d → user_of_claims s d ≡ ok u → Named u
      by_decoded (jwt_error why) e g = absurd (cc)
      by_decoded escapes e g = absurd (cc)
      by_decoded (fine claims) e g =
          let c = of_claim (claim_at s.jwt_user_claim claims) u g in
          let (k, key, call) = decoded_call claims e in
          (
            k,
            decode_call s token k,
            claims,
            key,
            call,
            refl,
            refl,
            refl,
            refl,
            refl,
            refl,
            audience_checked k,
            c.0,
            c.1,
          )

  -- What the pattern means to refuse: a claim that is a user id with a newline behind it is accepted
  -- as it is, and is no user id.
  pub newline_accepted :
      (claims : Claims) (w : String)
      → decoded j s now token ≡ fine claims
      → is_user_id w ≡ true
      → claim_at s.jwt_user_claim claims ≡ some (text_claim (str_append w "\n"))
      → (verify j s now token ≡ ok (str_append w "\n")) × (is_user_id (str_append w "\n") ≡ false)
  unfolding verify user_of_claims user_of_claim pattern_match is_user_id
  newline_accepted claims w e good c = (
    rw (e, c) (rw (chop_newline-append w, good) (ground arith)),
    rw (every-append is_user_char w "\n", newline_is_no_user_char) (ground arith),
  )

  -- With settings that `_check_auth` passes, the key is the one of the mode: in mode hs256 the
  -- shared secret, which has at least 32 characters, for HS256 alone; in mode jwks never the shared
  -- secret, but a key of the identity provider, for the algorithms of the settings.
  pub key_of_mode :
      (k : String × List String)
      → check_auth s ≡ none
      → key_and_algorithms j s token ≡ fine k
      → ((s.auth_mode ≡ hs256)
          × (k.0 ≡ s.jwt_secret)
          × (k.1 ≡ "HS256" ∷ [])
          × (32 ≤ text_length s.jwt_secret))
        ⊎ ((s.auth_mode ≡ jwks)
            × (url : String) × (s.jwks_url ≡ some url)
            × (j.signing_key url token ≡ fine k.0)
            × (k.1 ≡ s.jwt_algorithms))
  unfolding check_auth key_and_algorithms
  key_of_mode k checked h = by_client (jwk_client s) refl (mode_cases s.auth_mode) h
    where
      key_of :
          (r : Jwt String)
          → with_algorithms s.jwt_algorithms r ≡ fine k
          → (r ≡ fine k.0) × (k.1 ≡ s.jwt_algorithms)
      key_of (jwt_error why) g = absurd (cc)
      key_of escapes g = absurd (cc)
      key_of (fine key) g =
          let same : (key, s.jwt_algorithms) ≡ k = ground arith in
          (ap (λ z. fine z.0) same, sym (ap (λ z. z.1) same))

      by_client :
          (o : Option String)
          → jwk_client s ≡ o
          → ((s.auth_mode ≡ hs256) × (is_hs256 s.auth_mode ≡ true))
            ⊎ ((s.auth_mode ≡ jwks) × (is_hs256 s.auth_mode ≡ false))
          → key_with j s token o ≡ fine k
          → ((s.auth_mode ≡ hs256)
              × (k.0 ≡ s.jwt_secret)
              × (k.1 ≡ "HS256" ∷ [])
              × (32 ≤ text_length s.jwt_secret))
            ⊎ ((s.auth_mode ≡ jwks)
                × (url : String) × (s.jwks_url ≡ some url)
                × (j.signing_key url token ≡ fine k.0)
                × (k.1 ≡ s.jwt_algorithms))
      by_client none e (inl (m, b)) g =
          let same : (s.jwt_secret, "HS256" ∷ []) ≡ k = ground arith in
          inl (m, sym (ap (λ z. z.0) same), sym (ap (λ z. z.1) same), ground arith)
      by_client none e (inr (m, b)) g =
          let given : given_text s.jwks_url ≡ true = ground arith in
          let (v, some_url) = given_text-true s.jwks_url given in absurd (ground arith)
      by_client (some url) e (inl (m, b)) g = absurd (ground arith)
      by_client (some url) e (inr (m, b)) g =
          let given : given_text s.jwks_url ≡ true = ground arith in
          let url_of : s.jwks_url ≡ some url = ground arith in
          let (got, algs) = key_of (j.signing_key url token) g in inr (m, url, url_of, got, algs)
