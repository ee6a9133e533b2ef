-- ===== src/Auth/Examples.antt =====
-- Tokens with a stand-in for PyJWT that decodes every token to the same claims.
use fastapi_realtime_chat_ba.Prelude.{
  ◌≤◌, String, false, some, none, List, [], ◌∷◌, ◌≡◌, refl, arith, ◌⊎◌, inl, text_length,
}
use fastapi_realtime_chat_ba.Errors.{ok}
use fastapi_realtime_chat_ba.Settings.{hs256, jwks, check_auth}
use fastapi_realtime_chat_ba.Chat.Fixture.{settings}
use fastapi_realtime_chat_ba.Auth.{
  is_user_char, is_user_id, pattern_match, text_claim, Claims, fine, JwtPackage, key_and_algorithms,
  decoded, user_of_claim, user_of_claims, verify, minted_claims, mint_token,
}
use fastapi_realtime_chat_ba.Auth.Verified.{Named, verify-Named, newline_accepted, key_of_mode}
use fastapi_realtime_chat_ba.Auth.Tokens.{minted_verifies}

-- every token decodes to `cs`
abbrev package_for : Claims → JwtPackage
package_for cs = record {
  decode = λ now c. fine cs;
  signing_key = λ url token. fine "public";
  encode = λ claims secret. "token";
}

abbrev alices : Claims
alices = minted_claims 1000 "alice" 600 "sub" none none

verify-Named_example : Named (package_for alices) settings 1100 "token" "alice"
unfolding minted_claims verify decoded key_and_algorithms user_of_claims user_of_claim pattern_match
    is_user_id is_user_char
verify-Named_example = verify-Named (package_for alices) settings 1100 "token" "alice" refl

abbrev newline_claims : Claims
newline_claims = ("sub", text_claim "alice\n") ∷ []

newline_accepted_example :
    (verify (package_for newline_claims) settings 1100 "token" ≡ ok "alice\n")
    × (is_user_id "alice\n" ≡ false)
unfolding decoded key_and_algorithms is_user_id is_user_char
newline_accepted_example =
    newline_accepted (package_for newline_claims) settings 1100 "token" newline_claims "alice" refl
      refl refl

key_of_mode_example :
    ((settings.auth_mode ≡ hs256)
      × (settings.jwt_secret ≡ settings.jwt_secret)
      × (◌≡◌ {A = List String} ("HS256" ∷ []) ("HS256" ∷ []))
      × (32 ≤ text_length settings.jwt_secret))
    ⊎ ((settings.auth_mode ≡ jwks)
        × (url : String) × (settings.jwks_url ≡ some url)
        × ((package_for alices).signing_key url "token" ≡ fine settings.jwt_secret)
        × (◌≡◌ {A = List String} ("HS256" ∷ []) settings.jwt_algorithms))
unfolding check_auth key_and_algorithms
key_of_mode_example =
    key_of_mode (package_for alices) settings 1100 "token" (settings.jwt_secret, "HS256" ∷ []) refl
      refl

minted_verifies_example :
    verify
      (package_for alices)
      settings
      1100
      (mint_token (package_for alices) 1000 "alice" settings.jwt_secret 600 "sub" none none)
    ≡ ok "alice"
unfolding is_user_id is_user_char minted_claims
minted_verifies_example =
    minted_verifies (package_for alices) settings 1000 600 "alice" 1100 refl refl refl refl refl
      refl refl (inl refl) (inl refl) (omega arith) (omega arith)
      (λ c expires issued a b d e f g h i k l m. refl)
