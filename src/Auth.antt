-- ===== src/Auth.antt =====
-- app/auth.py and app/tokens.py: bearer tokens. PyJWT is a parameter.
pub mod Verified
pub mod Tokens
mod Examples
use Prim.Native.Char.{code}
use fastapi_realtime_chat_ba.Prelude.{
  ℕ, ◌+◌, String, Bool, true, false, not, ◌&&◌, ◌||◌, Option, some, none, List, [], ◌∷◌, map, leb,
  ◌==◌, str_eq, if◌then◌else◌, every, text_length, is_nil, strip, split_at,
}
use fastapi_realtime_chat_ba.Errors.{
  Result, ok, err, raised, AppError, app_error, token_rejected, claim_is_no_user, unexpected,
}
use fastapi_realtime_chat_ba.Settings.{Settings, AuthMode, is_hs256, given_text}

-- the class of USER_ID_PATTERN
unfoldable pub is_user_char : ℕ → Bool
is_user_char c =
    (leb b'A' c && leb c b'Z')
    || (leb b'a' c && leb c b'z')
    || (leb b'0' c && leb c b'9')
    || c == b'_'
    || c == b'.'
    || c == b'@'
    || c == b':'
    || c == b'-'

-- The texts that the pattern describes: 1 to 64 characters of the class.
unfoldable pub is_user_id : String → Bool
is_user_id s = every is_user_char s && leb 1 (text_length s) && leb (text_length s) 64

-- A text without the newline at its end, if it has one.
unfoldable pub chop_newline : String → String
chop_newline String.[] = String.[]
chop_newline (String.◌∷◌ c s) =
    if is_nil s && code c == b'\n' then String.[] else String.◌∷◌ c (chop_newline s)

-- `USER_ID_PATTERN.match`: in Python's `re`, `$` stands at the end or before a newline at the end.
unfoldable pub pattern_match : String → Bool
pattern_match s = is_user_id s || is_user_id (chop_newline s)

-- A claim of a token: a text, or a value of another JSON type.
pub data Claim : Type 0 where
  text_claim : String → Claim
  number : ℕ → Claim
  other : Claim

abbrev pub Claims : Type 0
Claims = List (String × Claim)

-- `claims.get`
abbrev pub claim_at : String → Claims → Option Claim
claim_at k [] = none
claim_at k (c ∷ cs) = if str_eq k c.0 then some c.1 else claim_at k cs

-- The arguments of one call of `jwt.decode`; `exp` is always required.
pub record DecodeCall : Type 0 where
  pub token : String
  pub key : String
  pub algorithms : List String
  pub audience : Option String
  pub issuer : Option String
  pub leeway : ℕ
  pub verify_aud : Bool

-- What PyJWT does: a result, an exception of its own with its text, or another exception, which
-- escapes `verify`.
pub data Jwt {ℓ} (A : Type ℓ) : Type ℓ where
  fine : A → Jwt A
  jwt_error : String → Jwt A
  escapes : Jwt A

pub record JwtPackage : Type 0 where
  -- jwt.decode, at a time in seconds
  pub decode : ℕ → DecodeCall → Jwt Claims
  -- PyJWKClient.get_signing_key_from_jwt, for the client of an URL
  pub signing_key : String → String → Jwt String
  -- jwt.encode with HS256: the claims and the secret
  pub encode : Claims → String → String

-- `_jwk_client`: the URL of the client that `__init__` makes
abbrev pub jwk_client : Settings → Option String
jwk_client s = if not (is_hs256 s.auth_mode) && given_text s.jwks_url then s.jwks_url else none

abbrev pub with_algorithms : List String → Jwt String → Jwt (String × List String)
with_algorithms algorithms (fine key) = fine (key, algorithms)
with_algorithms algorithms (jwt_error why) = jwt_error why
with_algorithms algorithms escapes = escapes

abbrev pub key_with : JwtPackage → Settings → String → Option String → Jwt (String × List String)
key_with j s token none = fine (s.jwt_secret, "HS256" ∷ [])
key_with j s token (some url) = with_algorithms s.jwt_algorithms (j.signing_key url token)

unfoldable pub key_and_algorithms : JwtPackage → Settings → String → Jwt (String × List String)
key_and_algorithms j s token = key_with j s token (jwk_client s)

abbrev pub decode_call : Settings → String → String × List String → DecodeCall
decode_call s token k = record {
  token = token;
  key = k.0;
  algorithms = k.1;
  audience = s.jwt_audience;
  issuer = s.jwt_issuer;
  leeway = s.jwt_leeway_seconds;
  verify_aud = elim s.jwt_audience [ none ↦ false | some a ↦ true ];
}

-- the `try` block of `verify`
unfoldable pub decoded : JwtPackage → Settings → ℕ → String → Jwt Claims
decoded j s now token = elim (key_and_algorithms j s token) [
  | fine k ↦ j.decode now (decode_call s token k)
  | jwt_error why ↦ jwt_error why
  | escapes ↦ escapes
]

abbrev pub no_user : Settings → AppError
no_user s = record {
  status_code = 401;
  code = "invalid_token";
  message = claim_is_no_user s.jwt_user_claim;
}

unfoldable pub user_of_claim : Settings → Option Claim → Result String
user_of_claim s none = err (raised (no_user s))
user_of_claim s (some (number n)) = err (raised (no_user s))
user_of_claim s (some other) = err (raised (no_user s))
user_of_claim s (some (text_claim u)) =
    if not (pattern_match u) then err (raised (no_user s)) else ok u

unfoldable pub user_of_claims : Settings → Jwt Claims → Result String
user_of_claims s (jwt_error why) =
    err
      (raised (record { status_code = 401; code = "invalid_token"; message = token_rejected why }))
user_of_claims s escapes = err unexpected
user_of_claims s (fine claims) = user_of_claim s (claim_at s.jwt_user_claim claims)

-- TokenVerifier.verify
unfoldable pub verify : JwtPackage → Settings → ℕ → String → Result String
verify j s now token = user_of_claims s (decoded j s now token)

-- the credentials of the Authorization header, `none` where HTTPBearer finds no bearer token
unfoldable pub get_current_user : JwtPackage → Settings → ℕ → Option String → Result String
get_current_user j s now none = err (raised (app_error 401 "unauthorized" "Missing bearer token"))
get_current_user j s now (some token) = verify j s now token

-- `websocket_token`: the header Sec-WebSocket-Protocol, the empty text where there is none, and
-- the query's `token`
abbrev pub token_of_protocols : List String → Option String → Option String × Option String
token_of_protocols [] query = (query, none)
token_of_protocols (p ∷ []) query = (query, none)
token_of_protocols (p ∷ q ∷ ps) query =
    if str_eq p "bearer" && not (is_nil q) then (some q, some "bearer") else (query, none)

unfoldable pub websocket_token : String → Option String → Option String × Option String
websocket_token header query = token_of_protocols (map strip (split_at b',' header)) query

-- `claims[k] = v`
abbrev pub set_claim : String → Claim → Claims → Claims
set_claim k v [] = (k, v) ∷ []
set_claim k v (c ∷ cs) = if str_eq k c.0 then (k, v) ∷ cs else c ∷ set_claim k v cs

-- `if value: claims[k] = value`
abbrev pub set_given : String → Option String → Claims → Claims
set_given k none cs = cs
set_given k (some v) cs = if is_nil v then cs else set_claim k (text_claim v) cs

-- app/tokens.py: the claims of a minted token
unfoldable pub minted_claims : ℕ → String → ℕ → String → Option String → Option String → Claims
minted_claims now user_id ttl_seconds user_claim issuer audience = set_given "aud" audience (
    set_given "iss" issuer (
      set_claim "exp" (number (now + ttl_seconds))
        (set_claim "iat" (number now) ((user_claim, text_claim user_id) ∷ []))))

unfoldable pub mint_token :
    JwtPackage → ℕ → String → String → ℕ → String → Option String → Option String → String
mint_token j now user_id secret ttl_seconds user_claim issuer audience =
    j.encode (minted_claims now user_id ttl_seconds user_claim issuer audience) secret
