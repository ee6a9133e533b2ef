-- ===== src/Middleware/RequestId.antt =====
-- The id that a response carries.
mod Examples
use fastapi_realtime_chat_ba.Prelude.{
  ℕ, zero, suc, ◌/◌, ◌%◌, ◌^◌, ◌<◌, String, Bool, true, false, ◌&&◌, ◌||◌, Option, some, none, ◌≡◌,
  refl, sym, subst, ap, ◌∙◌, arith, inl, inr, leb, ◌==◌, if◌then◌else◌, every, text_length,
  Bool-cases,
}
use Prim.Native.Char.{code}
use fastapi_realtime_chat_ba.Ids.{hex, char_at}
use fastapi_realtime_chat_ba.Middleware.{
  is_id_char, is_request_id, request_id_match, request_id_of, AppRun, responds, raises_first,
  raises_late, silent, Exchange, http, call_http,
}

-- Over a small range, by evaluation.
all_digits : ℕ → Bool
all_digits zero = true
all_digits (suc n) = is_id_char (code (char_at n "0123456789abcdef")) && all_digits n

all_digits_sound :
    (n m : ℕ)
    → all_digits n ≡ true
    → m < n
    → is_id_char (code (char_at m "0123456789abcdef")) ≡ true
unfolding all_digits
all_digits_sound zero m h lt = absurd (omega arith)
all_digits_sound (suc n) m h lt = elim (Bool-cases (m == n)) [
  | inl same ↦
      let e : m ≡ n = ground arith in
      ap (λ z. is_id_char (code (char_at z "0123456789abcdef"))) e ∙ ground arith
  | inr other ↦ all_digits_sound n m (ground arith) (ground arith)
]

digits_table : all_digits 16 ≡ true
unfolding all_digits is_id_char
digits_table = refl

hex_valid : (w n : ℕ) → every is_id_char (hex w n) ≡ true
unfolding hex
hex_valid zero n = refl
hex_valid (suc w) n =
    let first = all_digits_sound 16 (n / 16 ^ w % 16) digits_table (omega arith) in
    rw (first, hex_valid w n) refl

hex_length : (w n : ℕ) → text_length (hex w n) ≡ w
unfolding hex
hex_length zero n = refl
hex_length (suc w) n = ap suc (hex_length w n)

fresh_valid : (i : ℕ) → is_request_id (hex 32 i) ≡ true
unfolding is_request_id
fresh_valid i = rw (hex_valid 32 i, hex_length 32 i) refl

fresh_match : (i : ℕ) → request_id_match (hex 32 i) ≡ true
unfolding request_id_match
fresh_match i = rw (fresh_valid i) refl

carried_id :
    (id : String) (run : AppRun) (r : ℕ × Option String)
    → (http id run).response ≡ some r
    → r.1 ≡ some id
unfolding http
carried_id id (responds status) r h = cc
carried_id id raises_first r h = cc
carried_id id (raises_late status) r h = cc
carried_id id silent r h = absurd (cc)

given_or_fresh : (incoming : String) (i : ℕ) → request_id_match (request_id_of incoming i) ≡ true
unfolding request_id_of
given_or_fresh incoming i = elim (Bool-cases (request_id_match incoming)) [
  | inl good ↦ rw good good
  | inr bad ↦ rw (bad, request_id_of) (fresh_match i)
]

kept :
    (incoming : String) (i : ℕ)
    → request_id_match incoming ≡ true
    → request_id_of incoming i ≡ incoming
unfolding request_id_of
kept incoming i good = rw good refl

-- Every response of the application carries an id, and one that matches the pattern, whatever the
-- client sent: its own id where that one matches, so that a valid id comes back unchanged.
pub response_id_valid :
    (incoming : String) (uuid4 : ℕ) (run : AppRun) (r : ℕ × Option String)
    → (call_http incoming uuid4 run).response ≡ some r
    → (id : String) × (r.1 ≡ some id)
      × (request_id_match id ≡ true)
      × (request_id_match incoming ≡ true → id ≡ incoming)
unfolding call_http
response_id_valid incoming uuid4 run r h = (
  request_id_of incoming uuid4,
  carried_id (request_id_of incoming uuid4) run r h,
  given_or_fresh incoming uuid4,
  kept incoming uuid4,
)
