-- ===== src/Ids/Base64.antt =====
-- Python's URL-safe base64, on code points: `urlsafe_b64encode`, the lenient `urlsafe_b64decode`, and
-- the padding that app/ids.py takes off and puts back.
pub mod Decodes
use fastapi_realtime_chat_ba.Prelude.{
  ℕ, zero, suc, ◌+◌, ◌-◌, ◌*◌, ◌/◌, ◌%◌, ◌<◌, ◌≤◌, Bool, true, false, not, ◌&&◌, ◌||◌, Option, some,
  none, List, [], ◌∷◌, ◌++◌, ◌≡◌, refl, sym, ap, ◌∙◌, arith, leb, ltb, ◌==◌, if◌then◌else◌, length,
  length-append,
}

-- the character of six bits
unfoldable pub char64 : ℕ → ℕ
char64 n =
    if ltb n 26
    then n + b'A'
    else if ltb n 52
    then n - 26 + b'a'
    else if ltb n 62
    then n - 52 + b'0'
    else if n == 62
    then b'-'
    else b'_'

-- the six bits of a character, in either alphabet
unfoldable pub value64 : ℕ → Option ℕ
value64 c =
    if leb b'A' c && leb c b'Z'
    then some (c - b'A')
    else if leb b'a' c && leb c b'z'
    then some (c - b'a' + 26)
    else if leb b'0' c && leb c b'9'
    then some (c - b'0' + 52)
    else if c == b'+' || c == b'-'
    then some 62
    else if c == b'/' || c == b'_'
    then some 63
    else none

unfoldable pub b64encode : List ℕ → List ℕ
unfolding char64
b64encode [] = []
b64encode (a ∷ []) = char64 (a / 4) ∷ char64 (a % 4 * 16) ∷ b'=' ∷ b'=' ∷ []
b64encode (a ∷ b ∷ []) =
    char64 (a / 4) ∷ char64 (a % 4 * 16 + b / 16) ∷ char64 (b % 16 * 4) ∷ b'=' ∷ []
b64encode (a ∷ b ∷ c ∷ rest) =
    char64 (a / 4)
    ∷ char64 (a % 4 * 16 + b / 16)
    ∷ char64 (b % 16 * 4 + c / 64)
    ∷ char64 (c % 64)
    ∷ b64encode rest

abbrev pub no_chars : List ℕ → Bool
no_chars [] = true
no_chars (c ∷ cs) = false

-- `rstrip("=")`
unfoldable pub rstrip : List ℕ → List ℕ
rstrip [] = []
rstrip (c ∷ cs) = let rest = rstrip cs in if no_chars rest && c == b'=' then [] else c ∷ rest

abbrev pub equals : ℕ → List ℕ
equals zero = []
equals (suc n) = b'=' ∷ equals n

-- `cursor + "=" * (-len(cursor) % 4)`
unfoldable pub padded : List ℕ → List ℕ
padded cs = cs ++ equals ((4 - length cs % 4) % 4)

-- The decoder's position in a group of four, the padding since, and the bits that wait.
pub record Decoder : Type 0 where
  pub quad : ℕ
  pub pads : ℕ
  pub left : ℕ

-- What a character does: it ends the text, is passed over or waits, or completes a byte.
pub data Step : Type 0 where
  ends : Step
  goes : Decoder → Step
  emits : ℕ → Decoder → Step

unfoldable pub next_value : ℕ → ℕ → ℕ → Step
next_value zero left v = goes (record { quad = 1; pads = 0; left = v })
next_value (suc zero) left v =
    emits (left * 4 + v / 16) (record { quad = 2; pads = 0; left = v % 16 })
next_value (suc (suc zero)) left v =
    emits (left * 16 + v / 4) (record { quad = 3; pads = 0; left = v % 4 })
next_value (suc (suc (suc n))) left v =
    emits (left * 64 + v) (record { quad = 0; pads = 0; left = 0 })

abbrev pub next_pad : Decoder → Step
next_pad s =
    if leb 2 s.quad
    then if leb 4 (s.quad + (s.pads + 1)) then ends else goes (record s { pads = s.pads + 1 })
    else goes s

unfoldable pub next_char : Decoder → ℕ → Step
unfolding value64 next_value
next_char s c =
    if c == b'='
    then next_pad s
    else elim (value64 c) [ none ↦ goes s | some v ↦ next_value s.quad s.left v ]

abbrev pub put_byte : ℕ → Option (List ℕ) → Option (List ℕ)
put_byte b none = none
put_byte b (some bs) = some (b ∷ bs)

-- `none` where binascii raises Error, a ValueError
unfoldable pub scan : Decoder → List ℕ → Option (List ℕ)
unfolding next_char
scan s [] = if s.quad == 0 then some [] else none
scan s (c ∷ cs) = elim (next_char s c) [
  | ends ↦ some []
  | goes s' ↦ scan s' cs
  | emits b s' ↦ put_byte b (scan s' cs)
]

abbrev pub start : Decoder
start = record { quad = 0; pads = 0; left = 0 }

abbrev pub all_ascii : List ℕ → Bool
all_ascii [] = true
all_ascii (c ∷ cs) = ltb c 128 && all_ascii cs

-- a text that is not ASCII raises ValueError
unfoldable pub b64decode : List ℕ → Option (List ℕ)
unfolding scan
b64decode cs = if all_ascii cs then scan start cs else none
