-- ===== src/Ids/Base64/Decodes.antt =====
-- What was encoded, without its padding, decodes to itself.
use fastapi_realtime_chat_ba.Prelude.{
  ℕ, zero, suc, ◌+◌, ◌-◌, ◌*◌, ◌/◌, ◌%◌, ◌<◌, Bool, true, false, ◌&&◌, Option, some, List, [], ◌∷◌,
  ◌++◌, ◌≡◌, refl, ap, ◌∙◌, arith, ltb, ◌==◌, length,
}
use fastapi_realtime_chat_ba.Ids.Base64.{
  char64, value64, b64encode, rstrip, equals, padded, Decoder, Step, ends, goes, emits, next_value,
  next_char, put_byte, scan, start,
}

char64_value : (n : ℕ) → n < 64 → value64 (char64 n) ≡ some n
unfolding char64 value64
char64_value n h = ground arith

char64_other : (n : ℕ) → n < 64 → (char64 n == b'=') ≡ false
unfolding char64
char64_other n h = ground arith

pub char64_ascii : (n : ℕ) → n < 64 → ltb (char64 n) 128 ≡ true
unfolding char64
char64_ascii n h = ground arith

abbrev pub all_bytes : List ℕ → Bool
all_bytes [] = true
all_bytes (b ∷ bs) = ltb b 256 && all_bytes bs

-- the characters without the padding
unfoldable pub body : List ℕ → List ℕ
body [] = []
body (a ∷ []) = char64 (a / 4) ∷ char64 (a % 4 * 16) ∷ []
body (a ∷ b ∷ []) = char64 (a / 4) ∷ char64 (a % 4 * 16 + b / 16) ∷ char64 (b % 16 * 4) ∷ []
body (a ∷ b ∷ c ∷ rest) =
    char64 (a / 4)
    ∷ char64 (a % 4 * 16 + b / 16)
    ∷ char64 (b % 16 * 4 + c / 64)
    ∷ char64 (c % 64)
    ∷ body rest

rstrip_other : (n : ℕ) (cs : List ℕ) → n < 64 → rstrip (char64 n ∷ cs) ≡ char64 n ∷ rstrip cs
unfolding rstrip
rstrip_other n cs h = let other = char64_other n h in ground arith

rstrip-equals : (n : ℕ) → rstrip (equals n) ≡ []
unfolding rstrip
rstrip-equals zero = refl
rstrip-equals (suc n) = rw (rstrip-equals n) refl

pub rstrip-b64encode : (bs : List ℕ) → all_bytes bs ≡ true → rstrip (b64encode bs) ≡ body bs
unfolding b64encode body
rstrip-b64encode [] h = rstrip-equals 0
rstrip-b64encode (a ∷ []) h =
    rw
      (
        rstrip_other (a / 4) _ (ground arith),
        rstrip_other (a % 4 * 16) _ (omega arith),
        rstrip-equals 2,
      )
      refl
rstrip-b64encode (a ∷ b ∷ []) h =
    rw
      (
        rstrip_other (a / 4) _ (ground arith),
        rstrip_other (a % 4 * 16 + b / 16) _ (ground arith),
        rstrip_other (b % 16 * 4) _ (omega arith),
        rstrip-equals 1,
      )
      refl
rstrip-b64encode (a ∷ b ∷ c ∷ rest) h =
    rw
      (
        rstrip_other (a / 4) _ (ground arith),
        rstrip_other (a % 4 * 16 + b / 16) _ (ground arith),
        rstrip_other (b % 16 * 4 + c / 64) _ (ground arith),
        rstrip_other (c % 64) _ (omega arith),
        rstrip-b64encode rest (ground arith),
      )
      refl

pub padded-body : (bs : List ℕ) → padded (body bs) ≡ b64encode bs
unfolding b64encode body padded
padded-body [] = refl
padded-body (a ∷ []) = refl
padded-body (a ∷ b ∷ []) = refl
padded-body (a ∷ b ∷ c ∷ rest) =
    let n = length (body rest) in
    let same : (4 - suc (suc (suc (suc n))) % 4) % 4 ≡ (4 - n % 4) % 4 = omega arith in
    ap
      (λ z.
        char64 (a / 4)
        ∷ char64 (a % 4 * 16 + b / 16)
        ∷ char64 (b % 16 * 4 + c / 64)
        ∷ char64 (c % 64)
        ∷ z)
      (ap (λ k. body rest ++ equals k) same ∙ padded-body rest)

next_char_value :
    (s : Decoder) (n : ℕ) → n < 64 → next_char s (char64 n) ≡ next_value s.quad s.left n
unfolding next_char
next_char_value s n h = rw (char64_other n h, char64_value n h) refl

-- the decoder after a step
abbrev resume : Step → List ℕ → Option (List ℕ)
resume ends cs = some []
resume (goes s) cs = scan s cs
resume (emits b s) cs = put_byte b (scan s cs)

scan_next :
    (s : Decoder) (c : ℕ) (cs : List ℕ) (st : Step)
    → next_char s c ≡ st
    → scan s (c ∷ cs) ≡ resume st cs
unfolding scan
scan_next s c cs st e = resumed (next_char s c) ∙ ap (λ z. resume z cs) e
  where
    resumed :
        (z : Step)
        → (elim z [ ends ↦ some [] | goes s' ↦ scan s' cs | emits b s' ↦ put_byte b (scan s' cs) ])
          ≡ resume z cs
    resumed ends = refl
    resumed (goes s') = refl
    resumed (emits b s') = refl

scan_value :
    (q l n : ℕ) (cs : List ℕ) (b : ℕ) (s' : Decoder) (p : ℕ)
    → n < 64
    → next_value q l n ≡ emits b s'
    → scan (record { quad = q; pads = p; left = l }) (char64 n ∷ cs) ≡ put_byte b (scan s' cs)
scan_value q l n cs b s' p h e =
    let s : Decoder = record { quad = q; pads = p; left = l } in
    scan_next s (char64 n) cs (emits b s') (next_char_value s n h ∙ e)

scan_first :
    (n : ℕ) (cs : List ℕ)
    → n < 64
    → scan start (char64 n ∷ cs) ≡ scan (record { quad = 1; pads = 0; left = n }) cs
unfolding next_value
scan_first n cs h =
    scan_next start (char64 n) cs (goes (record { quad = 1; pads = 0; left = n }))
      (next_char_value start n h)

one_byte :
    (a b : ℕ) (cs : List ℕ)
    → a < 256
    → b < 16
    → scan start (char64 (a / 4) ∷ char64 (a % 4 * 16 + b) ∷ cs)
      ≡ put_byte a (scan (record { quad = 2; pads = 0; left = b }) cs)
unfolding next_value
one_byte a b cs h h' =
    let byte : a / 4 * 4 + (a % 4 * 16 + b) / 16 ≡ a = omega arith in
    let left : (a % 4 * 16 + b) % 16 ≡ b = omega arith in
    scan_first (a / 4) _ (omega arith)
    ∙ scan_value 1 (a / 4) (a % 4 * 16 + b) cs (a / 4 * 4 + (a % 4 * 16 + b) / 16)
        (record { quad = 2; pads = 0; left = (a % 4 * 16 + b) % 16 }) 0 (omega arith) refl
    ∙ rw (byte, left) refl

second_byte :
    (b c : ℕ) (cs : List ℕ)
    → b < 256
    → c < 4
    → scan (record { quad = 2; pads = 0; left = b / 16 }) (char64 (b % 16 * 4 + c) ∷ cs)
      ≡ put_byte b (scan (record { quad = 3; pads = 0; left = c }) cs)
unfolding next_value
second_byte b c cs h h' =
    let byte : b / 16 * 16 + (b % 16 * 4 + c) / 4 ≡ b = omega arith in
    let left : (b % 16 * 4 + c) % 4 ≡ c = omega arith in
    scan_value 2 (b / 16) (b % 16 * 4 + c) cs (b / 16 * 16 + (b % 16 * 4 + c) / 4)
      (record { quad = 3; pads = 0; left = (b % 16 * 4 + c) % 4 }) 0 (omega arith) refl
    ∙ rw (byte, left) refl

third_byte :
    (c : ℕ) (cs : List ℕ)
    → c < 256
    → scan (record { quad = 3; pads = 0; left = c / 64 }) (char64 (c % 64) ∷ cs)
      ≡ put_byte c (scan start cs)
unfolding next_value
third_byte c cs h =
    let byte : c / 64 * 64 + c % 64 ≡ c = omega arith in
    scan_value 3 (c / 64) (c % 64) cs (c / 64 * 64 + c % 64) start 0 (omega arith) refl
    ∙ rw byte refl

pub scan-b64encode : (bs : List ℕ) → all_bytes bs ≡ true → scan start (b64encode bs) ≡ some bs
unfolding b64encode scan next_char
scan-b64encode [] h = refl
scan-b64encode (a ∷ []) h =
    ap (λ z. scan start (char64 (a / 4) ∷ char64 z ∷ b'=' ∷ b'=' ∷ [])) e
    ∙ one_byte a 0 (b'=' ∷ b'=' ∷ []) (ground arith) (omega arith)
  where
    e : a % 4 * 16 ≡ a % 4 * 16 + 0
    e = omega arith
scan-b64encode (a ∷ b ∷ []) h =
    one_byte a (b / 16) (char64 (b % 16 * 4) ∷ b'=' ∷ []) (ground arith) (ground arith)
    ∙ ap (put_byte a) (
        ap (λ z. scan (record { quad = 2; pads = 0; left = b / 16 }) (char64 z ∷ b'=' ∷ [])) e
        ∙ second_byte b 0 (b'=' ∷ []) (ground arith) (omega arith))
  where
    e : b % 16 * 4 ≡ b % 16 * 4 + 0
    e = omega arith
scan-b64encode (a ∷ b ∷ c ∷ rest) h =
    one_byte a (b / 16) (char64 (b % 16 * 4 + c / 64) ∷ char64 (c % 64) ∷ b64encode rest)
      (ground arith) (ground arith)
    ∙ ap (put_byte a) (
        second_byte b (c / 64) (char64 (c % 64) ∷ b64encode rest) (ground arith) (ground arith)
        ∙ ap (put_byte b) (
            third_byte c (b64encode rest) (ground arith)
            ∙ ap (put_byte c) (scan-b64encode rest (ground arith))))
