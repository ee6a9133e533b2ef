-- ===== src/Prelude/Text.antt =====
-- Texts that are walked by character: the tests, `strip` and `split` of Python's `str`.
use Prim.Native.Char.{Char, code}
use Prim.Native.String.count
use Prim.Native.String.{String, ◌++◌ as str_append}
use Prim.Native.Nat.{ℕ, suc, ◌+◌}
use mathlib.Core.Path.{◌≡◌, refl, ap, ◌∙◌}
use mathlib.Core.Bool.{Bool, true, false, not, ◌&&◌, ◌||◌}
use mathlib.Core.List.{List, [], ◌∷◌}
use native.Mathlib.Omega.{arith}
use text.Mathlib.TextLemmas.{nil-append, cons-append}
use fastapi_realtime_chat_ba.Prelude.Tests.{leb, ◌==◌, if◌then◌else◌}

-- the code points of a text
abbrev pub codes : String → List ℕ
codes String.[] = []
codes (String.◌∷◌ c s) = code c ∷ codes s

-- every character passes
abbrev pub every : (ℕ → Bool) → String → Bool
every p String.[] = true
every p (String.◌∷◌ c s) = p (code c) && every p s

-- a text without a NUL character
abbrev pub no_nul : String → Bool
no_nul t = every (λ c. not (c == 0)) t

-- `len` of Python's `str`
abbrev pub text_length : String → ℕ
text_length String.[] = 0
text_length (String.◌∷◌ c s) = suc (text_length s)

abbrev pub is_nil : String → Bool
is_nil String.[] = true
is_nil (String.◌∷◌ c s) = false

-- `str.isspace`, for one character
unfoldable pub is_space : ℕ → Bool
is_space c =
    (leb 9 c && leb c 13)
    || (leb 28 c && leb c 32)
    || c == 133
    || c == 160
    || c == 5760
    || (leb 8192 c && leb c 8202)
    || c == 8232
    || c == 8233
    || c == 8239
    || c == 8287
    || c == 12288

unfoldable pub strip_left : String → String
strip_left String.[] = String.[]
strip_left (String.◌∷◌ c s) =
    let rest = strip_left s in if is_space (code c) then rest else String.◌∷◌ c s

unfoldable pub strip_right : String → String
strip_right String.[] = String.[]
strip_right (String.◌∷◌ c s) =
    let rest = strip_right s in
    if is_nil rest && is_space (code c) then String.[] else String.◌∷◌ c rest

-- `str.strip()`
unfoldable pub strip : String → String
unfolding strip_left strip_right
strip s = strip_right (strip_left s)

-- a character before the first piece
abbrev pub push_piece : Char → List String → List String
push_piece c [] = String.◌∷◌ c String.[] ∷ []
push_piece c (w ∷ ws) = String.◌∷◌ c w ∷ ws

-- `str.split(sep)` at a separator of one character
unfoldable pub split_at : ℕ → String → List String
split_at sep String.[] = String.[] ∷ []
split_at sep (String.◌∷◌ c s) =
    let rest = split_at sep s in if code c == sep then String.[] ∷ rest else push_piece c rest

pub every-append :
    (p : ℕ → Bool) (s t : String) → every p (str_append s t) ≡ (every p s && every p t)
every-append p String.[] t = rw (nil-append t) refl
every-append p (String.◌∷◌ c s) t = rw (cons-append c s t) (ground (arith, every-append p s t))

pub text_length-append :
    (s t : String) → text_length (str_append s t) ≡ text_length s + text_length t
text_length-append String.[] t = rw (nil-append t) (omega arith)
text_length-append (String.◌∷◌ c s) t =
    rw (cons-append c s t) (omega (arith, text_length-append s t))

-- A weaker test passes too.
pub every_of :
    (p q : ℕ → Bool) (s : String)
    → ((c : ℕ) → p c ≡ true → q c ≡ true)
    → every p s ≡ true
    → every q s ≡ true
every_of p q String.[] f h = refl
every_of p q (String.◌∷◌ c s) f h = ground (arith, f (code c), every_of p q s f)

-- A text of no spaces is its own strip.
strip_left_none : (s : String) → every (λ c. not (is_space c)) s ≡ true → strip_left s ≡ s
unfolding strip_left
strip_left_none String.[] h = refl
strip_left_none (String.◌∷◌ c s) h = ground arith

strip_right_none : (s : String) → every (λ c. not (is_space c)) s ≡ true → strip_right s ≡ s
unfolding strip_right
strip_right_none String.[] h = refl
strip_right_none (String.◌∷◌ c s) h = ground (arith, strip_right_none s)

pub strip_none : (s : String) → every (λ c. not (is_space c)) s ≡ true → strip s ≡ s
unfolding strip
strip_none s h = ap strip_right (strip_left_none s h) ∙ strip_right_none s h

-- A text without the separator is one piece.
pub split_at_none :
    (sep : ℕ) (s : String) → every (λ c. not (c == sep)) s ≡ true → split_at sep s ≡ s ∷ []
unfolding split_at
split_at_none sep String.[] h = refl
split_at_none sep (String.◌∷◌ c s) h =
    let rest = split_at_none sep s (ground arith) in ground (arith, rest)

-- The piece before a separator.
pub split_at_piece :
    (sep : ℕ) (w : String) (c : Char) (t : String)
    → every (λ d. not (d == sep)) w ≡ true
    → code c ≡ sep
    → split_at sep (str_append w (String.◌∷◌ c t)) ≡ w ∷ split_at sep t
unfolding split_at
split_at_piece sep String.[] c t h e = rw (nil-append (String.◌∷◌ c t)) (ground arith)
split_at_piece sep (String.◌∷◌ d w) c t h e =
    let rest = split_at_piece sep w c t (ground arith) e in
    rw (cons-append d w (String.◌∷◌ c t)) (ground (arith, rest))

-- A space at the front is stripped.
pub strip_space :
    (c : Char) (s : String) → is_space (code c) ≡ true → strip (String.◌∷◌ c s) ≡ strip s
unfolding strip strip_left
strip_space c s h = rw h refl

-- The length of the library.
pub text_length-count : (s : String) → Prim.Native.String.count s ≡ text_length s
text_length-count String.[] = count.nil
text_length-count (String.◌∷◌ c s) = count.cons c s ∙ ap suc (text_length-count s)
