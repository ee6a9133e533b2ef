-- ===== src/Ids/Examples.antt =====
-- A UUIDv7 at concrete times.
use fastapi_realtime_chat_ba.Prelude.{
  zero, suc, true, none, some, List, [], ◌∷◌, ap, ℕ, ◌/◌, ◌%◌, ◌^◌, ◌<◌, ◌≡◌, refl,
}
use fastapi_realtime_chat_ba.Ids.{uuid7, uuid_text, hex}
use fastapi_realtime_chat_ba.Ids.Uuid7.{uuid7_fields}
use fastapi_realtime_chat_ba.Ids.Base64.{
  char64, value64, b64encode, rstrip, padded, next_value, next_char, scan, all_ascii, b64decode,
}
use fastapi_realtime_chat_ba.Ids.Codec.{
  no_bar, Formats, split_bar, encode_cursor, decode_cursor, decode-encode_cursor,
}

-- 1700000000000 ms
abbrev time : ℕ
time = 1700000000000000000

uuid7_test : uuid_text (uuid7 time 0) ≡ "018bcfe5-6800-7000-8000-000000000000"
unfolding uuid7 uuid_text hex
uuid7_test = refl

uuid7_fields_example :
    (uuid7 time 5 < 2 ^ 128)
    × (uuid7 time 5 / 2 ^ 76 % 16 ≡ 7)
    × (uuid7 time 5 / 2 ^ 62 % 4 ≡ 2)
    × (uuid7 time 5 / 2 ^ 80 ≡ time / 1000000 % 2 ^ 48)
    × ((t' r' : ℕ)
        → time / 1000000 < t' / 1000000
        → t' / 1000000 < 2 ^ 48
        → uuid7 time 5 < uuid7 t' r')
uuid7_fields_example = uuid7_fields time 5

-- formats that write a number as that many letters
abbrev letters : ℕ → List ℕ
letters zero = []
letters (suc n) = b'a' ∷ letters n

abbrev count_letters : List ℕ → ℕ
count_letters [] = 0
count_letters (c ∷ cs) = suc (count_letters cs)

letters_count : (n : ℕ) → some (count_letters (letters n)) ≡ some n
letters_count n = ap some (counted n)
  where
    counted : (n : ℕ) → count_letters (letters n) ≡ n
    counted zero = refl
    counted (suc n) = ap suc (counted n)

letters_ascii : (n : ℕ) → all_ascii (letters n) ≡ true
letters_ascii zero = refl
letters_ascii (suc n) = letters_ascii n

letters_bar : (n : ℕ) → no_bar (letters n) ≡ true
letters_bar zero = refl
letters_bar (suc n) = letters_bar n

abbrev unary : Formats
unary = record {
  isoformat = letters;
  fromisoformat = λ cs. some (count_letters cs);
  str_uuid = letters;
  parse_uuid = λ cs. some (count_letters cs);
  utf8_decode = λ bs. some bs;
  from-iso = letters_count;
  iso_ascii = letters_ascii;
  iso_bar = letters_bar;
  parse-str = letters_count;
  str_ascii = letters_ascii;
  utf8_ascii = λ bs h. refl;
}

-- the text a|aa
encode_test : encode_cursor unary 1 2 ≡ b'Y' ∷ b'X' ∷ b'x' ∷ b'h' ∷ b'Y' ∷ b'Q' ∷ []
unfolding encode_cursor b64encode rstrip char64
encode_test = refl

-- one character more than a multiple of four, and a text without a bar
decode_tests :
    (decode_cursor unary (b'Y' ∷ []) ≡ none) × (decode_cursor unary (b'Y' ∷ b'Q' ∷ []) ≡ none)
unfolding decode_cursor b64decode scan padded next_char next_value value64 split_bar
decode_tests = (refl, refl)

decode-encode_cursor_example : decode_cursor unary (encode_cursor unary 1 2) ≡ some (1, 2)
decode-encode_cursor_example = decode-encode_cursor unary 1 2
