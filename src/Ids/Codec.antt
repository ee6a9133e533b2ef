-- ===== src/Ids/Codec.antt =====
-- app/ids.py, encode_cursor and decode_cursor: the codec that the interface of cursors stands for.
use fastapi_realtime_chat_ba.Prelude.{
  ℕ, Bool, true, false, not, ◌&&◌, Option, some, none, List, [], ◌∷◌, ◌++◌, ◌≡◌, ◌≢◌, refl, sym, ap,
  ◌∙◌, arith, ◌==◌, ◌+◌, ◌*◌, ◌/◌, ◌%◌, if◌then◌else◌,
}
use fastapi_realtime_chat_ba.Models.{Uuid, Time, Cursor}
use fastapi_realtime_chat_ba.Ids.{Cursors}
use fastapi_realtime_chat_ba.Ids.Base64.{b64encode, b64decode, rstrip, padded, scan, all_ascii}
use fastapi_realtime_chat_ba.Ids.Base64.Decodes.{
  all_bytes, rstrip-b64encode, padded-body, scan-b64encode, char64_ascii,
}

abbrev pub no_bar : List ℕ → Bool
no_bar [] = true
no_bar (c ∷ cs) = not (c == b'|') && no_bar cs

-- The text formats of Python's datetime and uuid and the decoding of UTF-8, with what is documented of
-- them: what `isoformat` and `str` write is ASCII, has no bar, and is read back; ASCII is UTF-8.
pub record Formats : Type 0 where
  pub isoformat : Time → List ℕ
  pub fromisoformat : List ℕ → Option Time
  pub str_uuid : Uuid → List ℕ
  pub parse_uuid : List ℕ → Option Uuid
  pub utf8_decode : List ℕ → Option (List ℕ)
  pub from-iso : (t : Time) → fromisoformat (isoformat t) ≡ some t
  pub iso_ascii : (t : Time) → all_ascii (isoformat t) ≡ true
  pub iso_bar : (t : Time) → no_bar (isoformat t) ≡ true
  pub parse-str : (i : Uuid) → parse_uuid (str_uuid i) ≡ some i
  pub str_ascii : (i : Uuid) → all_ascii (str_uuid i) ≡ true
  pub utf8_ascii : (bs : List ℕ) → all_ascii bs ≡ true → utf8_decode bs ≡ some bs

-- before and after the first bar
abbrev push_front : ℕ → Option (List ℕ × List ℕ) → Option (List ℕ × List ℕ)
push_front c none = none
push_front c (some (l, r)) = some (c ∷ l, r)

-- `split("|", 1)`, where it gives two parts
unfoldable pub split_bar : List ℕ → Option (List ℕ × List ℕ)
split_bar [] = none
split_bar (c ∷ cs) =
    let rest = split_bar cs in if c == b'|' then some ([], cs) else push_front c rest

module _ (f : Formats) where
  -- both parts, read
  abbrev pub read_pair : Option Time → Option Uuid → Option (Time × Uuid)
  read_pair none i = none
  read_pair (some t) none = none
  read_pair (some t) (some i) = some (t, i)

  abbrev pub read_parts : Option (List ℕ × List ℕ) → Option (Time × Uuid)
  read_parts none = none
  read_parts (some (created_raw, id_raw)) =
      read_pair (f.fromisoformat created_raw) (f.parse_uuid id_raw)

  abbrev pub read_text : Option (List ℕ) → Option (Time × Uuid)
  read_text none = none
  read_text (some text) = read_parts (split_bar text)

  abbrev pub read_bytes : Option (List ℕ) → Option (Time × Uuid)
  read_bytes none = none
  read_bytes (some raw) = read_text (f.utf8_decode raw)

  -- `none` where it raises ValueError
  unfoldable pub decode_cursor : Cursor → Option (Time × Uuid)
  unfolding split_bar
  decode_cursor cursor = read_bytes (b64decode (padded cursor))

  abbrev pub raw_cursor : Time → Uuid → List ℕ
  raw_cursor created_at message_id = f.isoformat created_at ++ (b'|' ∷ f.str_uuid message_id)

  unfoldable pub encode_cursor : Time → Uuid → Cursor
  encode_cursor created_at message_id = rstrip (b64encode (raw_cursor created_at message_id))

all_ascii-append :
    (xs ys : List ℕ) → all_ascii xs ≡ true → all_ascii ys ≡ true → all_ascii (xs ++ ys) ≡ true
all_ascii-append [] ys h h' = h'
all_ascii-append (x ∷ xs) ys h h' = ground (arith, all_ascii-append xs ys)

ascii_bytes : (xs : List ℕ) → all_ascii xs ≡ true → all_bytes xs ≡ true
ascii_bytes [] h = refl
ascii_bytes (x ∷ xs) h = ground (arith, ascii_bytes xs)

encoded_ascii : (bs : List ℕ) → all_bytes bs ≡ true → all_ascii (b64encode bs) ≡ true
unfolding b64encode
encoded_ascii [] h = refl
encoded_ascii (a ∷ []) h =
    rw (char64_ascii (a / 4) (ground arith), char64_ascii (a % 4 * 16) (omega arith)) refl
encoded_ascii (a ∷ b ∷ []) h =
    rw
      (
        char64_ascii (a / 4) (ground arith),
        char64_ascii (a % 4 * 16 + b / 16) (ground arith),
        char64_ascii (b % 16 * 4) (omega arith),
      )
      refl
encoded_ascii (a ∷ b ∷ c ∷ rest) h =
    rw
      (
        char64_ascii (a / 4) (ground arith),
        char64_ascii (a % 4 * 16 + b / 16) (ground arith),
        char64_ascii (b % 16 * 4 + c / 64) (ground arith),
        char64_ascii (c % 64) (omega arith),
      )
      (encoded_ascii rest (ground arith))

-- What was encoded and rstrip-b64encode of its padding is decoded to itself.
b64_back :
    (bs : List ℕ) → all_bytes bs ≡ true → b64decode (padded (rstrip (b64encode bs))) ≡ some bs
unfolding b64decode
b64_back bs h =
    ap (λ z. b64decode (padded z)) (rstrip-b64encode bs h)
    ∙ ap b64decode (padded-body bs)
    ∙ rw (encoded_ascii bs h) (scan-b64encode bs h)

split_bar-append :
    (xs ys : List ℕ) → no_bar xs ≡ true → split_bar (xs ++ (b'|' ∷ ys)) ≡ some (xs, ys)
unfolding split_bar
split_bar-append [] ys h = refl
split_bar-append (x ∷ xs) ys h =
    let rest = split_bar-append xs ys (ground arith) in
    let other : (x == b'|') ≡ false = ground arith in rw (other, rest) refl

module _ (f : Formats) where
  -- A cursor that was encoded is decoded to its time and its message, with its padding left off: for any
  -- formats that read back what they write.
  pub decode-encode_cursor :
      (t : Time) (i : Uuid) → decode_cursor f (encode_cursor f t i) ≡ some (t, i)
  unfolding decode_cursor encode_cursor
  decode-encode_cursor t i =
      let raw = raw_cursor f t i in
      let ascii : all_ascii raw ≡ true =
        all_ascii-append (f.isoformat t) (b'|' ∷ f.str_uuid i) (f.iso_ascii t) (f.str_ascii i) in
      rw
        (
          b64_back raw (ascii_bytes raw ascii),
          f.utf8_ascii raw ascii,
          split_bar-append (f.isoformat t) (f.str_uuid i) (f.iso_bar t),
          f.from-iso t,
          f.parse-str i,
        )
        refl

  decode_nothing : decode_cursor f [] ≡ none
  unfolding decode_cursor padded b64decode scan split_bar
  decode_nothing = rw (f.utf8_ascii [] refl) refl

  pub encode_cursor-ne-nil : (t : Time) (i : Uuid) → encode_cursor f t i ≢ []
  encode_cursor-ne-nil t i e =
      let there = decode-encode_cursor t i in
      let h : ◌≡◌ {A = Option (Time × Uuid)} none (some (t, i)) =
        sym decode_nothing ∙ ap (decode_cursor f) (sym e) ∙ there in
      cc

  -- the interface of cursors, filled
  abbrev pub codec : Cursors
  codec = record {
    encode_cursor = encode_cursor f;
    decode_cursor = decode_cursor f;
    decode-encode = decode-encode_cursor;
    encode-ne-nil = encode_cursor-ne-nil;
  }
