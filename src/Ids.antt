-- ===== src/Ids.antt =====
-- app/ids.py: identifiers, and the codec of cursors as the chat service uses it.
pub mod Uuid7
pub mod Base64
pub mod Codec
mod Examples
use Prim.Native.Char.{Char}
use Prim.Native.Nat.{bit_and, bit_or}
use Prim.Native.String.{◌++◌ as str_append}
use fastapi_realtime_chat_ba.Prelude.{
  ℕ, zero, suc, ◌+◌, ◌*◌, ◌/◌, ◌%◌, ◌^◌, String, Option, some, [], ◌≡◌, ◌≢◌,
}
use fastapi_realtime_chat_ba.Models.{Uuid, Time, Cursor}

-- The codec of cursors.
pub record Cursors : Type 0 where
  pub encode_cursor : Time → Uuid → Cursor
  -- `none` where the source raises ValueError
  pub decode_cursor : Cursor → Option (Time × Uuid)
  pub decode-encode : (t : Time) (i : Uuid) → decode_cursor (encode_cursor t i) ≡ some (t, i)
  pub encode-ne-nil : (t : Time) (i : Uuid) → encode_cursor t i ≢ []

-- Python's `<<` and `>>` on integers that are not negative
abbrev pub shift_left : ℕ → ℕ → ℕ
shift_left n k = n * 2 ^ k

abbrev pub shift_right : ℕ → ℕ → ℕ
shift_right n k = n / 2 ^ k

-- the two random fields, from the ten bytes of `os.urandom` as a number
abbrev pub rand_a : ℕ → ℕ
rand_a rand = bit_and (shift_right rand 62) 0xFFF

abbrev pub rand_b : ℕ → ℕ
rand_b rand = bit_and rand 0x3FFFFFFFFFFFFFFF

-- `uuid7` at a time in nanoseconds
unfoldable pub uuid7 : ℕ → ℕ → Uuid
uuid7 time_ns rand =
    let ts_ms = time_ns / 1000000 in
    bit_or
      (bit_or
        (bit_or (bit_or (shift_left (bit_and ts_ms 0xFFFFFFFFFFFF) 80) (shift_left 0x7 76))
          (shift_left (rand_a rand) 64))
        (shift_left 2 62))
      (rand_b rand)

abbrev pub char_at : ℕ → String → Char
char_at n String.[] = "0"
char_at zero (String.◌∷◌ c s) = c
char_at (suc n) (String.◌∷◌ c s) = char_at n s

-- the last `w` hexadecimal digits of a number
unfoldable pub hex : ℕ → ℕ → String
hex zero n = String.[]
hex (suc w) n = String.◌∷◌ (char_at (n / 16 ^ w % 16) "0123456789abcdef") (hex w n)

-- `str` of a UUID
unfoldable pub uuid_text : Uuid → String
uuid_text i = str_append (hex 8 (i / 2 ^ 96)) (
    String.◌∷◌ "-" (
      str_append (hex 4 (i / 2 ^ 80)) (
        String.◌∷◌ "-" (
          str_append (hex 4 (i / 2 ^ 64))
            (String.◌∷◌ "-" (str_append (hex 4 (i / 2 ^ 48)) (String.◌∷◌ "-" (hex 12 i))))))))
