-- ===== src/Ids/Uuid7.antt =====
-- The fields of a UUIDv7, and its order.
use Prim.Native.Nat.{bit_and, bit_or}
use fastapi_realtime_chat_ba.Prelude.{ℕ, ◌+◌, ◌*◌, ◌/◌, ◌%◌, ◌^◌, ◌<◌, ◌≡◌, ap, ◌∙◌, arith}
use fastapi_realtime_chat_ba.Prelude.Bits.{two_to, bit_and-ones, bit_or_add}
use fastapi_realtime_chat_ba.Ids.{rand_a, rand_b, uuid7}

mask_48 : (a : ℕ) → bit_and a 0xFFFFFFFFFFFF ≡ a % 281474976710656
mask_48 a = let (c, e, small) = bit_and-ones 48 a in omega (arith, e, small)

mask_12 : (a : ℕ) → bit_and a 0xFFF ≡ a % 4096
mask_12 a = let (c, e, small) = bit_and-ones 12 a in omega (arith, e, small)

mask_62 : (a : ℕ) → bit_and a 0x3FFFFFFFFFFFFFFF ≡ a % 4611686018427387904
mask_62 a = let (c, e, small) = bit_and-ones 62 a in omega (arith, e, small)

or_add : (n a m b : ℕ) → m ≡ a * two_to n → b < two_to n → bit_or m b ≡ m + b
or_add n a m b e h = rw e (bit_or_add n a b h)

-- The four fields and the version, in their places.
uuid7_value :
    (t r : ℕ)
    → uuid7 t r
      ≡ t / 1000000 % 281474976710656 * 2 ^ 80
        + 7 * 2 ^ 76
        + rand_a r * 2 ^ 64
        + 2 * 2 ^ 62
        + rand_b r
unfolding uuid7
uuid7_value t r =
    let ms = t / 1000000 % 281474976710656 in
    let a : rand_a r < 4096 = omega (arith, mask_12 (r / 2 ^ 62)) in
    let b : rand_b r < 4611686018427387904 = omega (arith, mask_62 r) in
    ap
      (λ z.
        bit_or (bit_or (bit_or (bit_or (z * 2 ^ 80) (7 * 2 ^ 76)) (rand_a r * 2 ^ 64)) (2 * 2 ^ 62))
          (rand_b r))
      (mask_48 (t / 1000000))
    ∙ ap (λ z. bit_or (bit_or (bit_or z (rand_a r * 2 ^ 64)) (2 * 2 ^ 62)) (rand_b r))
        (or_add 80 ms (ms * 2 ^ 80) (7 * 2 ^ 76) (omega arith) (omega arith))
    ∙ ap (λ z. bit_or (bit_or z (2 * 2 ^ 62)) (rand_b r))
        (or_add 76 (ms * 16 + 7) (ms * 2 ^ 80 + 7 * 2 ^ 76) (rand_a r * 2 ^ 64) (omega arith)
          (omega (arith, a)))
    ∙ ap (λ z. bit_or z (rand_b r))
        (or_add 64 ((ms * 16 + 7) * 4096 + rand_a r) (ms * 2 ^ 80 + 7 * 2 ^ 76 + rand_a r * 2 ^ 64)
          (2 * 2 ^ 62) (omega arith) (omega arith))
    ∙ or_add 62 (((ms * 16 + 7) * 4096 + rand_a r) * 4 + 2)
        (ms * 2 ^ 80 + 7 * 2 ^ 76 + rand_a r * 2 ^ 64 + 2 * 2 ^ 62) (rand_b r) (omega arith)
        (omega (arith, b))

-- A UUIDv7 is a number of 128 bits with version 7 and variant 2 in their places and the milliseconds in
-- front, for any time and any random bytes; and of two times in different milliseconds, before the
-- timestamp wraps around at 2 ^ 48, the later one has the greater identifier.
pub uuid7_fields :
    (t r : ℕ)
    → (uuid7 t r < 2 ^ 128)
      × (uuid7 t r / 2 ^ 76 % 16 ≡ 7)
      × (uuid7 t r / 2 ^ 62 % 4 ≡ 2)
      × (uuid7 t r / 2 ^ 80 ≡ t / 1000000 % 2 ^ 48)
      × ((t' r' : ℕ) → t / 1000000 < t' / 1000000 → t' / 1000000 < 2 ^ 48 → uuid7 t r < uuid7 t' r')
uuid7_fields t r =
    let e = uuid7_value t r in
    let a : rand_a r < 4096 = omega (arith, mask_12 (r / 2 ^ 62)) in
    let b : rand_b r < 4611686018427387904 = omega (arith, mask_62 r) in
    (
      omega (arith, e, a, b),
      omega (arith, e, a, b),
      omega (arith, e, a, b),
      omega (arith, e, a, b),
      λ t' r' before fits. omega (arith, e, a, b, uuid7_value t' r'),
    )
