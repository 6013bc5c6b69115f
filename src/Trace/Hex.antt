-- ===== src/Trace/Hex.antt =====
-- src/trace.rs: `hex_decode_fixed` on what `hex_encode` wrote.
use mqtt_wasi.Prelude.{
  ℕ, suc, ◌*◌, ◌/◌, ◌%◌, ◌<◌, ◌≡◌, refl, ap, ◌∙◌, true, false, Option, none, some, [], ◌∷◌, arith,
  ◌==◌, length, All, bit_or, bit_and_0f, bit_or_nibbles, agree_below→eq, if◌then◌else◌, ==_iff,
}
use mqtt_wasi.Codec.Words.{Bytes, IsByte}
use mqtt_wasi.Codec.Topic.{has}
use mqtt_wasi.Trace.{dash, hex_digit, hex_encode, hex_nibble, hex_decode, hex_decode_fixed}

abbrev position : Option ℕ → ℕ
position none = 0
position (some n) = suc n

some_of_position : (o : Option ℕ) (n : ℕ) → position o ≡ suc n → o ≡ some n
some_of_position none n h = absurd (omega arith)
some_of_position (some m) n h = ap some (omega arith)

nibble_digit : (n : ℕ) → n < 16 → hex_nibble (hex_digit n) ≡ some n
unfolding hex_nibble
nibble_digit n h =
    some_of_position _ n (agree_below→eq (λ k. position (hex_nibble (hex_digit k))) suc 16 refl n h)

digit_no_dash : (n : ℕ) → n < 16 → (hex_digit n == dash) ≡ false
digit_no_dash n h =
    let e = agree_below→eq (λ k. if hex_digit k == dash then 1 else 0) (λ k. 0) 16 refl n h in
    ground arith

-- Two digits of a byte.
byte_of_digits : (b : ℕ) → b < 256 → bit_or (b / 16 * 16 % 256) (b % 16) ≡ b
byte_of_digits b h =
    let e : b / 16 * 16 % 256 ≡ b / 16 * 16 = omega arith in
    rw e (bit_or_nibbles (b / 16) (b % 16) (omega arith) (omega arith) ∙ omega arith)

pub hex_decode-hex_encode :
    (bytes : Bytes) → All IsByte bytes → hex_decode (hex_encode bytes) ≡ some bytes
unfolding hex_encode hex_decode
hex_decode-hex_encode [] are = refl
hex_decode-hex_encode (b ∷ bytes) are = rw (
  bit_and_0f b are.0,
  nibble_digit (b / 16) (let h = are.0 in omega arith),
  nibble_digit (b % 16) (omega arith),
  hex_decode-hex_encode bytes are.1,
  byte_of_digits b are.0,
)

pub length-hex_encode : (bytes : Bytes) → length (hex_encode bytes) ≡ length bytes * 2
unfolding hex_encode
length-hex_encode [] = refl
length-hex_encode (b ∷ bytes) = omega (arith, length-hex_encode bytes)

pub hex_encode-no_dash : (bytes : Bytes) → All IsByte bytes → has dash (hex_encode bytes) ≡ false
unfolding hex_encode
hex_encode-no_dash [] are = refl
hex_encode-no_dash (b ∷ bytes) are = rw (
  bit_and_0f b are.0,
  digit_no_dash (b / 16) (let h = are.0 in omega arith),
  digit_no_dash (b % 16) (omega arith),
  hex_encode-no_dash bytes are.1,
)

-- The fixed-size decoder gives the bytes back.
pub hex_decode_fixed-hex_encode :
    (n : ℕ) (bytes : Bytes)
    → length bytes ≡ n
    → All IsByte bytes
    → hex_decode_fixed n (hex_encode bytes) ≡ some bytes
unfolding hex_decode_fixed
hex_decode_fixed-hex_encode n bytes e are =
    let same : (length (hex_encode bytes) == n * 2) ≡ true =
      (==_iff _ _).1 (omega (arith, length-hex_encode bytes)) in
    rw (same, hex_decode-hex_encode bytes are)
