-- ===== src/Codec/VariableInt.antt =====
-- Variable-length integers, written by src/codec/encode.rs and read by src/codec/decode.rs, against
-- the format's groups of seven bits.
pub mod Short
use mqtt_wasi.Prelude.{
  ℕ, zero, suc, ◌+◌, ◌*◌, ◌/◌, ◌%◌, ◌≤◌, ◌<◌, ◌≡◌, refl, sym, ap, ◌∙◌, ◌≢◌, ◌⊎◌, inl, inr, true,
  false, [], ◌∷◌, ◌++◌, append_assoc, arith, ltb, ◌==◌, tests, le→ltb, ltb→lt, lt→ltb, ltb→le,
  Bool-cases, if◌then◌else◌, length, length-append, bit_and, bit_or, bit_and_7f, bit_and_byte_7f,
  bit_and_80, bit_or_80,
}
use mqtt_wasi.Errors.{Result, ok, err, ◌>>=◌, packet_too_large, out_of_fuel}
use mqtt_wasi.Codec.Words.{Bytes, u32_mod}
use mqtt_wasi.Codec.Encode.{
  encode_variable_int, encode_variable_int_loop, variable_int_max, variable_int_len,
}
use mqtt_wasi.Codec.Cursor.{
  Cursor, remaining_bytes, advance, read_u8, read_variable_int, variable_int_loop,
}
use mqtt_wasi.Codec.Cursor.Views.{Reads, Reads-u8, remaining_bytes-advance, ok_at, Reads-eq}

-- The format: groups of seven bits, lowest first, with the top bit set on all but the last.
unfoldable pub variable_int : ℕ → Bytes
variable_int v =
    if ltb v 128
    then v ∷ []
    else if ltb v 16384
    then (v % 128 + 128) ∷ (v / 128) ∷ []
    else if ltb v 2097152
    then (v % 128 + 128) ∷ (v / 128 % 128 + 128) ∷ (v / 16384) ∷ []
    else (v % 128 + 128) ∷ (v / 128 % 128 + 128) ∷ (v / 16384 % 128 + 128) ∷ (v / 2097152) ∷ []

pub length-variable_int : (v : ℕ) → length (variable_int v) ≡ variable_int_len v
unfolding variable_int variable_int_len
length-variable_int v = ground arith

pub variable_int_small : (v : ℕ) → v < 128 → variable_int v ≡ v ∷ []
unfolding variable_int
variable_int_small v h = rw (lt→ltb _ _ h)

-- One round of the writer, on the last group and on another.
write_last :
    (fuel : ℕ) (buf : Bytes) (v : ℕ)
    → v < 128
    → encode_variable_int_loop (suc fuel) buf v ≡ ok (buf ++ v ∷ [])
unfolding encode_variable_int_loop
write_last fuel buf v h = ground (arith, bit_and_7f v)

write_more :
    (fuel : ℕ) (buf : Bytes) (v : ℕ)
    → 128 ≤ v
    → encode_variable_int_loop (suc fuel) buf v
      ≡ encode_variable_int_loop fuel (buf ++ (v % 128 + 128) ∷ []) (v / 128)
unfolding encode_variable_int_loop
write_more fuel buf v h = ground (arith, bit_and_7f v, bit_or_80 (v % 128))

-- One round of the reader.
read_last :
    (fuel value m b : ℕ) (c : Cursor) (rest : Bytes)
    → b < 128
    → value + b * m < u32_mod
    → remaining_bytes c ≡ b ∷ rest
    → variable_int_loop (suc fuel) value m c ≡ ok (value + b * m, advance 1 c)
unfolding variable_int_loop
read_last fuel value m b c rest hb small h =
    rw ((Reads-u8 b).at c rest h) (ground (arith, bit_and_byte_7f b, bit_and_80 b))

read_more :
    (fuel value m b : ℕ) (c : Cursor) (rest : Bytes)
    → b < 128
    → value + b * m < u32_mod
    → m * 128 ≤ 2097152
    → remaining_bytes c ≡ (b + 128) ∷ rest
    → variable_int_loop (suc fuel) value m c
      ≡ variable_int_loop fuel (value + b * m) (m * 128) (advance 1 c)
unfolding variable_int_loop
read_more fuel value m b c rest hb small fits h =
    rw ((Reads-u8 (b + 128)).at c rest h, low, high, sum, product, le→ltb 2097152 (m * 128) fits)
  where
    low : bit_and (b + 128) 0x7F ≡ b
    low = omega (arith, bit_and_byte_7f (b + 128) (omega arith))

    high : bit_and (b + 128) 0x80 ≡ 128
    high = omega (arith, bit_and_80 (b + 128) (omega arith))

    sum : (value + b * m % u32_mod) % u32_mod ≡ value + b * m
    sum = omega arith

    product : m * 128 % u32_mod ≡ m * 128
    product = omega arith

write_groups :
    (buf : Bytes) (v : ℕ)
    → v ≤ variable_int_max
    → encode_variable_int_loop 5 buf v ≡ ok (buf ++ variable_int v)
unfolding variable_int
write_groups buf v h =
    let v₁ = v / 128 in
    let v₂ = v₁ / 128 in
    let v₃ = v₂ / 128 in
    let b₁ = buf ++ (v % 128 + 128) ∷ [] in
    let b₂ = b₁ ++ (v₁ % 128 + 128) ∷ [] in
    let b₃ = b₂ ++ (v₂ % 128 + 128) ∷ [] in
    let e₂ : v₂ ≡ v / 16384 = omega arith in
    let e₃ : v₃ ≡ v / 2097152 = omega arith in
    ground (
      arith,
      write_last 4 buf v,
      write_more 4 buf v,
      write_last 3 b₁ v₁,
      write_more 3 b₁ v₁,
      write_last 2 b₂ v₂,
      write_more 2 b₂ v₂,
      write_last 1 b₃ v₃,
      append_assoc buf ((v % 128 + 128) ∷ []) (v₁ ∷ []),
      append_assoc b₁ ((v₁ % 128 + 128) ∷ []) (v₂ ∷ []),
      append_assoc buf ((v % 128 + 128) ∷ []) ((v₁ % 128 + 128) ∷ v₂ ∷ []),
      append_assoc b₂ ((v₂ % 128 + 128) ∷ []) (v₃ ∷ []),
      append_assoc b₁ ((v₁ % 128 + 128) ∷ []) ((v₂ % 128 + 128) ∷ v₃ ∷ []),
      append_assoc buf ((v % 128 + 128) ∷ []) ((v₁ % 128 + 128) ∷ (v₂ % 128 + 128) ∷ v₃ ∷ []),
    )

-- Every value up to 268435455 is written as its groups of seven bits; a larger one is refused.
pub encode_variable_int_lem :
    (buf : Bytes) (v : ℕ)
    → encode_variable_int buf v ≡ (
        if ltb variable_int_max v
        then err (packet_too_large v variable_int_max)
        else ok (buf ++ variable_int v))
unfolding encode_variable_int
encode_variable_int_lem buf v = elim (Bool-cases (ltb variable_int_max v)) [
  | inl big ↦ rw big
  | inr small ↦ rw (small, write_groups buf v (ltb→le _ _ small))
]

pub encode_variable_int-inv :
    (buf : Bytes) (v : ℕ) {out : Bytes} → encode_variable_int buf v ≡ ok out → v ≤ variable_int_max
encode_variable_int-inv buf v h = elim (Bool-cases (ltb variable_int_max v)) [
  | inl big ↦ let e = rw big at (encode_variable_int_lem buf v) in cc
  | inr small ↦ ltb→le _ _ small
]

-- The reader on one to four groups.
one_group : (a : ℕ) → a < 128 → Reads read_variable_int (a ∷ []) a
unfolding read_variable_int
one_group a ha = record {
  at = λ c rest h.
      let e : 0 + a * 1 ≡ a = omega arith in rw (read_last 3 0 1 a c rest ha (omega arith) h, e);
}

two_groups :
    (a b : ℕ) → a < 128 → b < 128 → Reads read_variable_int ((a + 128) ∷ b ∷ []) (a + b * 128)
unfolding read_variable_int
two_groups a b ha hb = record {
  at = λ c rest h.
      let h₁ = remaining_bytes-advance c ((a + 128) ∷ []) (b ∷ rest) h in
      let e : 0 + a * 1 + b * 128 ≡ a + b * 128 = omega arith in
      rw
        (
          read_more 3 0 1 a c (b ∷ rest) ha (omega arith) (omega arith) h,
          read_last 2 (0 + a * 1) 128 b (advance 1 c) rest hb (omega arith) h₁,
          e,
        )
        (ok_at _ c (c.pos + 1 + 1) (c.pos + 2) (omega arith));
}

three_groups :
    (a b d : ℕ)
    → a < 128
    → b < 128
    → d < 128
    → Reads read_variable_int ((a + 128) ∷ (b + 128) ∷ d ∷ []) (a + b * 128 + d * 16384)
unfolding read_variable_int
three_groups a b d ha hb hd = record {
  at = λ c rest h.
      let h₁ = remaining_bytes-advance c ((a + 128) ∷ []) ((b + 128) ∷ d ∷ rest) h in
      let h₂ = remaining_bytes-advance (advance 1 c) ((b + 128) ∷ []) (d ∷ rest) h₁ in
      let e : 0 + a * 1 + b * 128 + d * 16384 ≡ a + b * 128 + d * 16384 = omega arith in
      rw
        (
          read_more 3 0 1 a c _ ha (omega arith) (omega arith) h,
          read_more 2 (0 + a * 1) 128 b (advance 1 c) _ hb (omega arith) (omega arith) h₁,
          read_last 1 (0 + a * 1 + b * 128) 16384 d (advance 1 (advance 1 c)) rest hd (omega arith)
              h₂,
          e,
        )
        (ok_at _ c (c.pos + 1 + 1 + 1) (c.pos + 3) (omega arith));
}

four_groups :
    (a b d g : ℕ)
    → a < 128
    → b < 128
    → d < 128
    → g < 128
    → Reads read_variable_int
        ((a + 128) ∷ (b + 128) ∷ (d + 128) ∷ g ∷ [])
        (a + b * 128 + d * 16384 + g * 2097152)
unfolding read_variable_int
four_groups a b d g ha hb hd hg = record {
  at = λ c rest h.
      let h₁ = remaining_bytes-advance c ((a + 128) ∷ []) ((b + 128) ∷ (d + 128) ∷ g ∷ rest) h in
      let h₂ = remaining_bytes-advance (advance 1 c) ((b + 128) ∷ []) ((d + 128) ∷ g ∷ rest) h₁ in
      let c₂ = advance 1 (advance 1 c) in
      let h₃ = remaining_bytes-advance c₂ ((d + 128) ∷ []) (g ∷ rest) h₂ in
      let v₁ = 0 + a * 1 in
      let v₂ = v₁ + b * 128 in
      let v₃ = v₂ + d * 16384 in
      let e : v₃ + g * 2097152 ≡ a + b * 128 + d * 16384 + g * 2097152 = omega arith in
      rw
        (
          read_more 3 0 1 a c _ ha (omega arith) (omega arith) h,
          read_more 2 v₁ 128 b (advance 1 c) _ hb (omega arith) (omega arith) h₁,
          read_more 1 v₂ 16384 d c₂ _ hd (omega arith) (omega arith) h₂,
          read_last 0 v₃ 2097152 g (advance 1 c₂) rest hg (omega arith) h₃,
          e,
        )
        (ok_at _ c (c.pos + 1 + 1 + 1 + 1) (c.pos + 4) (omega arith));
}

-- The reader takes the groups of a value that is at most 268435455, whatever follows them, and
-- gives the value back.
pub Reads-variable_int : (v : ℕ) → v ≤ variable_int_max → Reads read_variable_int (variable_int v) v
unfolding variable_int
Reads-variable_int v h = elim (Bool-cases (ltb v 128)) [
  | inl one ↦ Reads-eq read_variable_int (v ∷ []) (one_group v (ltb→lt _ _ one)) (rw one) refl
  | inr more ↦ elim (Bool-cases (ltb v 16384)) [
    | inl two ↦
        Reads-eq read_variable_int ((v % 128 + 128) ∷ v / 128 ∷ [])
          (two_groups (v % 128) (v / 128) (omega arith) (omega tests)) (rw (more, two))
          (omega arith)
    | inr more' ↦ elim (Bool-cases (ltb v 2097152)) [
      | inl three ↦
          Reads-eq read_variable_int ((v % 128 + 128) ∷ (v / 128 % 128 + 128) ∷ v / 16384 ∷ [])
            (three_groups (v % 128) (v / 128 % 128) (v / 16384) (omega arith) (omega arith)
              (omega tests))
            (rw (more, more', three)) (omega arith)
      | inr four ↦
          Reads-eq read_variable_int
            ((v % 128 + 128) ∷ (v / 128 % 128 + 128) ∷ (v / 16384 % 128 + 128) ∷ v / 2097152 ∷ [])
            (four_groups (v % 128) (v / 128 % 128) (v / 16384 % 128) (v / 2097152) (omega arith)
              (omega arith) (omega arith) (omega arith))
            (rw (more, more', four)) (omega arith)
    ]
  ]
]
