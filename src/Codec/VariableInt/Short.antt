-- ===== src/Codec/VariableInt/Short.antt =====
-- src/codec/decode.rs: a variable-length integer of which the end is still missing.
use mqtt_wasi.Prelude.{
  ℕ, suc, ◌+◌, ◌*◌, ◌/◌, ◌%◌, ◌≤◌, ◌<◌, ◌≡◌, sym, ap, ◌∙◌, inl, inr, [], ◌∷◌, ◌++◌, arith, ltb,
  le→ltb, Bool-cases, length, bit_and, bit_and_80, All,
}
use mqtt_wasi.Errors.{Error, err, malformed_packet}
use mqtt_wasi.Codec.Words.{Bytes, u32_mod}
use mqtt_wasi.Codec.Encode.{variable_int_max}
use mqtt_wasi.Codec.VariableInt.{variable_int}
use mqtt_wasi.Codec.Cursor.{
  Cursor, remaining, remaining_bytes, advance, ensure, read_u8, read_variable_int,
  variable_int_loop,
}
use mqtt_wasi.Codec.Cursor.Views.{Reads-u8, remaining_bytes-advance, remaining-eq-length}

abbrev pub end_of_data : Error
end_of_data = malformed_packet "unexpected end of data"

-- A byte with its top bit set, after which more follow.
abbrev IsMore : ℕ → Type 0
IsMore b = (128 ≤ b) × (b < 256)

-- A value's groups: all but the last have their top bit set, and there are at most three of them.
groups :
    (v : ℕ)
    → v ≤ variable_int_max
    → (more : Bytes) × (last : ℕ) × (variable_int v ≡ more ++ last ∷ [])
      × All IsMore more
      × (length more ≤ 3)
unfolding variable_int
groups v h = elim (Bool-cases (ltb v 128)) [
  | inl one ↦ ([], v, rw one, tt, omega arith)
  | inr more ↦ elim (Bool-cases (ltb v 16384)) [
    | inl two ↦ (
      (v % 128 + 128) ∷ [],
      v / 128,
      rw (more, two),
      ((omega arith, omega arith), tt),
      omega arith,
    )
    | inr more' ↦ elim (Bool-cases (ltb v 2097152)) [
      | inl three ↦ (
        (v % 128 + 128) ∷ (v / 128 % 128 + 128) ∷ [],
        v / 16384,
        rw (more, more', three),
        ((omega arith, omega arith), ((omega arith, omega arith), tt)),
        omega arith,
      )
      | inr four ↦ (
        (v % 128 + 128) ∷ (v / 128 % 128 + 128) ∷ (v / 16384 % 128 + 128) ∷ [],
        v / 2097152,
        rw (more, more', four),
        (
          (omega arith, omega arith),
          ((omega arith, omega arith), ((omega arith, omega arith), tt)),
        ),
        omega arith,
      )
    ]
  ]
]

-- What stands before the last byte of such a list has only bytes after which more follow.
before_last :
    (more : Bytes) (last : ℕ) (p : Bytes) (z : ℕ) (zs : Bytes)
    → more ++ last ∷ [] ≡ p ++ z ∷ zs
    → All IsMore more
    → All IsMore p × (length p ≤ length more)
before_last more last [] z zs h a = (tt, omega arith)
before_last [] last (b ∷ []) z zs h a = cc
before_last [] last (b ∷ b' ∷ p) z zs h a = cc
before_last (m ∷ more) last (b ∷ p) z zs h (am, as') =
    let e : m ≡ b = cc in
    let e' : more ++ last ∷ [] ≡ p ++ z ∷ zs = cc in
    let (rest, le) = before_last more last p z zs e' as' in ((rw (← e) am, rest), omega arith)

u8_end : (c : Cursor) → remaining_bytes c ≡ [] → read_u8 c ≡ err end_of_data
unfolding read_u8 ensure
u8_end c h = let e : remaining c ≡ 0 = remaining-eq-length c ∙ ap length h in rw e

loop_end :
    (fuel value m : ℕ) (c : Cursor)
    → remaining_bytes c ≡ []
    → variable_int_loop (suc fuel) value m c ≡ err end_of_data
unfolding variable_int_loop
loop_end fuel value m c h = rw (u8_end c h)

loop_more :
    (fuel value m b : ℕ) (c : Cursor) (rest : Bytes)
    → IsMore b
    → m * 128 ≤ 2097152
    → remaining_bytes c ≡ b ∷ rest
    → variable_int_loop (suc fuel) value m c
      ≡ variable_int_loop fuel
          ((value + bit_and b 0x7F * m % u32_mod) % u32_mod)
          (m * 128)
          (advance 1 c)
unfolding variable_int_loop
loop_more fuel value m b c rest (lo, hi) fits h =
    let high : bit_and b 0x80 ≡ 128 = omega (arith, bit_and_80 b hi) in
    let product : m * 128 % u32_mod ≡ m * 128 = omega arith in
    rw ((Reads-u8 b).at c rest h, high, product, le→ltb 2097152 (m * 128) fits)

more_end :
    (p : Bytes) (c : Cursor)
    → All IsMore p
    → length p ≤ 3
    → remaining_bytes c ≡ p
    → read_variable_int c ≡ err end_of_data
unfolding read_variable_int
more_end [] c a n h = loop_end 3 0 1 c h
more_end (x ∷ []) c (ax, a) n h =
    rw (loop_more 3 0 1 x c [] ax (omega arith) h)
      (loop_end 2 _ 128 (advance 1 c) (remaining_bytes-advance c (x ∷ []) [] h))
more_end (x ∷ y ∷ []) c (ax, (ay, a)) n h =
    let c₁ = advance 1 c in
    let h₁ = remaining_bytes-advance c (x ∷ []) (y ∷ []) h in
    rw
      (
        loop_more 3 0 1 x c (y ∷ []) ax (omega arith) h,
        loop_more 2 ((0 + bit_and x 0x7F * 1 % u32_mod) % u32_mod) 128 y c₁ [] ay (omega arith) h₁,
      )
      (loop_end 1 _ 16384 (advance 1 c₁) (remaining_bytes-advance c₁ (y ∷ []) [] h₁))
more_end (x ∷ y ∷ z ∷ []) c (ax, (ay, (az, a))) n h =
    let c₁ = advance 1 c in
    let c₂ = advance 1 c₁ in
    let h₁ = remaining_bytes-advance c (x ∷ []) (y ∷ z ∷ []) h in
    let h₂ = remaining_bytes-advance c₁ (y ∷ []) (z ∷ []) h₁ in
    let v₁ = (0 + bit_and x 0x7F * 1 % u32_mod) % u32_mod in
    let v₂ = (v₁ + bit_and y 0x7F * 128 % u32_mod) % u32_mod in
    rw
      (
        loop_more 3 0 1 x c (y ∷ z ∷ []) ax (omega arith) h,
        loop_more 2 v₁ 128 y c₁ (z ∷ []) ay (omega arith) h₁,
        loop_more 1 v₂ 16384 z c₂ [] az (omega arith) h₂,
      )
      (loop_end 0 _ 2097152 (advance 1 c₂) (remaining_bytes-advance c₂ (z ∷ []) [] h₂))
more_end (x ∷ y ∷ z ∷ w ∷ p) c a n h = absurd (omega arith)

-- A value of which the last byte is missing, at least, is the end of the data, and no value.
pub read_variable_int-short :
    (v : ℕ) (p : Bytes) (z : ℕ) (zs : Bytes) (c : Cursor)
    → v ≤ variable_int_max
    → variable_int v ≡ p ++ z ∷ zs
    → remaining_bytes c ≡ p
    → read_variable_int c ≡ err end_of_data
read_variable_int-short v p z zs c small split h =
    let (more, last, e, a, n) = groups v small in
    let (ap', le) = before_last more last p z zs (sym e ∙ split) a in
    more_end p c ap' (omega arith) h
