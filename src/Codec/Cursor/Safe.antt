-- ===== src/Codec/Cursor/Safe.antt =====
-- src/codec/decode.rs: the reads on any input, by how they move the cursor and how they fail.
use mqtt_wasi.Prelude.{
  ℕ, suc, ◌+◌, ◌*◌, ◌%◌, ◌≤◌, ◌≡◌, ◌≢◌, refl, ap, ◌∙◌, Bool, true, false, inl, inr, arith, ltb,
  ltb→le, ◌==◌, Bool-cases, if◌then◌else◌, length, String, bit_and,
}
use mqtt_wasi.Errors
use mqtt_wasi.Errors.{
  Error, Result, ok, err, malformed_packet, out_of_fuel, fail_if, Ends, Ends-ok, Ends-if,
  Ends-fail_if, Ends-malformed,
}
use mqtt_wasi.Codec.Words.{u32_mod}
use mqtt_wasi.Codec.Utf8.{is_utf8, has_null}
use mqtt_wasi.Codec.Cursor.{
  Cursor, Read, ◌>>=◌, ◌>>◌, pure, lift, gets, remaining, advance, ensure, read_u8, read_u16,
  read_u32, read_bytes, read_string, read_binary, read_variable_int, variable_int_loop,
}

-- The position is an index of the slice, or its end.
abbrev pub IsWithin : Cursor → Type 0
IsWithin c = c.pos ≤ length c.buf

-- From `c` to `c'`, over `k` bytes at least.
pub record Moves (k : ℕ) (c c' : Cursor) : Type 0 where
  pub same_buf : c'.buf ≡ c.buf
  pub forward : c.pos + k ≤ c'.pos
  pub within : c'.pos ≤ length c.buf

abbrev pub Fine : {A : Type 0} → ℕ → Cursor → Result (A × Cursor) → Type 0
Fine k c (ok (a, c')) = Moves k c c'
Fine k c (err e) = e ≢ out_of_fuel

pub record Safe {A : Type 0} (k : ℕ) (read : Read A) : Type 0 where
  pub at : (c : Cursor) → IsWithin c → Fine k c (read c)

pub Moves-IsWithin : {k : ℕ} {c c' : Cursor} → Moves k c c' → IsWithin c'
Moves-IsWithin {c = c} {c' = c'} m =
    let e : length c'.buf ≡ length c.buf = ap length m.same_buf in omega arith

pub Fine-trans :
    {B : Type 0} (j k : ℕ) (c c' : Cursor) (r : Result (B × Cursor))
    → Moves j c c'
    → Fine k c' r
    → Fine (j + k) c r
Fine-trans j k c c' (ok (b, c'')) m n = record {
  same_buf = n.same_buf ∙ m.same_buf;
  forward = omega arith;
  within = let e : length c'.buf ≡ length c.buf = ap length m.same_buf in omega arith;
}
Fine-trans j k c c' (err e) m n = n

module _ {A B : Type 0} where
  pub Fine-bind :
      (j k : ℕ) (c : Cursor) (r : Result (A × Cursor)) (f : A → Read B)
      → Fine j c r
      → ((a : A) → Safe k (f a))
      → Fine (j + k) c (Errors.◌>>=◌ r λ (a, c'). f a c')
  Fine-bind j k c (ok (a, c')) f m s =
      Fine-trans j k c c' (f a c') m ((s a).at c' (Moves-IsWithin m))
  Fine-bind j k c (err e) f m s = m

  pub Safe-bind :
      (j k : ℕ) (read : Read A) (f : A → Read B)
      → Safe j read
      → ((a : A) → Safe k (f a))
      → Safe (j + k) (read >>= f)
  Safe-bind j k read f s t = record { at = λ c h. Fine-bind j k c (read c) f (s.at c h) t }

pub here : (c : Cursor) → IsWithin c → Moves 0 c c
here c h = record { same_buf = refl; forward = omega arith; within = h }

module _ {A : Type 0} where
  pub Safe-pure : (a : A) → Safe 0 (pure a)
  Safe-pure a = record { at = λ c h. here c h }

  pub Safe-gets : (f : Cursor → A) → Safe 0 (gets f)
  Safe-gets f = record { at = λ c h. here c h }

  pub Safe-lift : (r : Result A) → Ends r → Safe 0 (lift r)
  Safe-lift (ok a) n = Safe-pure a
  Safe-lift (err e) n = record { at = λ c h p. n.ends (ap err p) }

  pub Safe-if :
      (k : ℕ) (b : Bool) (x y : Read A) → Safe k x → Safe k y → Safe k (if b then x else y)
  Safe-if k true x y p q = p
  Safe-if k false x y p q = q

  -- At least `j` is at least `k`, where `k` is at most `j`.
  pub Fine-weaken :
      (j k : ℕ) (c : Cursor) (r : Result (A × Cursor)) → k ≤ j → Fine j c r → Fine k c r
  Fine-weaken j k c (ok (a, c')) h m = record {
    same_buf = m.same_buf;
    forward = omega arith;
    within = m.within;
  }
  Fine-weaken j k c (err e) h n = n

  pub Safe-weaken : (j k : ℕ) (read : Read A) → k ≤ j → Safe j read → Safe k read
  Safe-weaken j k read h s = record { at = λ c w. Fine-weaken j k c (read c) h (s.at c w) }

-- A check that fails with a message of its own.
pub Safe-check : (b : Bool) (why : String) → Safe 0 (lift (fail_if b (malformed_packet why)))
Safe-check b why = Safe-lift _ (Ends-fail_if b why)

pub Safe-fail : {A : Type 0} (why : String) → Safe 0 (lift {A = A} (err (malformed_packet why)))
Safe-fail why = Safe-lift _ (Ends-malformed _ why)

-- A read of `n` bytes, whatever is made of them.
Safe-take : {A : Type 0} (n : ℕ) (g : Cursor → A) → Safe n (ensure n >> λ c. ok (g c, advance n c))
unfolding ensure
Safe-take n g = record {
  at = λ c h. elim (Bool-cases (ltb (remaining c) n)) [
    | inl short ↦ rw short (λ e. cc)
    | inr long ↦
        let l = ltb→le _ _ long in
        rw long (record { same_buf = refl; forward = omega arith; within = omega arith })
  ];
}

pub Safe-u8 : Safe 1 read_u8
unfolding read_u8
Safe-u8 = Safe-take 1 _

pub Safe-u16 : Safe 2 read_u16
unfolding read_u16
Safe-u16 = Safe-take 2 _

pub Safe-u32 : Safe 4 read_u32
unfolding read_u32
Safe-u32 = Safe-take 4 _

pub Safe-bytes : (n : ℕ) → Safe 0 (read_bytes n)
unfolding read_bytes
Safe-bytes n = Safe-weaken n 0 _ (omega arith) (Safe-take n _)

pub Safe-binary : Safe 2 read_binary
unfolding read_binary
Safe-binary = Safe-bind 2 0 read_u16 _ Safe-u16 Safe-bytes

pub Safe-string : Safe 2 read_string
unfolding read_string
Safe-string = Safe-bind 2 0 read_u16 _ Safe-u16 λ len.
    Safe-bind 0 0 (read_bytes len) _ (Safe-bytes len) λ bytes.
      Safe-bind 0 0 _ _ (Safe-check (has_null bytes) _)
        λ _. Safe-lift _ (Ends-if (is_utf8 bytes) _ _ (Ends-ok bytes) (Ends-malformed _ _))

-- A round of the loop that another round may follow.
Safe-round :
    (fuel value m : ℕ)
    → ((v : ℕ) → Safe 1 (variable_int_loop fuel v (m * 128 % u32_mod)))
    → Safe 1 (variable_int_loop (suc fuel) value m)
unfolding variable_int_loop
Safe-round fuel value m again = Safe-bind 1 0 read_u8 _ Safe-u8 λ byte.
    Safe-if 0 (bit_and byte 0x80 == 0) _ _ (Safe-pure _) (
      Safe-if 0 (ltb (128 * 128 * 128) (m * 128 % u32_mod)) _ _ (Safe-fail _)
        (Safe-weaken 1 0 _ (omega arith) (again _)))

-- In the fourth round the multiplier passes the limit, so that no fuel is asked for.
Safe-last : (value : ℕ) → Safe 1 (variable_int_loop 1 value 2097152)
unfolding variable_int_loop
Safe-last value =
    Safe-bind 1 0 read_u8 _ Safe-u8
      λ byte. Safe-if 0 (bit_and byte 0x80 == 0) _ _ (Safe-pure _) (Safe-fail _)

pub Safe-variable_int : Safe 1 read_variable_int
unfolding read_variable_int
Safe-variable_int = Safe-round 3 0 1 λ v. Safe-round 2 v 128 λ v'. Safe-round 1 v' 16384 Safe-last
