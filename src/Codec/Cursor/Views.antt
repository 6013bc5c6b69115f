-- ===== src/Codec/Cursor/Views.antt =====
-- The reads of a cursor, by what stands before it: `Reads read bytes a` says that `read` takes
-- exactly `bytes`, gives `a`, and does not look at what follows.
use mqtt_wasi.Prelude.{
  ℕ, suc, ◌+◌, ◌*◌, ◌/◌, ◌%◌, ◌≤◌, ◌≡◌, sym, ap, ◌∙◌, false, [], ◌∷◌, ◌++◌, append_assoc, arith,
  le→ltb, length, drop, length-append, length-drop, drop-drop, drop-append, take-append,
  get_or-drop,
}
use mathlib.Core.Path.{subst₂}
use mqtt_wasi.Errors.{Result, ok}
use mqtt_wasi.Codec.Words.{Bytes, u16_bytes, u32_bytes}
use mqtt_wasi.Codec.Utf8.{has_null, IsText}
use mqtt_wasi.Codec.Cursor.{
  Cursor, Read, ◌>>=◌, remaining, remaining_bytes, advance, at as byte_at, ensure, read_u8,
  read_u16, read_u32, read_bytes, read_string, read_binary,
}

pub record Reads {A : Type 0} (read : Read A) (bytes : Bytes) (a : A) : Type 0 where
  pub at :
      (c : Cursor) (rest : Bytes)
      → remaining_bytes c ≡ bytes ++ rest
      → read c ≡ ok (a, advance (length bytes) c)

pub remaining-eq-length : (c : Cursor) → remaining c ≡ length (remaining_bytes c)
remaining-eq-length c = sym (length-drop c.pos c.buf)

pub remaining_bytes-advance :
    (c : Cursor) (xs ys : Bytes)
    → remaining_bytes c ≡ xs ++ ys
    → remaining_bytes (advance (length xs) c) ≡ ys
remaining_bytes-advance c xs ys h =
    sym (drop-drop (length xs) c.pos c.buf) ∙ ap (drop (length xs)) h ∙ drop-append xs ys

pub advance-advance : (m n : ℕ) (c : Cursor) → advance m (advance n c) ≡ advance (n + m) c
advance-advance m n c =
    let e : c.pos + n + m ≡ c.pos + (n + m) = omega arith in ap (λ k. record c { pos = k }) e

-- Two results that agree but for how the position was computed.
pub ok_at :
    {A : Type 0} (a : A) (c : Cursor) (m n : ℕ)
    → m ≡ n
    → ◌≡◌ {A = Result (A × Cursor)} (ok (a, record c { pos = m })) (ok (a, record c { pos = n }))
ok_at {A} a c m n e = ap (λ k. ok (a, record c { pos = k })) e

pub Reads-eq :
    {A : Type 0} (read : Read A) (xs : Bytes) {ys : Bytes} {a b : A}
    → Reads read xs a
    → xs ≡ ys
    → a ≡ b
    → Reads read ys b
Reads-eq read xs {ys} {a} {b} reads e f = subst₂ (λ bytes v. Reads read bytes v) e f reads

module _ {A B : Type 0} where
  pub Reads-bind :
      (read : Read A) (f : A → Read B) (xs ys : Bytes) (a : A) (b : B)
      → Reads read xs a
      → Reads (f a) ys b
      → Reads (read >>= f) (xs ++ ys) b
  Reads-bind read f xs ys a b p q = record {
    at = λ c rest h.
        let h' : remaining_bytes c ≡ xs ++ (ys ++ rest) = h ∙ append_assoc xs ys rest in
        rw (p.at c (ys ++ rest) h') (
          q.at (advance (length xs) c) rest (remaining_bytes-advance c xs (ys ++ rest) h')
          ∙ ap (λ c'. ok (b, c')) (advance-advance (length ys) (length xs) c)
          ∙ ap (λ n. ok (b, advance n c)) (sym (length-append xs ys)));
  }

pub ensure_lem : (n : ℕ) (c : Cursor) → n ≤ remaining c → ensure n c ≡ ok (tt, c)
unfolding ensure
ensure_lem n c h = rw (le→ltb _ _ h)

enough : (c : Cursor) (xs ys : Bytes) → remaining_bytes c ≡ xs ++ ys → length xs ≤ remaining c
enough c xs ys h = omega (arith, remaining-eq-length c, ap length h, length-append xs ys)

at_lem :
    (c : Cursor) (front : Bytes) (b : ℕ) (rest : Bytes)
    → remaining_bytes c ≡ front ++ b ∷ rest
    → byte_at c (length front) ≡ b
at_lem c front b rest h =
    get_or-drop (c.pos + length front) c.buf b 0 rest (remaining_bytes-advance c front (b ∷ rest) h)

pub Reads-u8 : (b : ℕ) → Reads read_u8 (b ∷ []) b
unfolding read_u8
Reads-u8 b = record {
  at = λ c rest h. rw (ensure_lem 1 c (enough c (b ∷ []) rest h)) (cc (at_lem c [] b rest h));
}

pub Reads-u16 : (v : ℕ) → Reads read_u16 (u16_bytes v) v
unfolding read_u16
Reads-u16 v = record {
  at = λ c rest h.
      let (hi, lo) : ℕ × ℕ = (v / 256, v % 256) in
      let e : byte_at c 0 * 256 + byte_at c 1 ≡ v =
        omega (arith, at_lem c [] hi (lo ∷ rest) h, at_lem c (hi ∷ []) lo rest h) in
      rw (ensure_lem 2 c (enough c (u16_bytes v) rest h), e);
}

pub Reads-u32 : (v : ℕ) → Reads read_u32 (u32_bytes v) v
unfolding read_u32
Reads-u32 v = record {
  at = λ c rest h.
      let (b₀, b₁, b₂, b₃) : ℕ × ℕ × ℕ × ℕ =
        (v / 16777216, v / 65536 % 256, v / 256 % 256, v % 256) in
      let e : ((byte_at c 0 * 256 + byte_at c 1) * 256 + byte_at c 2) * 256 + byte_at c 3 ≡ v =
        omega (
          arith,
          at_lem c [] b₀ (b₁ ∷ b₂ ∷ b₃ ∷ rest) h,
          at_lem c (b₀ ∷ []) b₁ (b₂ ∷ b₃ ∷ rest) h,
          at_lem c (b₀ ∷ b₁ ∷ []) b₂ (b₃ ∷ rest) h,
          at_lem c (b₀ ∷ b₁ ∷ b₂ ∷ []) b₃ rest h,
        ) in
      rw (ensure_lem 4 c (enough c (u32_bytes v) rest h), e);
}

pub Reads-bytes : (bytes : Bytes) → Reads (read_bytes (length bytes)) bytes bytes
unfolding read_bytes
Reads-bytes bytes = record {
  at = λ c rest h.
      rw (ensure_lem (length bytes) c (enough c bytes rest h), h, take-append bytes rest);
}

-- A `Vec<u8>` behind its length.
pub Reads-binary : (bytes : Bytes) → Reads read_binary (u16_bytes (length bytes) ++ bytes) bytes
unfolding read_binary
Reads-binary bytes =
    Reads-bind read_u16 read_bytes (u16_bytes (length bytes)) bytes (length bytes) bytes
      (Reads-u16 (length bytes)) (Reads-bytes bytes)

-- A `String` behind its length.
pub Reads-string :
    (s : Bytes) → IsText s → has_null s ≡ false → Reads read_string (u16_bytes (length s) ++ s) s
unfolding read_string
Reads-string s text no_null = record {
  at = λ c rest h.
      let h' = h ∙ append_assoc (u16_bytes (length s)) s rest in
      rw
        (
          (Reads-u16 (length s)).at c (s ++ rest) h',
          (Reads-bytes s).at (advance 2 c) rest
              (remaining_bytes-advance c (u16_bytes (length s)) _ h'),
          no_null,
          text,
        )
        (let e : 2 + length s ≡ suc (suc (length s)) = omega arith in
          ap (λ c'. ok (s, c')) (advance-advance (length s) 2 c ∙ ap (λ n. advance n c) e));
}
