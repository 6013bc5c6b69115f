-- ===== src/Trace/Valid.antt =====
-- src/trace.rs: what `parse_traceparent` accepts is a valid context.
use mqtt_wasi.Prelude.{
  ℕ, ◌*◌, ◌%◌, ◌<◌, ◌≡◌, refl, Bool, true, false, ◌||◌, Option, none, some, List, [], ◌∷◌, arith,
  length, All, ◌==◌, ==_iff, bit_or, bit_or_nibbles, if◌then◌else◌, Bool-cases, inl, inr,
}
use mqtt_wasi.Codec.Words.{Bytes, IsByte, same_bytes}
use mqtt_wasi.Trace.{
  TraceContext, is_all_zero, version, split, hex_nibble, with_byte, hex_decode, hex_decode_fixed,
  with_parts, parse_parts, parse_traceparent,
}
use mqtt_wasi.Trace.RoundTrip.{IsContext}

hex_nibble_lt : (c k : ℕ) → hex_nibble c ≡ some k → k < 16
unfolding hex_nibble
hex_nibble_lt c k h = ground arith

with_byte-inv :
    (hi lo : Option ℕ) (rest : Option Bytes) (bytes : Bytes)
    → with_byte hi lo rest ≡ some bytes
    → (h : ℕ) × (l : ℕ) × (tail : Bytes) × (hi ≡ some h)
      × (lo ≡ some l)
      × (rest ≡ some tail)
      × (bytes ≡ bit_or (h * 16 % 256) l ∷ tail)
with_byte-inv (some h) (some l) (some tail) bytes e = (h, l, tail, refl, refl, refl, cc)
with_byte-inv hi lo rest bytes e = cc

-- The bytes are half as many as the digits.
hex_decode-inv :
    (digits bytes : Bytes)
    → hex_decode digits ≡ some bytes
    → (length digits ≡ length bytes * 2) × All IsByte bytes
unfolding hex_decode
hex_decode-inv [] bytes e = let same : bytes ≡ [] = cc in rw same (refl, tt)
hex_decode-inv (d ∷ []) bytes e = cc
hex_decode-inv (hi ∷ lo ∷ digits) bytes e =
    let (h, l, tail, is_hi, is_lo, is_tail, is_bytes) =
      with_byte-inv (hex_nibble hi) (hex_nibble lo) (hex_decode digits) bytes e in
    let rest = hex_decode-inv digits tail is_tail in
    let small = hex_nibble_lt hi h is_hi in
    let small' = hex_nibble_lt lo l is_lo in
    let shifted : h * 16 % 256 ≡ h * 16 = omega arith in
    rw is_bytes (
      (let n = rest.0 in omega arith),
      ((rw (shifted, bit_or_nibbles h l small small') (omega arith)), rest.1),
    )

hex_decode_fixed-inv :
    (n : ℕ) (s bytes : Bytes)
    → hex_decode_fixed n s ≡ some bytes
    → (length bytes ≡ n) × All IsByte bytes
unfolding hex_decode_fixed
hex_decode_fixed-inv n s bytes e = elim (Bool-cases (length s == n * 2)) [
  | inl size ↦
      let d = hex_decode-inv s bytes (rw size at e) in
      let m = d.0 in ((let k = (==_iff (length s) (n * 2)).0 size in omega arith), d.1)
  | inr size ↦ let impossible : none ≡ some bytes = rw size at e in cc
]

unless-inv :
    {A : Type 0} (b : Bool) (x y : A)
    → (if b then none else some x) ≡ some y
    → (b ≡ false) × (y ≡ x)
unless-inv true x y e = cc
unless-inv false x y e = (refl, cc)

neither : (a b : Bool) → (a || b) ≡ false → (a ≡ false) × (b ≡ false)
neither true b e = cc
neither false b e = (refl, e)

with_parts-inv :
    (t p f : Option Bytes) (state : Option Bytes) (context : TraceContext)
    → ((bytes : Bytes) → t ≡ some bytes → (length bytes ≡ 16) × All IsByte bytes)
    → ((bytes : Bytes) → p ≡ some bytes → (length bytes ≡ 8) × All IsByte bytes)
    → ((bytes : Bytes) → f ≡ some bytes → (length bytes ≡ 1) × All IsByte bytes)
    → with_parts t p f state ≡ some context
    → IsContext context
with_parts-inv (some trace_id) (some span_id) (some (flags ∷ more)) state context ht hp hf e =
    let (nonzero, same) = unless-inv (is_all_zero trace_id || is_all_zero span_id) _ context e in
    rw same (record {
      trace_size = (ht trace_id refl).0;
      trace_bytes = (ht trace_id refl).1;
      span_size = (hp span_id refl).0;
      span_bytes = (hp span_id refl).1;
      flags_byte = (hf (flags ∷ more) refl).1.0;
      trace_nonzero = (neither _ _ nonzero).0;
      span_nonzero = (neither _ _ nonzero).1;
    })
with_parts-inv t p f state context ht hp hf e = cc

parse_parts-inv :
    (parts : List Bytes) (state : Option Bytes) (context : TraceContext)
    → parse_parts parts state ≡ some context
    → IsContext context
parse_parts-inv (v ∷ t ∷ p ∷ f ∷ []) state context e = elim (Bool-cases (same_bytes v version)) [
  | inl known ↦
      with_parts-inv _ _ _ state context (hex_decode_fixed-inv 16 t) (hex_decode_fixed-inv 8 p)
        (hex_decode_fixed-inv 1 f) (rw known at e)
  | inr unknown ↦ let impossible : none ≡ some context = rw unknown at e in cc
]
parse_parts-inv parts state context e = cc

-- A context that was parsed has identifiers of 16 and 8 bytes that are not zero, and flags of one
-- byte: it is one that `traceparent_string` prints and `parse_traceparent` gives back.
pub parse_traceparent-IsContext :
    (s : Bytes) (state : Option Bytes) (context : TraceContext)
    → parse_traceparent s state ≡ some context
    → IsContext context
unfolding parse_traceparent
parse_traceparent-IsContext s state context e = parse_parts-inv (split s) state context e
