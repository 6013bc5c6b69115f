-- ===== src/Codec/Strings.antt =====
-- What the writers of strings and binary data accept, and what they append.
use mqtt_wasi.Prelude.{◌%◌, ◌≤◌, ◌≡◌, ap, false, ◌++◌, append_assoc, arith, le→ltb, length}
use mqtt_wasi.Errors.{ok}
use mqtt_wasi.Codec.Words.{Bytes, u16_bytes, u16_mod}
use mqtt_wasi.Codec.Utf8.{has_null}
use mqtt_wasi.Codec.Encode.{encode_string, encode_binary}

-- Bytes behind their length in two bytes.
abbrev pub prefixed : Bytes → Bytes
prefixed bytes = u16_bytes (length bytes) ++ bytes

-- A string that fits the format.
pub record IsWritable (s : Bytes) : Type 0 where
  pub short : length s ≤ 65535
  pub no_null : has_null s ≡ false

pub encode_string_lem :
    (buf s : Bytes) → IsWritable s → encode_string buf s ≡ ok (buf ++ prefixed s)
unfolding encode_string
encode_string_lem buf s w =
    let e : length s % u16_mod ≡ length s = let h = w.short in omega arith in
    rw (le→ltb 65535 (length s) w.short, w.no_null, e) (ap ok (append_assoc buf _ s))

-- A string that was written has at most 65535 bytes and no null, and what was appended is its
-- length in two bytes and its bytes.
pub encode_string-inv :
    (buf s : Bytes) {out : Bytes}
    → encode_string buf s ≡ ok out
    → IsWritable s × (out ≡ buf ++ prefixed s)
encode_string-inv buf s {out} h =
    let w : IsWritable s =
      unfold encode_string in record { short = ground arith; no_null = ground arith } in
    (w, cc (encode_string_lem buf s w))

pub encode_binary_lem :
    (buf bytes : Bytes)
    → length bytes ≤ 65535
    → encode_binary buf bytes ≡ ok (buf ++ prefixed bytes)
unfolding encode_binary
encode_binary_lem buf bytes short =
    let e : length bytes % u16_mod ≡ length bytes = omega arith in
    rw (le→ltb 65535 (length bytes) short, e) (ap ok (append_assoc buf _ bytes))

pub encode_binary-inv :
    (buf bytes : Bytes) {out : Bytes}
    → encode_binary buf bytes ≡ ok out
    → (length bytes ≤ 65535) × (out ≡ buf ++ prefixed bytes)
encode_binary-inv buf bytes {out} h =
    let short : length bytes ≤ 65535 = unfold encode_binary in ground arith in
    (short, cc (encode_binary_lem buf bytes short))
