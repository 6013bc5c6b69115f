-- ===== src/Codec/FixedHeader/RoundTrip.antt =====
-- src/codec/decode.rs, src/codec/encode.rs: the fixed header, read from what was written and from a
-- part of it.
use mqtt_wasi.Prelude.{
  ℕ, suc, ◌+◌, ◌*◌, ◌/◌, ◌≤◌, ◌<◌, ◌≡◌, refl, ap, bit_and, bit_and_0f, bit_or_nibbles, ◌∷◌, ◌++◌,
  append_assoc, arith, ltb, le→ltb, ltb→le, length,
}
use mqtt_wasi.Errors.{ok, err, bind-eq-ok, fail_if-eq-ok, fail_if}
use mqtt_wasi.Codec.Words.{Bytes}
use mqtt_wasi.Codec.Types.{PacketType, packet_type_code, packet_type_from_u8, FixedHeader}
use mqtt_wasi.Codec.Encode.{variable_int_max}
use mqtt_wasi.Codec.VariableInt.{
  variable_int, encode_variable_int_lem, encode_variable_int-inv, Reads-variable_int,
}
use mqtt_wasi.Codec.VariableInt.Short.{end_of_data, read_variable_int-short}
use mqtt_wasi.Codec.Cursor.{cursor}
use mqtt_wasi.Codec.Cursor.Views.{Reads-u8}
use mqtt_wasi.Codec.FixedHeader.{validate_fixed_header, encode_fixed_header, decode_fixed_header}

unfoldable pub header_bytes : FixedHeader → Bytes
header_bytes header =
    (packet_type_code header.packet_type * 16 + header.flags) ∷ variable_int header.remaining_length

abbrev pub header : PacketType → ℕ → ℕ → FixedHeader
header packet_type flags remaining_length = record {
  packet_type = packet_type;
  flags = flags;
  remaining_length = remaining_length;
}

-- A header that the format can express.
pub record IsHeader (h : FixedHeader) : Type 0 where
  pub nibble : h.flags < 16
  pub valid : validate_fixed_header h ≡ ok tt
  pub short : h.remaining_length ≤ variable_int_max

code-lt : (t : PacketType) → packet_type_code t < 16
unfolding packet_type_code
code-lt PacketType.connect = omega arith
code-lt _ = omega arith

from_u8-code : (t : PacketType) → packet_type_from_u8 (packet_type_code t) ≡ ok t
unfolding packet_type_code packet_type_from_u8
from_u8-code PacketType.connect = refl
from_u8-code _ = refl

pub encode_fixed_header_lem :
    (buf : Bytes) (h : FixedHeader)
    → IsHeader h
    → encode_fixed_header buf h.packet_type h.flags h.remaining_length ≡ ok (buf ++ header_bytes h)
unfolding encode_fixed_header header_bytes
encode_fixed_header_lem buf h i =
    rw
      (
        le→ltb 0x0F h.flags (omega arith),
        i.valid,
        bit_or_nibbles (packet_type_code h.packet_type) h.flags (code-lt h.packet_type) i.nibble,
        encode_variable_int_lem _ h.remaining_length,
        le→ltb variable_int_max h.remaining_length i.short,
      )
      (ap ok (append_assoc buf _ (variable_int h.remaining_length)))

encode_fixed_header-IsHeader :
    (buf : Bytes) (h : FixedHeader) {out : Bytes}
    → encode_fixed_header buf h.packet_type h.flags h.remaining_length ≡ ok out
    → IsHeader h
unfolding encode_fixed_header
encode_fixed_header-IsHeader buf h {out} e =
    let (_, h₁, rest₁) = bind-eq-ok (fail_if (ltb 0x0F h.flags) _) _ e in
    let (_, h₂, rest₂) = bind-eq-ok (validate_fixed_header h) _ rest₁ in
    let low = ltb→le 0x0F h.flags (fail_if-eq-ok _ _ h₁) in
    let short = encode_variable_int-inv _ h.remaining_length rest₂ in
    record { nibble = omega arith; valid = h₂; short = short }

-- A header that was written is one that the format can express, and what was appended is its
-- bytes.
pub encode_fixed_header-inv :
    (buf : Bytes) (h : FixedHeader) {out : Bytes}
    → encode_fixed_header buf h.packet_type h.flags h.remaining_length ≡ ok out
    → IsHeader h × (out ≡ buf ++ header_bytes h)
encode_fixed_header-inv buf h {out} e =
    let i = encode_fixed_header-IsHeader buf h e in (i, cc (e, encode_fixed_header_lem buf h i))

-- Reading the bytes of a header that the format can express gives the header and their number,
-- whatever follows them.
pub decode_fixed_header_lem :
    (h : FixedHeader) (rest : Bytes)
    → IsHeader h
    → decode_fixed_header (header_bytes h ++ rest) ≡ ok (h, length (header_bytes h))
unfolding decode_fixed_header header_bytes
decode_fixed_header_lem h rest i =
    let first = packet_type_code h.packet_type * 16 + h.flags in
    let lt = code-lt h.packet_type in
    let hi : first / 16 ≡ packet_type_code h.packet_type = omega arith in
    let lo : bit_and first 0x0F ≡ h.flags = omega (arith, bit_and_0f first (omega arith)) in
    let tail = variable_int h.remaining_length ++ rest in
    rw
      (
        (Reads-u8 first).at (cursor (first ∷ tail)) tail refl,
        hi,
        from_u8-code h.packet_type,
        lo,
        (Reads-variable_int h.remaining_length i.short).at (record { buf = first ∷ tail; pos = 1 })
            rest refl,
        i.valid,
      )
      (let e : 1 + length (variable_int h.remaining_length)
            ≡ suc (length (variable_int h.remaining_length)) =
          omega arith in
        ap (λ n. ok (h, n)) e)

-- Of a header that the format can express, a part that has its first byte and lacks its last one is
-- refused as the end of the data.
pub decode_fixed_header-short :
    (h : FixedHeader) (b : ℕ) (p : Bytes) (z : ℕ) (zs : Bytes)
    → IsHeader h
    → header_bytes h ≡ b ∷ p ++ z ∷ zs
    → decode_fixed_header (b ∷ p) ≡ err end_of_data
unfolding decode_fixed_header header_bytes
decode_fixed_header-short h b p z zs i split =
    let first = packet_type_code h.packet_type * 16 + h.flags in
    let lt = code-lt h.packet_type in
    let nib = i.nibble in
    let e : first ≡ b = cc in
    let tail : variable_int h.remaining_length ≡ p ++ z ∷ zs = cc in
    let hi : b / 16 ≡ packet_type_code h.packet_type = omega arith in
    rw (
      (Reads-u8 b).at (cursor (b ∷ p)) p refl,
      hi,
      from_u8-code h.packet_type,
      read_variable_int-short h.remaining_length p z zs (record { buf = b ∷ p; pos = 1 }) i.short
          tail refl,
    )
