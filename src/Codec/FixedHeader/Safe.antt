-- ===== src/Codec/FixedHeader/Safe.antt =====
-- The fixed header of any bytes: src/codec/decode.rs.
use mqtt_wasi.Prelude.{ℕ, ◌/◌, arith}
use mqtt_wasi.Errors.{Result, ok, err, ◌>>=◌, Ends, Ends-bind, Ends-ok, Ends-fail_if}
use mqtt_wasi.Codec.Words.{Bytes}
use mqtt_wasi.Codec.Types.{PacketType, packet_type_from_u8, FixedHeader}
use mqtt_wasi.Codec.Cursor.{Cursor, cursor, read_u8, read_variable_int}
use mqtt_wasi.Codec.Cursor.Safe.{Moves, Fine, Safe-u8, Safe-variable_int, Moves-IsWithin}
use mqtt_wasi.Codec.FixedHeader.{
  validate_flags, validate_publish_flags, validate_fixed_header, decode_fixed_header,
}

flags-Ends : (t : PacketType) (flags : ℕ) → Ends (validate_flags t flags)
unfolding validate_flags validate_publish_flags
flags-Ends PacketType.publish flags = record { ends = λ e. ground arith }
flags-Ends PacketType.connect flags = Ends-fail_if _ _
flags-Ends _ flags = Ends-fail_if _ _

pub header-Ends : (h : FixedHeader) → Ends (validate_fixed_header h)
unfolding validate_fixed_header
header-Ends h = flags-Ends h.packet_type h.flags

type-Ends : (val : ℕ) → Ends (packet_type_from_u8 val)
unfolding packet_type_from_u8
type-Ends val = record { ends = λ e. ground arith }

Fine-Ends :
    {A B : Type 0} (k : ℕ) (c : Cursor) (r : Result (A × Cursor)) (f : A → Cursor → Result B)
    → Fine k c r
    → ((a : A) (c' : Cursor) → Moves k c c' → Ends (f a c'))
    → Ends (r >>= λ (a, c'). f a c')
Fine-Ends k c (ok (a, c')) f m h = h a c' m
Fine-Ends k c (err e) f n h = record { ends = λ p. n (cc p) }

-- On any bytes `decode_fixed_header` gives a header or an error of the source: its loop does not
-- run out of fuel.
pub decode_fixed_header-Ends : (bytes : Bytes) → Ends (decode_fixed_header bytes)
unfolding decode_fixed_header
decode_fixed_header-Ends bytes =
    Fine-Ends 1 (cursor bytes) (read_u8 (cursor bytes)) _ (Safe-u8.at (cursor bytes) (omega arith))
      λ first c m. Ends-bind (packet_type_from_u8 (first / 16)) _ (type-Ends (first / 16)) λ t.
        Fine-Ends 1 c (read_variable_int c) _ (Safe-variable_int.at c (Moves-IsWithin m))
          λ n c' m'. Ends-bind _ _ (header-Ends _) λ _. Ends-ok _
