-- ===== src/Codec/Cursor.antt =====
-- src/codec/decode.rs: `Cursor`, a position in a byte slice, and its reads. A `&mut Cursor` method
-- that returns a `Result` is a function that returns the new cursor beside the value; the cursor
-- of a failed read is dropped, as every caller in the source drops it.
pub mod Views
pub mod Safe
pub mod Yields
use mqtt_wasi.Prelude.{
  ℕ, zero, suc, ◌+◌, ◌-◌, ◌*◌, ◌%◌, bit_and, ltb, ◌==◌, if◌then◌else◌, length, get_or, take, drop,
  String,
}
use mqtt_wasi.Errors
use mqtt_wasi.Errors.{Error, Result, ok, err, malformed_packet, out_of_fuel, fail_if}
use mqtt_wasi.Codec.Words.{Bytes, u32_mod}
use mqtt_wasi.Codec.Utf8.{is_utf8, has_null}

pub record Cursor : Type 0 where
  pub buf : Bytes
  pub pos : ℕ

abbrev pub cursor : Bytes → Cursor
cursor bytes = record { buf = bytes; pos = 0 }

abbrev pub remaining : Cursor → ℕ
remaining c = length c.buf - c.pos

-- `&self.buf[self.pos..]`
abbrev pub remaining_bytes : Cursor → Bytes
remaining_bytes c = drop c.pos c.buf

abbrev pub advance : ℕ → Cursor → Cursor
advance n c = record c { pos = c.pos + n }

-- Reads, and the `?` between them.
abbrev pub Read : Type 0 → Type 0
Read A = Cursor → Result (A × Cursor)

infixl 5 ◌>>=◌ ◌>>◌
abbrev pub ◌>>=◌ : {A B : Type 0} → Read A → (A → Read B) → Read B
◌>>=◌ m f c = Errors.◌>>=◌ (m c) λ (a, c'). f a c'

abbrev pub ◌>>◌ : {B : Type 0} → Read (Unit {0}) → Read B → Read B
m >> k = m >>= λ _. k

abbrev pub pure : {A : Type 0} → A → Read A
pure a c = ok (a, c)

-- A step that does not touch the cursor.
abbrev pub lift : {A : Type 0} → Result A → Read A
lift r c = Errors.◌>>=◌ r λ a. ok (a, c)

abbrev pub gets : {A : Type 0} → (Cursor → A) → Read A
gets f c = ok (f c, c)

-- A decoder on a whole slice.
abbrev pub run : {A : Type 0} → Read A → Bytes → Result A
run read bytes = Errors.◌>>=◌ (read (cursor bytes)) λ (a, c). ok a

unfoldable pub ensure : ℕ → Read (Unit {0})
ensure n c =
    if ltb (remaining c) n then err (malformed_packet "unexpected end of data") else ok (tt, c)

-- The element at an index; an index out of range would panic, and `ensure` stands before each.
abbrev pub at : Cursor → ℕ → ℕ
at c i = get_or c.buf (c.pos + i) 0

unfoldable pub read_u8 : Read ℕ
unfolding ensure
read_u8 = do ensure 1; λ c. ok (at c 0, advance 1 c)

unfoldable pub read_u16 : Read ℕ
unfolding ensure
read_u16 = do ensure 2; λ c. ok (at c 0 * 256 + at c 1, advance 2 c)

unfoldable pub read_u32 : Read ℕ
unfolding ensure
read_u32 = do
  ensure 4
  λ c. ok (((at c 0 * 256 + at c 1) * 256 + at c 2) * 256 + at c 3, advance 4 c)

unfoldable pub read_bytes : ℕ → Read Bytes
unfolding ensure
read_bytes n = do ensure n; λ c. ok (take n (drop c.pos c.buf), advance n c)

-- The loop of `read_variable_int`, with the arithmetic of u32. The multiplier passes 128 ^ 3 in
-- the fourth round at the latest, so four rounds of fuel are enough.
unfoldable pub variable_int_loop : ℕ → ℕ → ℕ → Read ℕ
variable_int_loop zero value multiplier = lift (err out_of_fuel)
variable_int_loop (suc fuel) value multiplier = do
  byte ← read_u8
  let value' = (value + bit_and byte 0x7F * multiplier % u32_mod) % u32_mod
  let multiplier' = multiplier * 128 % u32_mod
  let again = variable_int_loop fuel value' multiplier'
  let too_long = lift (err (malformed_packet "variable int too long"))
  if bit_and byte 0x80 == 0
      then pure value'
      else if ltb (128 * 128 * 128) multiplier'
      then too_long
      else again

unfoldable pub read_variable_int : Read ℕ
read_variable_int = variable_int_loop 4 0 1

unfoldable pub read_string : Read Bytes
read_string = do
  len ← read_u16
  bytes ← read_bytes len
  lift (fail_if (has_null bytes) (malformed_packet "MQTT string contains null"))
  lift (if is_utf8 bytes then ok bytes else err (malformed_packet "invalid UTF-8"))

unfoldable pub read_binary : Read Bytes
read_binary = do len ← read_u16; read_bytes len
