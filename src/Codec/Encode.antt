-- ===== src/Codec/Encode.antt =====
-- src/codec/encode.rs: the writers. A `&mut Vec<u8>` argument is a list, and the list with what was
-- appended is returned; a buffer that a failed write leaves behind is dropped.
use mqtt_wasi.Prelude.{
  ℕ, zero, suc, ◌+◌, ◌/◌, ◌%◌, bit_and, bit_or, [], ◌∷◌, ◌++◌, ltb, ◌==◌, if◌then◌else◌, length,
}
use mqtt_wasi.Errors.{
  Result, ok, err, ◌>>◌, packet_too_large, string_too_long, binary_too_long, malformed_packet,
  out_of_fuel, fail_if,
}
use mqtt_wasi.Codec.Words.{Bytes, u8_mod, u16_mod, u16_bytes}
use mqtt_wasi.Codec.Utf8.{has_null}

abbrev pub variable_int_max : ℕ
variable_int_max = 268_435_455

-- The loop of `encode_variable_int`. A u32 has at most five groups of seven bits, so five rounds
-- of fuel are enough.
unfoldable pub encode_variable_int_loop : ℕ → Bytes → ℕ → Result Bytes
encode_variable_int_loop zero buf value = err out_of_fuel
encode_variable_int_loop (suc fuel) buf value =
    let low = bit_and value 0x7F % u8_mod in
    let value' = value / 128 in
    let byte = if ltb 0 value' then bit_or low 0x80 else low in
    let buf' = buf ++ byte ∷ [] in
    let again = encode_variable_int_loop fuel buf' value' in if value' == 0 then ok buf' else again

unfoldable pub encode_variable_int : Bytes → ℕ → Result Bytes
encode_variable_int buf value =
    if ltb variable_int_max value
    then err (packet_too_large value variable_int_max)
    else encode_variable_int_loop 5 buf value

unfoldable pub variable_int_len : ℕ → ℕ
variable_int_len value =
    if ltb value 128
    then 1
    else if ltb value 16_384
    then 2
    else if ltb value 2_097_152
    then 3
    else 4

unfoldable pub encode_string : Bytes → Bytes → Result Bytes
encode_string buf s = do
  fail_if (ltb 65_535 (length s)) (string_too_long (length s))
  fail_if (has_null s) (malformed_packet "MQTT string contains null")
  ok ((buf ++ u16_bytes (length s % u16_mod)) ++ s)

unfoldable pub encode_binary : Bytes → Bytes → Result Bytes
encode_binary buf bytes = do
  fail_if (ltb 65_535 (length bytes)) (binary_too_long (length bytes))
  ok ((buf ++ u16_bytes (length bytes % u16_mod)) ++ bytes)

unfoldable pub encode_u16 : Bytes → ℕ → Bytes
encode_u16 buf val = buf ++ u16_bytes val

unfoldable pub string_len : Bytes → ℕ
string_len s = 2 + length s

unfoldable pub binary_len : Bytes → ℕ
binary_len bytes = 2 + length bytes
