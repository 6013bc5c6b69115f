-- ===== src/Codec/Ping.antt =====
-- src/codec/ping.rs: PINGREQ, PINGRESP and DISCONNECT.
pub mod Encode
pub mod Decode
pub mod RoundTrip
use mqtt_wasi.Prelude.{ℕ, Bool, [], ◌∷◌}
use mqtt_wasi.Codec.Words.{Bytes, one_of}

abbrev pub pingreq_bytes : Bytes
pingreq_bytes = 0xC0 ∷ 0x00 ∷ []

abbrev pub pingresp_bytes : Bytes
pingresp_bytes = 0xD0 ∷ 0x00 ∷ []

unfoldable pub is_disconnect_reason_code : ℕ → Bool
is_disconnect_reason_code code =
    one_of
      (0x00 ∷ 0x04 ∷ 0x80 ∷ 0x81 ∷ 0x82 ∷ 0x83 ∷ 0x87 ∷ 0x89 ∷ 0x8B ∷ 0x8D ∷ 0x8E ∷ 0x8F ∷ 0x90
        ∷ 0x93 ∷ 0x94 ∷ 0x95 ∷ 0x96 ∷ 0x97 ∷ 0x98 ∷ 0x99 ∷ 0x9A ∷ 0x9B ∷ 0x9C ∷ 0x9D ∷ 0x9E ∷ 0x9F
        ∷ 0xA0 ∷ 0xA1 ∷ 0xA2 ∷ [])
      code
