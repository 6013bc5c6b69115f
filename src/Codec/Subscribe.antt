-- ===== src/Codec/Subscribe.antt =====
-- src/codec/subscribe.rs: SUBSCRIBE, SUBACK, UNSUBSCRIBE and UNSUBACK.
pub mod Encode
pub mod Decode
pub mod Codes
pub mod Body
use mqtt_wasi.Prelude.{ℕ, Bool, [], ◌∷◌}
use mqtt_wasi.Codec.Words.{one_of}

unfoldable pub is_suback_reason_code : ℕ → Bool
is_suback_reason_code code =
    one_of (0x00 ∷ 0x01 ∷ 0x02 ∷ 0x80 ∷ 0x83 ∷ 0x87 ∷ 0x8F ∷ 0x91 ∷ 0x97 ∷ 0x9E ∷ 0xA1 ∷ 0xA2 ∷ [])
      code

unfoldable pub is_unsuback_reason_code : ℕ → Bool
is_unsuback_reason_code code = one_of (0x00 ∷ 0x11 ∷ 0x80 ∷ 0x83 ∷ 0x87 ∷ 0x8F ∷ 0x91 ∷ []) code
