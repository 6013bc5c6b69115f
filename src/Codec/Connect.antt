-- ===== src/Codec/Connect.antt =====
-- src/codec/connect.rs: CONNECT, CONNACK and the capabilities that a CONNACK announces.
pub mod Encode
pub mod Decode
pub mod Capabilities
pub mod Negotiated
use mqtt_wasi.Prelude.{ℕ, Bool, [], ◌∷◌}
use mqtt_wasi.Codec.Words.{one_of}

unfoldable pub is_connack_reason_code : ℕ → Bool
is_connack_reason_code code =
    one_of
      (0x00 ∷ 0x80 ∷ 0x81 ∷ 0x82 ∷ 0x83 ∷ 0x84 ∷ 0x85 ∷ 0x86 ∷ 0x87 ∷ 0x88 ∷ 0x89 ∷ 0x8A ∷ 0x8C
        ∷ 0x90 ∷ 0x95 ∷ 0x97 ∷ 0x99 ∷ 0x9A ∷ 0x9B ∷ 0x9C ∷ 0x9D ∷ 0x9F ∷ [])
      code
