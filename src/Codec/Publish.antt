-- ===== src/Codec/Publish.antt =====
-- src/codec/publish.rs: PUBLISH and PUBACK.
pub mod Encode
pub mod Decode
pub mod Body
pub mod RoundTrip
pub mod AckRoundTrip
pub mod Identified
use mqtt_wasi.Prelude.{ℕ, Bool, [], ◌∷◌}
use mqtt_wasi.Codec.Words.{one_of}

unfoldable pub is_puback_reason_code : ℕ → Bool
is_puback_reason_code code =
    one_of (0x00 ∷ 0x10 ∷ 0x80 ∷ 0x83 ∷ 0x87 ∷ 0x90 ∷ 0x91 ∷ 0x97 ∷ 0x99 ∷ []) code
