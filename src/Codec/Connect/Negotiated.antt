-- ===== src/Codec/Connect/Negotiated.antt =====
-- src/codec/connect.rs: the capabilities of a CONNACK that was decoded.
use mqtt_wasi.Prelude.{
  ℕ, zero, suc, ◌≤◌, ◌≡◌, refl, ap, ◌∙◌, not, ◌&&◌, inl, inr, Option, none, some, List, [], ◌∷◌,
  arith, ltb→le, ◌==◌, bit_and, if◌then◌else◌, Option-cases,
}
use mqtt_wasi.Errors.{ok, bind-eq-ok, fail_if, fail_if-eq-ok, malformed_packet, invalid_reason_code}
use mqtt_wasi.Codec.Words.{Bytes}
use mqtt_wasi.Codec.Types.{QoS, at_most_once, at_least_once}
use mqtt_wasi.Codec.Cursor.{cursor, lift, read_u8}
use mqtt_wasi.Codec.Cursor.Yields.{Yields, Yields-bind, Yields-after, Yields-pure}
use mqtt_wasi.Codec.Properties.{
  PropertyId, PropertyValue, byte, PropertyContext, Entry, same_id, property_id_code, as_byte,
  find_value, get_byte,
}
use mqtt_wasi.Codec.Properties.Validate.{validate_property, has_valid_type, check_value}
use mqtt_wasi.Codec.Properties.Decode.{decode_for, check_finished}
use mqtt_wasi.Codec.Properties.Checked.{AreChecked, decode_for-AreChecked}
use mqtt_wasi.Codec.Packets.{ConnAckPacket}
use mqtt_wasi.Codec.Connect.{is_connack_reason_code}
use mqtt_wasi.Codec.Connect.Decode.{read_connack, decode_connack}
use mqtt_wasi.Codec.Connect.Capabilities.{
  ServerCapabilities, maximum_qos_from, with_maximum_qos, from_connack,
}

abbrev Checked : ConnAckPacket → Type 0
Checked connack = AreChecked connack.properties.entries

read_connack-Checked : Yields Checked read_connack
unfolding read_connack
read_connack-Checked = Yields-after Checked read_u8 _ λ ack_flags.
    Yields-after Checked
      (lift (
        fail_if (not (bit_and ack_flags 0xFE == 0))
          (malformed_packet "CONNACK has reserved acknowledge flags")))
      _
      λ _. Yields-after Checked read_u8 _ λ code.
        Yields-after Checked
          (lift (fail_if (not (is_connack_reason_code code)) (invalid_reason_code code))) _
          λ _.
            Yields-after Checked
              (lift (
                fail_if (not (bit_and ack_flags 0x01 == 0) && not (code == 0x00))
                  (malformed_packet "refused CONNACK has session present")))
              _
              λ _.
                Yields-bind Checked (λ props. AreChecked props.entries)
                  (decode_for PropertyContext.conn_ack) _
                  (decode_for-AreChecked PropertyContext.conn_ack)
                  λ props checked.
                    Yields-after Checked
                      (check_finished (malformed_packet "trailing CONNACK bytes")) _
                      λ _.
                        Yields-pure Checked
                          (record {
                            session_present = not (bit_and ack_flags 0x01 == 0);
                            reason_code = code;
                            properties = props;
                          })
                          checked

-- A value that was checked and is read as the maximum QoS is 0 or 1.
value-le :
    (id : PropertyId) (value : PropertyValue) (b : ℕ)
    → validate_property id value ≡ ok tt
    → (if same_id id PropertyId.maximum_qos then as_byte value else none) ≡ some b
    → b ≤ 1
unfolding same_id property_id_code validate_property has_valid_type check_value
value-le PropertyId.maximum_qos (byte n) b v h =
    let e : n ≡ b = cc in let small = ltb→le 1 n (fail_if-eq-ok _ _ v) in omega arith
value-le PropertyId.maximum_qos _ b v h = cc
value-le PropertyId.response_topic value b v h = cc
value-le _ value b v h = cc

maximum_qos-le :
    (entries : List Entry) (b : ℕ)
    → AreChecked entries
    → find_value as_byte PropertyId.maximum_qos entries ≡ some b
    → b ≤ 1
maximum_qos-le [] b a h = cc
maximum_qos-le ((id, value) ∷ entries) b (v, a) h =
    let here = if same_id id PropertyId.maximum_qos then as_byte value else none in
    elim (Option-cases here) [
      | inl other ↦ let h' = rw other at h in maximum_qos-le entries b a h'
      | inr (n, found) ↦
          let h' = rw found at h in let e : n ≡ b = cc in value-le id value b v (found ∙ ap some e)
    ]

maximum_qos_from-some :
    (o : Option ℕ) → ((b : ℕ) → o ≡ some b → b ≤ 1) → (qos : QoS) × (maximum_qos_from o ≡ some qos)
unfolding maximum_qos_from
maximum_qos_from-some none h = (at_least_once, refl)
maximum_qos_from-some (some zero) h = (at_most_once, refl)
maximum_qos_from-some (some (suc zero)) h = (at_least_once, refl)
maximum_qos_from-some (some (suc (suc n))) h =
    let big = h (suc (suc n)) refl in absurd (omega arith)

-- `from_connack` does not panic on a CONNACK that `decode` gave: its Maximum QoS, where there is
-- one, was checked while it was decoded.
pub from_connack-decode_connack :
    (body : Bytes) {connack : ConnAckPacket}
    → decode_connack body ≡ ok connack
    → (capabilities : ServerCapabilities) × (from_connack connack ≡ some capabilities)
unfolding decode_connack from_connack get_byte
from_connack-decode_connack body {connack} h =
    let (got, h₁, h₂) = bind-eq-ok (read_connack (cursor body)) _ h in
    let checked = read_connack-Checked.at (cursor body) got.0 got.1 h₁ in
    let e : connack ≡ got.0 = cc in
    let checked' : Checked connack = rw e checked in
    let props = connack.properties in
    let (qos, known) =
      maximum_qos_from-some (find_value as_byte PropertyId.maximum_qos props.entries)
        λ b found. maximum_qos-le props.entries b checked' found in
    (_, ap (with_maximum_qos props) known)
