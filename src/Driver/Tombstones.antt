-- ===== src/Driver/Tombstones.antt =====
-- src/async_client.rs: what the tombstones of `expire_operations` keep.
use mqtt_wasi.Prelude.{ℕ, ◌≡◌, refl, Bool, true, false, List, [], ◌∷◌, any, if◌then◌else◌}
use mqtt_wasi.Driver.Pending.{
  AckClass, PendingAcks, Sender, is_cancelled, ack_class, bury, bury_cancelled, outgoing_qos1_count,
}

-- The identifiers in use, each with the acknowledgement that it waits for.
unfoldable pub awaited : PendingAcks → List (ℕ × AckClass)
unfolding ack_class
awaited [] = []
awaited ((id, pending) ∷ acks) = (id, ack_class pending.kind) ∷ awaited acks

module _ (is_closed : Sender → Bool) where
  abbrev pub has_cancelled : PendingAcks → Bool
  has_cancelled acks = any (λ (id, pending). is_cancelled is_closed pending.kind) acks

  -- After the first loop of `expire_operations` every identifier is in use that was in use before, and
  -- waits for the same acknowledgement; as many count against the peer's Receive Maximum; and no
  -- operation is left whose waiter is gone.
  pub bury_cancelled-keeps :
      (acks : PendingAcks)
      → (awaited (bury_cancelled is_closed acks) ≡ awaited acks)
        × (outgoing_qos1_count (bury_cancelled is_closed acks) ≡ outgoing_qos1_count acks)
        × (has_cancelled (bury_cancelled is_closed acks) ≡ false)
  unfolding bury_cancelled awaited outgoing_qos1_count
  bury_cancelled-keeps [] = (refl, refl, refl)
  bury_cancelled-keeps ((id, pending) ∷ acks) =
      let (same, count, none_left) = bury_cancelled-keeps acks in
      go (is_cancelled is_closed pending.kind) refl same count none_left
    where
      go :
          (b : Bool)
          → is_cancelled is_closed pending.kind ≡ b
          → awaited (bury_cancelled is_closed acks) ≡ awaited acks
          → outgoing_qos1_count (bury_cancelled is_closed acks) ≡ outgoing_qos1_count acks
          → has_cancelled (bury_cancelled is_closed acks) ≡ false
          → let one = (if b then bury pending else pending) in
            (awaited ((id, one) ∷ bury_cancelled is_closed acks) ≡ awaited ((id, pending) ∷ acks))
            × (outgoing_qos1_count ((id, one) ∷ bury_cancelled is_closed acks)
                ≡ outgoing_qos1_count ((id, pending) ∷ acks))
            × (has_cancelled ((id, one) ∷ bury_cancelled is_closed acks) ≡ false)
      go true e same count none_left = (rw same refl, rw count refl, none_left)
      go false e same count none_left = (rw same refl, rw count refl, rw e none_left)
