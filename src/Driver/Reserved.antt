-- ===== src/Driver/Reserved.antt =====
-- src/async_client.rs: the packet identifiers that `reserve_packet_id` gives.
use mqtt_wasi.Prelude.{ℕ, zero, suc, ◌+◌, ◌-◌, ◌%◌, ◌≤◌, ◌<◌, ◌≡◌, refl, Bool, true, false, arith}
use mqtt_wasi.Errors.{Error, Result, ok, err, queue_full}
use mqtt_wasi.Client.Sending.{id_after}
use mqtt_wasi.Client.Kept.{id_after-bounds}
use mqtt_wasi.Client.Identifiers.{circle, circle_next}
use mqtt_wasi.Driver.Pending.{
  PendingAcks, contains_key, unless_pending, reserve_loop, reserve_packet_id,
}

-- an identifier that may be used
IsFree : PendingAcks → ℕ → Type 0
IsFree acks id = (contains_key id acks ≡ false) × (1 ≤ id) × (id < 65536)

round-IsFree :
    (b : Bool) (acks : PendingAcks) (next id : ℕ) (more : ℕ → Result ℕ × ℕ)
    → contains_key next acks ≡ b
    → 1 ≤ next
    → next < 65536
    → ((more (id_after next)).0 ≡ ok id → IsFree acks id)
    → (unless_pending b next more).0 ≡ ok id
    → IsFree acks id
unfolding IsFree
round-IsFree true acks next id more e low high k h = k h
round-IsFree false acks next id more e low high k h =
    let same : id ≡ next = cc in rw same (e, low, high)

loop-IsFree :
    (rounds next id : ℕ) (acks : PendingAcks)
    → 1 ≤ next
    → next < 65536
    → (reserve_loop rounds acks next).0 ≡ ok id
    → IsFree acks id
unfolding reserve_loop
loop-IsFree zero next id acks low high h = cc
loop-IsFree (suc rounds) next id acks low high h =
    let (low', high') = id_after-bounds next in
    round-IsFree (contains_key next acks) acks next id (reserve_loop rounds acks) refl low high
      (loop-IsFree rounds (id_after next) id acks low' high') h

-- When `reserve_packet_id` gives an identifier, no operation that is pending, and no tombstone, has
-- it, and it is one of 1 to 65535.
pub reserve_packet_id-free :
    (acks : PendingAcks) (next id : ℕ)
    → 1 ≤ next
    → next < 65536
    → (reserve_packet_id acks next).0 ≡ ok id
    → (contains_key id acks ≡ false) × (1 ≤ id) × (id < 65536)
unfolding reserve_packet_id IsFree
reserve_packet_id-free acks next id low high h = loop-IsFree 65535 next id acks low high h

round-full :
    (b : Bool) (acks : PendingAcks) (next : ℕ) (more : ℕ → Result ℕ × ℕ) (e : Error)
    → (unless_pending b next more).0 ≡ err e
    → (b ≡ true) × ((more (id_after next)).0 ≡ err e)
round-full true acks next more e h = (refl, h)
round-full false acks next more e h = cc

-- The loop failed: it has tried the identifiers of all its rounds.
loop-full :
    (rounds k next : ℕ) (acks : PendingAcks) (e : Error)
    → 1 ≤ next
    → next < 65536
    → k < rounds
    → (reserve_loop rounds acks next).0 ≡ err e
    → contains_key (circle next k) acks ≡ true
unfolding reserve_loop
loop-full zero k next acks e low high less h = absurd (omega arith)
loop-full (suc rounds) zero next acks e low high less h =
    let here : circle next 0 ≡ next = ground arith in
    rw here (round-full _ acks next (reserve_loop rounds acks) e h).0
loop-full (suc rounds) (suc k) next acks e low high less h =
    let (low', high') = id_after-bounds next in
    rw⁻¹ (circle_next next k low high) (
      loop-full rounds k (id_after next) acks e low' high' (omega arith)
        (round-full _ acks next (reserve_loop rounds acks) e h).1)

-- Each identifier is reached in one of the rounds.
reached :
    (next id : ℕ)
    → 1 ≤ next
    → next < 65536
    → 1 ≤ id
    → id < 65536
    → circle next ((id + 65535 - next) % 65535) ≡ id
reached next id low high low' high' = ground arith

-- It fails only when every identifier of 1 to 65535 is in use.
pub reserve_packet_id-full :
    (acks : PendingAcks) (next : ℕ) (e : Error) (id : ℕ)
    → 1 ≤ next
    → next < 65536
    → (reserve_packet_id acks next).0 ≡ err e
    → 1 ≤ id
    → id < 65536
    → contains_key id acks ≡ true
unfolding reserve_packet_id
reserve_packet_id-full acks next e id low high h low' high' =
    rw⁻¹ (reached next id low high low' high')
      (loop-full 65535 ((id + 65535 - next) % 65535) next acks e low high (ground arith) h)

module _ (acks : PendingAcks)
    (all_used : (id : ℕ) → 1 ≤ id → id < 65536 → contains_key id acks ≡ true) where
  loop-refuses :
      (rounds next : ℕ)
      → 1 ≤ next
      → next < 65536
      → (reserve_loop rounds acks next).0 ≡ err (queue_full "packet identifiers")
  unfolding reserve_loop
  loop-refuses zero next low high = refl
  loop-refuses (suc rounds) next low high =
      let (low', high') = id_after-bounds next in
      rw (all_used next low high) (loop-refuses rounds (id_after next) low' high')

  -- It fails when every identifier of 1 to 65535 is in use.
  pub reserve_packet_id-refuses :
      (next : ℕ)
      → 1 ≤ next
      → next < 65536
      → (reserve_packet_id acks next).0 ≡ err (queue_full "packet identifiers")
  unfolding reserve_packet_id
  reserve_packet_id-refuses next low high = loop-refuses 65535 next low high
