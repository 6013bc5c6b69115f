-- ===== src/Client/Identifiers.antt =====
-- src/client.rs: the sequence of the packet identifiers that `next_packet_id` gives.
use mqtt_wasi.Prelude.{ℕ, zero, suc, ◌+◌, ◌-◌, ◌%◌, ◌≤◌, ◌<◌, ◌≡◌, ◌≢◌, ap, ◌∙◌, arith}
use mqtt_wasi.Errors.{Result, ok}
use mqtt_wasi.Client.State.{MqttClient}
use mqtt_wasi.Client.Sending.{id_after, next_packet_id}
use mqtt_wasi.Client.Kept.{id_after-bounds}

-- What the call gives that follows `n` others.
module _ {W : Type 0} where
  unfoldable pub nth_packet_id : ℕ → MqttClient W → Result ℕ
  unfolding next_packet_id
  nth_packet_id zero c = (next_packet_id c).0
  nth_packet_id (suc n) c = nth_packet_id n (next_packet_id c).1

-- The n-th successor on the circle of 1 to 65535.
abbrev pub circle : ℕ → ℕ → ℕ
circle id n = (id + n - 1) % 65535 + 1

pub circle_next : (id n : ℕ) → 1 ≤ id → id < 65536 → circle (id_after id) n ≡ circle id (suc n)
circle_next id n low high = ground arith

circle_ne : (id m n : ℕ) → m < n → n < m + 65535 → 1 ≤ id → circle id m ≢ circle id n
circle_ne id m n less near low = ground arith

module _ {W : Type 0} where
  -- From a client whose next identifier is one of 1 to 65535, the calls give the identifiers in
  -- their order, and 1 after 65535.
  pub nth_packet_id-circle :
      (n : ℕ) (c : MqttClient W)
      → 1 ≤ c.next_packet_id
      → c.next_packet_id < 65536
      → nth_packet_id n c ≡ ok (circle c.next_packet_id n)
  unfolding nth_packet_id
  nth_packet_id-circle zero c low high = ap ok (ground arith)
  nth_packet_id-circle (suc n) c low high =
      let (low', high') = id_after-bounds c.next_packet_id in
      nth_packet_id-circle n (next_packet_id c).1 low' high'
      ∙ ap ok (circle_next c.next_packet_id n low high)

  -- Of any 65535 calls that follow one another no two give the same identifier, so an identifier
  -- is given again after 65534 others.
  pub nth_packet_id-ne :
      (m n : ℕ) (c : MqttClient W)
      → 1 ≤ c.next_packet_id
      → c.next_packet_id < 65536
      → m < n
      → n < m + 65535
      → nth_packet_id m c ≢ nth_packet_id n c
  nth_packet_id-ne m n c low high less near same =
      let e = nth_packet_id-circle m c low high in
      let f = nth_packet_id-circle n c low high in circle_ne c.next_packet_id m n less near low cc
