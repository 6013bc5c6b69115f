-- ===== src/Options/Valid.antt =====
-- src/options.rs: the options that `ConnectOptions::validate` accepts.
use mqtt_wasi.Prelude.{
  ℕ, ◌+◌, ◌≤◌, ◌≡◌, ◌↔◌, refl, Bool, true, false, not, ◌&&◌, ◌||◌, ◌==◌, leb, arith,
}
use mqtt_wasi.Errors.{Error, Result, ok, fail_if, ◌>>◌}
use mqtt_wasi.Io.{instant_add}
use mqtt_wasi.Options.{ConnectOptions, is_none, validate}

pub record IsUsable (latest now : ℕ) (options : ConnectOptions) : Type 0 where
  pub connects_in_time : 1 ≤ options.connect_timeout
  pub acknowledges_in_time : 1 ≤ options.ack_timeout
  pub polls : 1 ≤ options.poll_interval
  pub packet_at_least : 2 ≤ options.max_packet_size
  pub packet_at_most : options.max_packet_size ≤ 268_435_460
  pub queues : 1 ≤ options.max_incoming_messages
  pub commands : 1 ≤ options.command_capacity
  pub events : 1 ≤ options.event_capacity
  pub outbound : 1 ≤ options.max_outbound_queue_bytes
  pub connect_ends : now + options.connect_timeout ≤ latest
  pub ack_ends : now + options.ack_timeout ≤ latest

-- A check that passed, and the checks behind it.
fail_if_iff :
    (b : Bool) (e : Error) (rest : Result (Unit {0}))
    → ((fail_if b e >> rest) ≡ ok tt) ↔ ((b ≡ false) × (rest ≡ ok tt))
fail_if_iff true e rest = ((λ h. cc), λ (h, r). cc)
fail_if_iff false e rest = ((λ h. (refl, h)), λ (h, r). r)

fail_if_last : (b : Bool) (e : Error) → (fail_if b e ≡ ok tt) ↔ (b ≡ false)
fail_if_last true e = ((λ h. cc), λ h. cc)
fail_if_last false e = ((λ h. refl), λ h. refl)

-- The tests of the last three checks.
abbrev is_no_size : ℕ → Bool
is_no_size size = not (leb 2 size && leb size 268_435_460)

abbrev is_no_queue : ConnectOptions → Bool
is_no_queue options =
    options.max_incoming_messages == 0
    || options.command_capacity == 0
    || options.event_capacity == 0
    || options.max_outbound_queue_bytes == 0

abbrev is_no_deadline : ℕ → ℕ → ConnectOptions → Bool
is_no_deadline latest now options =
    is_none (instant_add latest now options.connect_timeout)
    || is_none (instant_add latest now options.ack_timeout)

nonzero : (n : ℕ) → (n == 0) ≡ false → 1 ≤ n
nonzero n h = ground arith

positive : (n : ℕ) → 1 ≤ n → (n == 0) ≡ false
positive n h = ground arith

size_within : (size : ℕ) → is_no_size size ≡ false → (2 ≤ size) × (size ≤ 268_435_460)
size_within size h = ground arith

fits : (size : ℕ) → 2 ≤ size → size ≤ 268_435_460 → is_no_size size ≡ false
fits size low high = ground arith

queues_some :
    (options : ConnectOptions)
    → is_no_queue options ≡ false
    → (1 ≤ options.max_incoming_messages)
      × (1 ≤ options.command_capacity)
      × (1 ≤ options.event_capacity)
      × (1 ≤ options.max_outbound_queue_bytes)
queues_some options h = ground arith

four :
    (options : ConnectOptions)
    → 1 ≤ options.max_incoming_messages
    → 1 ≤ options.command_capacity
    → 1 ≤ options.event_capacity
    → 1 ≤ options.max_outbound_queue_bytes
    → is_no_queue options ≡ false
four options a b c d = ground arith

ends_after :
    (latest now : ℕ) (options : ConnectOptions)
    → is_no_deadline latest now options ≡ false
    → (now + options.connect_timeout ≤ latest) × (now + options.ack_timeout ≤ latest)
ends_after latest now options h = ground arith

both :
    (latest now : ℕ) (options : ConnectOptions)
    → now + options.connect_timeout ≤ latest
    → now + options.ack_timeout ≤ latest
    → is_no_deadline latest now options ≡ false
both latest now options c a = ground arith

-- The options are accepted exactly when every timeout and capacity is at least 1, the maximum packet
-- size is between 2 and 268435460, and the clock can represent both deadlines.
pub validate_iff :
    (latest now : ℕ) (options : ConnectOptions)
    → (validate latest now options ≡ ok tt) ↔ IsUsable latest now options
unfolding validate
validate_iff latest now options = (accepted, usable)
  where
    accepted : validate latest now options ≡ ok tt → IsUsable latest now options
    accepted h =
        let (a, h₁) = (fail_if_iff (options.connect_timeout == 0) _ _).0 h in
        let (b, h₂) = (fail_if_iff (options.ack_timeout == 0) _ _).0 h₁ in
        let (c, h₃) = (fail_if_iff (options.poll_interval == 0) _ _).0 h₂ in
        let (d, h₄) = (fail_if_iff (is_no_size options.max_packet_size) _ _).0 h₃ in
        let (e, h₅) = (fail_if_iff (is_no_queue options) _ _).0 h₄ in
        let f = (fail_if_last (is_no_deadline latest now options) _).0 h₅ in
        let sizes = size_within options.max_packet_size d in
        let queues' = queues_some options e in
        let ends = ends_after latest now options f in
        record {
          connects_in_time = nonzero _ a;
          acknowledges_in_time = nonzero _ b;
          polls = nonzero _ c;
          packet_at_least = sizes.0;
          packet_at_most = sizes.1;
          queues = queues'.0;
          commands = queues'.1;
          events = queues'.2;
          outbound = queues'.3;
          connect_ends = ends.0;
          ack_ends = ends.1;
        }

    usable : IsUsable latest now options → validate latest now options ≡ ok tt
    usable u = (fail_if_iff (options.connect_timeout == 0) _ _).1 (
      positive _ u.connects_in_time,
      (fail_if_iff (options.ack_timeout == 0) _ _).1 (
        positive _ u.acknowledges_in_time,
        (fail_if_iff (options.poll_interval == 0) _ _).1 (
          positive _ u.polls,
          (fail_if_iff (is_no_size options.max_packet_size) _ _).1 (
            fits _ u.packet_at_least u.packet_at_most,
            (fail_if_iff (is_no_queue options) _ _).1 (
              four options u.queues u.commands u.events u.outbound,
              (fail_if_last (is_no_deadline latest now options) _).1
                  (both latest now options u.connect_ends u.ack_ends),
            ),
          ),
        ),
      ),
    )
