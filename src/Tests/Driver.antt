-- ===== src/Tests/Driver.antt =====
-- The theorems on the driver at concrete operations.
use mqtt_wasi.Prelude.{
  all, ℕ, zero, suc, ◌≡◌, ◌≤◌, ◌<◌, refl, true, false, Bool, [], ◌∷◌, arith, length, ◌==◌,
}
use mqtt_wasi.Errors.{ok, queue_full}
use mqtt_wasi.Codec.Words.{Bytes, same_bytes}
use mqtt_wasi.Driver.Pending.{
  AckClass, PendingAcks, Sender, publish, tombstone, contains_key, outgoing_qos1_count,
  bury_cancelled, reserve_packet_id,
}
use mqtt_wasi.Driver.Reserved.{
  reserve_packet_id-free, reserve_packet_id-full, reserve_packet_id-refuses,
}
use mqtt_wasi.Driver.Tombstones.{awaited, has_cancelled, bury_cancelled-keeps}
use mqtt_wasi.Driver.Lifecycle.{RequestLifecycle, contains, new_lifecycle, register, cancel}
use mqtt_wasi.Driver.LifecycleInvariant.{start, registered, cancelled, cancelled-Reached}
use mqtt_wasi.Prelude.{none, some, ◌++◌}
use mqtt_wasi.Io.{Io, done}
use mqtt_wasi.Tests.Parts.{write_two, write_two_logs}
use mqtt_wasi.Driver.Outbound.{Outgoing, publish_qos0, ping_req, enqueue, flush_outbound}
use mqtt_wasi.Driver.Accounted.{IsAccounted, outgoing-IsAccounted, queued, unflushed}
use mqtt_wasi.Driver.Wire.{Wire, unsent}
use mqtt_wasi.Errors.{Ends}
use mqtt_wasi.Driver.Drained.{flush_outbound-Ends}
use mqtt_wasi.Driver.Sends.{begin, accepted, flushed, handed-Sends}

abbrev waiting : PendingAcks
waiting =
    (1, record { deadline = 9; timeout_label = "PUBACK"; kind = publish 0 })
    ∷ (
      65535,
      record { deadline = 9; timeout_label = "PUBACK"; kind = tombstone AckClass.publish true },
    )
    ∷ []

reserved : (reserve_packet_id waiting 65535).0 ≡ ok 2
unfolding reserve_packet_id
reserved = refl

reserve_packet_id-free_example : (contains_key 2 waiting ≡ false) × (1 ≤ 2) × (2 < 65536)
reserve_packet_id-free_example =
    reserve_packet_id-free waiting 65535 2 (omega arith) (omega arith) reserved

-- operations with the identifiers up to n
unfoldable every : ℕ → PendingAcks
every zero = []
every (suc n) =
    (
      suc n,
      record { deadline = 9; timeout_label = "SUBACK"; kind = tombstone AckClass.subscribe false },
    )
    ∷ every n

contains_key-every : (n id : ℕ) → 1 ≤ id → id ≤ n → contains_key id (every n) ≡ true
unfolding every contains_key
contains_key-every zero id low high = absurd (omega arith)
contains_key-every (suc n) id low high = let ih = contains_key-every n id low in grind arith

reserve_packet_id-full_example : contains_key 77 (every 65535) ≡ true
reserve_packet_id-full_example =
    reserve_packet_id-full (every 65535) 5 (queue_full "packet identifiers") 77 (omega arith)
      (omega arith)
      (reserve_packet_id-refuses (every 65535)
        (λ id low high. contains_key-every 65535 id low (omega arith)) 5 (omega arith)
        (omega arith))
      (omega arith) (omega arith)

abbrev first_gone : Sender → Bool
first_gone s = s == 0

bury_cancelled-keeps_example :
    (awaited (bury_cancelled first_gone waiting) ≡ awaited waiting)
    × (outgoing_qos1_count (bury_cancelled first_gone waiting) ≡ outgoing_qos1_count waiting)
    × (has_cancelled first_gone (bury_cancelled first_gone waiting) ≡ false)
bury_cancelled-keeps_example = bury_cancelled-keeps first_gone waiting

abbrev request_key : Bytes
request_key = 1 ∷ 2 ∷ []

abbrev marked : RequestLifecycle
marked = cancel request_key (register request_key (new_lifecycle 4)).1

marked-contains : contains request_key marked.cancelled ≡ true
unfolding cancel register new_lifecycle same_bytes
marked-contains = refl

cancelled-Reached_example :
    (length marked.active ≤ 4) × (all (λ key. contains key marked.active) marked.cancelled ≡ true)
cancelled-Reached_example =
    cancelled-Reached 4 marked (cancelled request_key (registered request_key start))

-- A transport that takes at most two bytes at a time, is never blocked, and on which time stands still.
abbrev two_at_a_time : Io Bytes
two_at_a_time = record {
  now = λ w. (0, w);
  latest = 1_000_000;
  write = write_two;
  write_all = λ buf w. (done tt, w ++ buf);
  flush = λ w. (done tt, w);
  read = λ n w. (done [], w);
  set_nonblocking = λ b w. (done tt, w);
  set_read_timeout = λ t w. (done tt, w);
  set_write_timeout = λ t w. (done tt, w);
  shutdown = λ w. (done tt, w);
}

abbrev two_wire : Wire two_at_a_time
two_wire = record { logs = write_two_logs; flush_same = λ w. refl; now_same = λ w. refl }

abbrev idle : Outgoing Bytes
idle = record {
  stream = [];
  outbound = [];
  outbound_bytes = 0;
  last_write_at = 0;
  ping_outstanding_since = none;
  peer_max_packet_size = 100;
  max_outbound_queue_bytes = 8;
  needs_flush = false;
  flush_actions = [];
  ping_queued = true;
  terminal_event_sent = false;
  sent = [];
}

abbrev one_queued : Outgoing Bytes
one_queued = (enqueue (1 ∷ 2 ∷ 3 ∷ []) (publish_qos0 7) none idle).1

abbrev two_queued : Outgoing Bytes
two_queued = (enqueue (0xC0 ∷ 0 ∷ []) ping_req none one_queued).1

abbrev all_sent : Outgoing Bytes
all_sent = (flush_outbound two_at_a_time 9 two_queued).1

one-accepted : (enqueue (1 ∷ 2 ∷ 3 ∷ []) (publish_qos0 7) none idle).0 ≡ ok tt
unfolding enqueue
one-accepted = refl

two-accepted : (enqueue (0xC0 ∷ 0 ∷ []) ping_req none one_queued).0 ≡ ok tt
unfolding enqueue
two-accepted = refl

all-sent_stream : all_sent.stream ≡ 1 ∷ 2 ∷ 3 ∷ 0xC0 ∷ 0 ∷ []
unfolding enqueue flush_outbound
all-sent_stream = refl

all-sent_bytes : (all_sent.outbound_bytes ≡ 0) × (all_sent.ping_outstanding_since ≡ some 0)
unfolding enqueue flush_outbound
all-sent_bytes = (refl, refl)

handed-Sends_example : all_sent.stream ++ unsent all_sent.outbound ≡ 1 ∷ 2 ∷ 3 ∷ 0xC0 ∷ 0 ∷ []
handed-Sends_example =
    handed-Sends two_at_a_time two_wire idle all_sent (1 ∷ 2 ∷ 3 ∷ 0xC0 ∷ 0 ∷ []) refl (
      flushed 9 (
        accepted (0xC0 ∷ 0 ∷ []) ping_req none
          (accepted (1 ∷ 2 ∷ 3 ∷ []) (publish_qos0 7) none begin one-accepted) two-accepted))

outgoing-IsAccounted_example :
    IsAccounted (enqueue (1 ∷ 2 ∷ []) ping_req none idle).1
    × IsAccounted (flush_outbound two_at_a_time 5 idle).1
outgoing-IsAccounted_example =
    outgoing-IsAccounted two_at_a_time 5 (1 ∷ 2 ∷ []) ping_req none idle
      ((unfold queued unflushed in refl), omega arith)

flush_outbound-Ends_example : Ends (flush_outbound two_at_a_time 6 two_queued).0
unfolding enqueue
flush_outbound-Ends_example =
    flush_outbound-Ends two_at_a_time (λ buf w e. cc) 6 two_queued (unfold unsent in omega arith)
