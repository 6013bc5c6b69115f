-- ===== src/Driver/Pending.antt =====
-- src/async_client.rs: the operations that wait for an acknowledgement, by their packet identifier.
-- The sender of a channel is a number, and whether its receiver is gone is a parameter. The feature
-- `request-response` is on.
use mqtt_wasi.Prelude.{
  ℕ, zero, suc, Bool, true, false, String, List, [], ◌∷◌, ◌==◌, if◌then◌else◌, any,
}
use mqtt_wasi.Errors.{Result, ok, err, queue_full}
use mqtt_wasi.Codec.Words.{Bytes}
use mqtt_wasi.Codec.Types.{QoS}
use mqtt_wasi.Client.Sending.{id_after}

abbrev pub Sender : Type 0
Sender = ℕ

pub data AckClass : Type 0 where
  publish subscribe unsubscribe : AckClass

pub data PendingAckKind : Type 0 where
  publish : (result : Sender) → PendingAckKind
  subscribe : (requested_qos : QoS) (result : Sender) → PendingAckKind
  unsubscribe : (filter : Bytes) (result : Sender) → PendingAckKind
  request_publish : (correlation_data : Bytes) → PendingAckKind
  response_subscribe : (response_topic : Bytes) → PendingAckKind
  tombstone : (expected_ack : AckClass) (counts_toward_receive_maximum : Bool) → PendingAckKind

pub record PendingAck : Type 0 where
  pub deadline : ℕ
  pub timeout_label : String
  pub kind : PendingAckKind

abbrev pub PendingAcks : Type 0
PendingAcks = List (ℕ × PendingAck)

unfoldable pub is_cancelled : (Sender → Bool) → PendingAckKind → Bool
is_cancelled is_closed (publish result) = is_closed result
is_cancelled is_closed (subscribe requested_qos result) = is_closed result
is_cancelled is_closed (unsubscribe filter result) = is_closed result
is_cancelled is_closed (request_publish correlation_data) = false
is_cancelled is_closed (response_subscribe response_topic) = false
is_cancelled is_closed (tombstone expected_ack counts) = false

unfoldable pub is_qos1_publish : PendingAckKind → Bool
is_qos1_publish (publish result) = true
is_qos1_publish (request_publish correlation_data) = true
is_qos1_publish (tombstone expected_ack counts) = counts
is_qos1_publish _ = false

unfoldable pub is_tombstone : PendingAckKind → Bool
is_tombstone (tombstone expected_ack counts) = true
is_tombstone _ = false

unfoldable pub ack_class : PendingAckKind → AckClass
ack_class (publish result) = AckClass.publish
ack_class (subscribe requested_qos result) = AckClass.subscribe
ack_class (unsubscribe filter result) = AckClass.unsubscribe
ack_class (request_publish correlation_data) = AckClass.publish
ack_class (response_subscribe response_topic) = AckClass.subscribe
ack_class (tombstone expected_ack counts) = expected_ack

-- the tombstone of an operation
unfoldable pub bury : PendingAck → PendingAck
unfolding ack_class is_qos1_publish
bury pending = record pending {
  kind = tombstone (ack_class pending.kind) (is_qos1_publish pending.kind);
}

-- the first loop of `expire_operations`
unfoldable pub bury_cancelled : (Sender → Bool) → PendingAcks → PendingAcks
unfolding is_cancelled bury
bury_cancelled is_closed [] = []
bury_cancelled is_closed ((id, pending) ∷ acks) =
    (id, (if is_cancelled is_closed pending.kind then bury pending else pending))
    ∷ bury_cancelled is_closed acks

unfoldable pub outgoing_qos1_count : PendingAcks → ℕ
unfolding is_qos1_publish
outgoing_qos1_count [] = 0
outgoing_qos1_count ((id, pending) ∷ acks) =
    let rest = outgoing_qos1_count acks in if is_qos1_publish pending.kind then suc rest else rest

-- `self.pending_acks.contains_key(&packet_id)`
unfoldable pub contains_key : ℕ → PendingAcks → Bool
contains_key packet_id acks = any (λ (id, pending). id == packet_id) acks

-- one round of `reserve_packet_id`, where `more` is what the next one does
abbrev pub unless_pending : Bool → ℕ → (ℕ → Result ℕ × ℕ) → Result ℕ × ℕ
unless_pending true next more = more (id_after next)
unless_pending false next more = (ok next, id_after next)

-- The rounds: the result, and the next identifier.
unfoldable pub reserve_loop : ℕ → PendingAcks → ℕ → Result ℕ × ℕ
reserve_loop zero acks next = (err (queue_full "packet identifiers"), next)
reserve_loop (suc rounds) acks next =
    unless_pending (contains_key next acks) next (reserve_loop rounds acks)

unfoldable pub reserve_packet_id : PendingAcks → ℕ → Result ℕ × ℕ
unfolding reserve_loop contains_key
reserve_packet_id acks next = reserve_loop 65535 acks next
