-- ===== src/Driver/Outbound.antt =====
-- src/async_client.rs: the queue of packets that go out, and how it is written. `Outgoing` has the
-- fields of `MqttConnection` that this part uses. What is offered to the channels, which are
-- tokio's, is collected in `sent`, whether or not a channel takes it: the source does not look at
-- that. The correlation of a request's packet is kept with it.
use mqtt_wasi.Prelude.{
  ℕ, zero, suc, ◌+◌, ◌-◌, Bool, true, false, Option, none, some, List, [], ◌∷◌, ◌++◌, ltb, ◌==◌,
  length, drop, if◌then◌else◌,
}
use mqtt_wasi.Errors.{
  Error, Result, ok, err, packet_too_large, queue_full, out_of_fuel, interrupted, would_block,
  write_zero, invalid_data,
}
use mqtt_wasi.Io.{Io, IoResult, done, failed}
use mqtt_wasi.Codec.Words.{Bytes, checked_add}
use mqtt_wasi.Driver.Pending.{Sender}

pub data WrittenAction : Type 0 where
  -- `WrittenAction::None`
  nothing : WrittenAction
  publish_qos0 : (result : Sender) → WrittenAction
  ping_req : WrittenAction
  disconnect : (result : Sender) → WrittenAction
  abandoned_disconnect : WrittenAction

pub record OutboundFrame : Type 0 where
  pub bytes : Bytes
  pub offset : ℕ
  pub action : WrittenAction
  pub request_correlation : Option Bytes

pub record PendingFlush : Type 0 where
  pub bytes : ℕ
  pub action : WrittenAction

-- a message that is offered to a channel
pub data Sent : Type 0 where
  -- `result.send(Ok(PublishAck { packet_id, reason_code }))`
  publish_ack : (result : Sender) (packet_id reason_code : Option ℕ) → Sent
  -- `result.send(Ok(()))`
  disconnected : (result : Sender) → Sent
  -- `events.try_send(Event::Disconnected(DisconnectReason::ClientInitiated))`
  client_initiated : Sent

pub record Outgoing (W : Type 0) : Type 0 where
  pub stream : W
  pub outbound : List OutboundFrame
  pub outbound_bytes : ℕ
  pub last_write_at : ℕ
  pub ping_outstanding_since : Option ℕ
  pub peer_max_packet_size : ℕ
  pub max_outbound_queue_bytes : ℕ
  pub needs_flush : Bool
  pub flush_actions : List PendingFlush
  pub ping_queued : Bool
  pub terminal_event_sent : Bool
  pub sent : List Sent

-- what a method leaves: its result and the fields
abbrev pub Left : Type 0 → Type 0 → Type 0
Left W A = Result A × Outgoing W

module _ {W : Type 0} where
  abbrev pub queue_frame : OutboundFrame → ℕ → Outgoing W → Outgoing W
  queue_frame frame next_size c = record c {
    outbound_bytes = next_size;
    outbound = c.outbound ++ frame ∷ [];
  }

  -- the check of `next_size`
  abbrev pub enqueue_sized : OutboundFrame → Option ℕ → Outgoing W → Left W (Unit {0})
  enqueue_sized frame none c = (err (queue_full "outbound bytes"), c)
  enqueue_sized frame (some next_size) c =
      if ltb c.max_outbound_queue_bytes next_size
      then (err (queue_full "outbound bytes"), c)
      else (ok tt, queue_frame frame next_size c)

  -- `enqueue`; `enqueue_with_action` gives the action back besides.
  unfoldable pub enqueue : Bytes → WrittenAction → Option Bytes → Outgoing W → Left W (Unit {0})
  enqueue bytes action request_correlation c =
      if ltb c.peer_max_packet_size (length bytes)
      then (err (packet_too_large (length bytes) c.peer_max_packet_size), c)
      else enqueue_sized
          (record {
            bytes = bytes;
            offset = 0;
            action = action;
            request_correlation = request_correlation;
          })
          (checked_add c.outbound_bytes (length bytes)) c

  abbrev pub sends : Sent → Outgoing W → Outgoing W
  sends message c = record c { sent = c.sent ++ message ∷ [] }

module _ {W : Type 0} (io : Io W) where
  -- `self.ping_outstanding_since = Some(Instant::now())`
  abbrev pub ping_sent : ℕ × W → Outgoing W → Outgoing W
  ping_sent (at, w) c = record c {
    stream = w;
    ping_queued = false;
    ping_outstanding_since = some at;
  }

  unfoldable pub complete_written : WrittenAction → Outgoing W → Outgoing W
  complete_written nothing c = c
  complete_written (publish_qos0 result) c = sends (publish_ack result none none) c
  complete_written ping_req c = ping_sent (io.now c.stream) c
  complete_written (disconnect result) c =
      record (sends client_initiated (sends (disconnected result) c)) { terminal_event_sent = true }
  complete_written abandoned_disconnect c = c

  -- the loop of `flush_accepted`
  unfoldable pub complete_all : List PendingFlush → Outgoing W → Outgoing W
  unfolding complete_written
  complete_all [] c = record c { flush_actions = [] }
  complete_all (flush ∷ rest) c = complete_all rest (
      complete_written flush.action
        (record c { outbound_bytes = c.outbound_bytes - flush.bytes; flush_actions = rest }))

  -- `flush_accepted`, from the result of `flush`
  abbrev pub on_flush : Outgoing W → IoResult (Unit {0}) × W → Left W Bool
  on_flush c (done u, w) =
      (ok true, complete_all c.flush_actions (record c { stream = w; needs_flush = false }))
  on_flush c (failed interrupted, w) = (ok false, record c { stream = w })
  on_flush c (failed would_block, w) = (ok false, record c { stream = w })
  on_flush c (failed kind, w) = (err (Error.io kind), record c { stream = w })

  unfoldable pub flush_accepted : Outgoing W → Left W Bool
  unfolding complete_all
  flush_accepted c = on_flush c (io.flush c.stream)

  -- The front frame after `written` of its bytes: it stays, or moves to those that wait for a flush.
  abbrev pub advance_front : ℕ → OutboundFrame → List OutboundFrame → Outgoing W → Outgoing W
  advance_front written frame rest c =
      if frame.offset + written == length frame.bytes
      then record c {
        outbound = rest;
        flush_actions =
            c.flush_actions ++ record { bytes = length frame.bytes; action = frame.action } ∷ [];
      }
      else record c { outbound = record frame { offset = frame.offset + written } ∷ rest }

  abbrev pub stamped : ℕ × W → Outgoing W → Outgoing W
  stamped (at, w) c = record c { stream = w; last_write_at = at; needs_flush = true }

  -- one round of the loop of `flush_outbound`, from the result of `write`, where `again` is the next
  abbrev pub on_write :
      (Outgoing W → Left W (Unit {0}))
      → OutboundFrame
      → List OutboundFrame
      → Outgoing W
      → IoResult ℕ × W
      → Left W (Unit {0})
  on_write again frame rest c (done zero, w) = (err (Error.io write_zero), record c { stream = w })
  on_write again frame rest c (done (suc n), w) =
      if ltb (length frame.bytes - frame.offset) (suc n)
      then (err (Error.io invalid_data), record c { stream = w })
      else again (advance_front (suc n) frame rest (stamped (io.now w) c))
  on_write again frame rest c (failed interrupted, w) = again (record c { stream = w })
  on_write again frame rest c (failed would_block, w) = (ok tt, record c { stream = w })
  on_write again frame rest c (failed kind, w) = (err (Error.io kind), record c { stream = w })

  abbrev pub on_front :
      (Outgoing W → Left W (Unit {0})) → List OutboundFrame → Outgoing W → Left W (Unit {0})
  on_front again [] c = (ok tt, c)
  on_front again (frame ∷ rest) c =
      on_write again frame rest c (io.write (drop frame.offset frame.bytes) c.stream)

  -- the loop, with fuel for its rounds
  unfoldable pub write_loop : ℕ → Outgoing W → Left W (Unit {0})
  write_loop zero c = (err out_of_fuel, c)
  write_loop (suc fuel) c = on_front (write_loop fuel) c.outbound c

  -- `self.flush_accepted()?`, when `needs_flush` holds
  abbrev pub flush_if : Bool → Outgoing W → Left W Bool
  flush_if true c = flush_accepted c
  flush_if false c = (ok true, c)

  -- a result that is not looked at
  abbrev pub drop_flag : Left W Bool → Left W (Unit {0})
  drop_flag (err e, c) = (err e, c)
  drop_flag (ok b, c) = (ok tt, c)

  -- the end of `flush_outbound`
  abbrev pub flush_rest : Left W (Unit {0}) → Left W (Unit {0})
  flush_rest (err e, c) = (err e, c)
  flush_rest (ok u, c) = drop_flag (flush_if c.needs_flush c)

  -- what follows the flush at the start
  abbrev pub after_flush : ℕ → Left W Bool → Left W (Unit {0})
  after_flush fuel (err e, c) = (err e, c)
  after_flush fuel (ok false, c) = (ok tt, c)
  after_flush fuel (ok true, c) = flush_rest (write_loop fuel c)

  unfoldable pub flush_outbound : ℕ → Outgoing W → Left W (Unit {0})
  unfolding write_loop flush_accepted
  flush_outbound fuel c = after_flush fuel (flush_if c.needs_flush c)
