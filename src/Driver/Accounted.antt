-- ===== src/Driver/Accounted.antt =====
-- src/async_client.rs: `outbound_bytes` is the number of bytes that are queued or not flushed yet.
use mqtt_wasi.Prelude.{
  ℕ, zero, suc, ◌+◌, ◌-◌, ◌∙◌, ◌≤◌, ◌≡◌, refl, ap, Bool, true, false, Bool-cases, inl, inr, Option,
  List, [], ◌∷◌, ◌++◌, arith, ltb, ◌==◌, length, ltb→le,
}
use mqtt_wasi.Errors.{ok, err, interrupted, would_block}
use mqtt_wasi.Io.{Io, IoResult, done, failed}
use mqtt_wasi.Codec.Words.{Bytes, checked_add, usize_mod}
use mqtt_wasi.Driver.Outbound.{
  WrittenAction, OutboundFrame, PendingFlush, Outgoing, Left, nothing, publish_qos0, ping_req,
  disconnect, abandoned_disconnect, enqueue_sized, enqueue, complete_written, complete_all,
  on_flush, flush_accepted, advance_front, on_write, on_front, write_loop, drop_flag, flush_if,
  stamped, flush_rest, after_flush, flush_outbound,
}

-- the bytes of the frames that are queued
unfoldable pub queued : List OutboundFrame → ℕ
queued [] = 0
queued (frame ∷ rest) = length frame.bytes + queued rest

-- the bytes that were written and not flushed yet
unfoldable pub unflushed : List PendingFlush → ℕ
unflushed [] = 0
unflushed (flush ∷ rest) = flush.bytes + unflushed rest

queued-append : (xs ys : List OutboundFrame) → queued (xs ++ ys) ≡ queued xs + queued ys
unfolding queued
queued-append [] ys = omega arith
queued-append (x ∷ xs) ys = omega (arith, queued-append xs ys)

unflushed-append : (xs ys : List PendingFlush) → unflushed (xs ++ ys) ≡ unflushed xs + unflushed ys
unfolding unflushed
unflushed-append [] ys = omega arith
unflushed-append (x ∷ xs) ys = omega (arith, unflushed-append xs ys)

-- The count is right, and within the configured maximum.
abbrev pub IsAccounted : {W : Type 0} → Outgoing W → Type 0
IsAccounted c =
    (c.outbound_bytes ≡ queued c.outbound + unflushed c.flush_actions)
    × (c.outbound_bytes ≤ c.max_outbound_queue_bytes)

module _ {W : Type 0} where
  sized-IsAccounted :
      (frame : OutboundFrame) (c : Outgoing W)
      → IsAccounted c
      → IsAccounted (enqueue_sized frame (checked_add c.outbound_bytes (length frame.bytes)) c).1
  unfolding queued
  sized-IsAccounted frame c h =
      let more = queued-append c.outbound (frame ∷ []) in
      let next = c.outbound_bytes + length frame.bytes in
      elim (Bool-cases (ltb next usize_mod)) [
        | inl fits ↦ elim (Bool-cases (ltb c.max_outbound_queue_bytes next)) [
          | inl much ↦ rw (fits, much) h
          | inr room ↦
              rw (fits, room, more)
                (omega (arith, h.0), ltb→le c.max_outbound_queue_bytes next room)
        ]
        | inr over ↦ rw over h
      ]

  pub enqueue-IsAccounted :
      (bytes : Bytes) (action : WrittenAction) (correlation : Option Bytes) (c : Outgoing W)
      → IsAccounted c
      → IsAccounted (enqueue bytes action correlation c).1
  unfolding enqueue
  enqueue-IsAccounted bytes action correlation c h =
      elim (Bool-cases (ltb c.peer_max_packet_size (length bytes))) [
        | inl large ↦ rw large h
        | inr small ↦ rw small (sized-IsAccounted _ c h)
      ]

module _ {W : Type 0} (io : Io W) where
  completed :
      (a : WrittenAction) (rest : List PendingFlush) (c : Outgoing W)
      → IsAccounted (record c { flush_actions = rest })
      → IsAccounted (record (complete_written io a c) { flush_actions = rest })
  unfolding complete_written
  completed nothing rest c h = h
  completed (publish_qos0 result) rest c h = h
  completed ping_req rest c h = h
  completed (disconnect result) rest c h = h
  completed abandoned_disconnect rest c h = h

  complete_all-IsAccounted :
      (flushes : List PendingFlush) (c : Outgoing W)
      → IsAccounted (record c { flush_actions = flushes })
      → IsAccounted (complete_all io flushes c)
  unfolding complete_all unflushed
  complete_all-IsAccounted [] c h = h
  complete_all-IsAccounted (flush ∷ rest) c h =
      complete_all-IsAccounted rest _
        (completed flush.action rest _ (omega (arith, h.0), omega (arith, h.1)))

  on_flush-IsAccounted :
      (c : Outgoing W) (r : IoResult (Unit {0}) × W)
      → IsAccounted c
      → IsAccounted (on_flush io c r).1
  on_flush-IsAccounted c (done u, w) h = complete_all-IsAccounted c.flush_actions _ h
  on_flush-IsAccounted c (failed interrupted, w) h = h
  on_flush-IsAccounted c (failed would_block, w) h = h
  on_flush-IsAccounted c (failed kind, w) h = h

  front-IsAccounted :
      (n : ℕ) (frame : OutboundFrame) (rest : List OutboundFrame) (c : Outgoing W)
      → IsAccounted (record c { outbound = frame ∷ rest })
      → IsAccounted (advance_front io n frame rest c)
  unfolding queued unflushed
  front-IsAccounted n frame rest c h =
      let moved = unflushed-append c.flush_actions in
      elim (Bool-cases (frame.offset + n == length frame.bytes)) [
        | inl whole ↦ rw (whole, moved) (omega (arith, h.0), h.1)
        | inr part ↦ rw part h
      ]

  write-IsAccounted :
      (again : Outgoing W → Left W (Unit {0})) (frame : OutboundFrame) (rest : List OutboundFrame)
      (c : Outgoing W) (r : IoResult ℕ × W)
      → ((c : Outgoing W) → IsAccounted c → IsAccounted (again c).1)
      → c.outbound ≡ frame ∷ rest
      → IsAccounted c
      → IsAccounted (on_write io again frame rest c r).1
  write-IsAccounted again frame rest c (done zero, w) k e h = h
  write-IsAccounted again frame rest c (done (suc n), w) k e h =
      let here : c.outbound_bytes ≡ queued (frame ∷ rest) + unflushed c.flush_actions =
        h.0 ∙ ap (λ frames. queued frames + unflushed c.flush_actions) e in
      elim (Bool-cases (ltb (length frame.bytes - frame.offset) (suc n))) [
        | inl oversized ↦ rw oversized h
        | inr some_taken ↦
            rw some_taken
              (k _ (front-IsAccounted (suc n) frame rest (stamped io (io.now w) c) (here, h.1)))
      ]
  write-IsAccounted again frame rest c (failed interrupted, w) k e h = k _ h
  write-IsAccounted again frame rest c (failed would_block, w) k e h = h
  write-IsAccounted again frame rest c (failed kind, w) k e h = h

  loop-IsAccounted :
      (again : Outgoing W → Left W (Unit {0})) (frames : List OutboundFrame) (c : Outgoing W)
      → ((c : Outgoing W) → IsAccounted c → IsAccounted (again c).1)
      → c.outbound ≡ frames
      → IsAccounted c
      → IsAccounted (on_front io again frames c).1
  loop-IsAccounted again [] c k e h = h
  loop-IsAccounted again (frame ∷ rest) c k e h = write-IsAccounted again frame rest c _ k e h

  write_loop-IsAccounted :
      (fuel : ℕ) (c : Outgoing W) → IsAccounted c → IsAccounted (write_loop io fuel c).1
  unfolding write_loop
  write_loop-IsAccounted zero c h = h
  write_loop-IsAccounted (suc fuel) c h =
      loop-IsAccounted (write_loop io fuel) c.outbound c (write_loop-IsAccounted fuel) refl h

  flush_if-IsAccounted :
      (b : Bool) (c : Outgoing W) → IsAccounted c → IsAccounted (flush_if io b c).1
  unfolding flush_accepted
  flush_if-IsAccounted true c h = on_flush-IsAccounted c (io.flush c.stream) h
  flush_if-IsAccounted false c h = h

  dropped : (o : Left W Bool) → IsAccounted o.1 → IsAccounted (drop_flag io o).1
  dropped (err e, c) h = h
  dropped (ok b, c) h = h

  rest-IsAccounted : (o : Left W (Unit {0})) → IsAccounted o.1 → IsAccounted (flush_rest io o).1
  rest-IsAccounted (err e, c) h = h
  rest-IsAccounted (ok u, c) h = dropped _ (flush_if-IsAccounted c.needs_flush c h)

  after-IsAccounted :
      (fuel : ℕ) (o : Left W Bool) → IsAccounted o.1 → IsAccounted (after_flush io fuel o).1
  after-IsAccounted fuel (err e, c) h = h
  after-IsAccounted fuel (ok false, c) h = h
  after-IsAccounted fuel (ok true, c) h =
      rest-IsAccounted (write_loop io fuel c) (write_loop-IsAccounted fuel c h)

  pub flush_outbound-IsAccounted :
      (fuel : ℕ) (c : Outgoing W) → IsAccounted c → IsAccounted (flush_outbound io fuel c).1
  unfolding flush_outbound
  flush_outbound-IsAccounted fuel c h =
      after-IsAccounted fuel _ (flush_if-IsAccounted c.needs_flush c h)

  -- When `outbound_bytes` counts the bytes that are queued or not flushed yet, and is within the
  -- configured maximum, then so it is after `enqueue` and after `flush_outbound`, whatever the
  -- transport does and also where they fail.
  pub outgoing-IsAccounted :
      (fuel : ℕ) (bytes : Bytes) (action : WrittenAction) (correlation : Option Bytes)
      (c : Outgoing W)
      → IsAccounted c
      → IsAccounted (enqueue bytes action correlation c).1
        × IsAccounted (flush_outbound io fuel c).1
  outgoing-IsAccounted fuel bytes action correlation c h =
      (enqueue-IsAccounted bytes action correlation c h, flush_outbound-IsAccounted fuel c h)
