-- ===== src/Driver/Drained.antt =====
-- src/async_client.rs: `flush_outbound` ends.
use mqtt_wasi.Prelude.{
  ℕ, zero, suc, ◌-◌, ◌∙◌, ◌<◌, ◌≡◌, ◌≢◌, refl, ap, Bool, true, false, Bool-cases, inl, inr, List,
  [], ◌∷◌, arith, ltb, length, drop, length-drop, length-append,
}
use mqtt_wasi.Errors.{ok, err, interrupted, would_block, Ends}
use mqtt_wasi.Io.{Io, IoResult, done, failed}
use mqtt_wasi.Codec.Words.{Bytes}
use mqtt_wasi.Driver.Outbound.{
  WrittenAction, OutboundFrame, PendingFlush, Outgoing, Left, nothing, publish_qos0, ping_req,
  disconnect, abandoned_disconnect, complete_written, complete_all, on_flush, flush_accepted,
  advance_front, on_write, on_front, write_loop, drop_flag, flush_if, stamped, flush_rest,
  after_flush, flush_outbound,
}
use mqtt_wasi.Driver.Wire.{unsent, unsent-advance_front}

module _ {W : Type 0} (io : Io W) where
  outbound-complete_written :
      (a : WrittenAction) (c : Outgoing W) → (complete_written io a c).outbound ≡ c.outbound
  unfolding complete_written
  outbound-complete_written nothing c = refl
  outbound-complete_written (publish_qos0 result) c = refl
  outbound-complete_written ping_req c = refl
  outbound-complete_written (disconnect result) c = refl
  outbound-complete_written abandoned_disconnect c = refl

  outbound-complete_all :
      (flushes : List PendingFlush) (c : Outgoing W)
      → (complete_all io flushes c).outbound ≡ c.outbound
  unfolding complete_all
  outbound-complete_all [] c = refl
  outbound-complete_all (flush ∷ rest) c =
      outbound-complete_all rest _ ∙ outbound-complete_written flush.action _

  -- A flush ends, and leaves the queue as it is.
  abbrev Settles : Outgoing W → Left W Bool → Type 0
  Settles c o = Ends o.0 × (o.1.outbound ≡ c.outbound)

  on_flush-Settles : (c : Outgoing W) (r : IoResult (Unit {0}) × W) → Settles c (on_flush io c r)
  on_flush-Settles c (done u, w) =
      (record { ends = λ e. cc }, outbound-complete_all c.flush_actions _)
  on_flush-Settles c (failed interrupted, w) = (record { ends = λ e. cc }, refl)
  on_flush-Settles c (failed would_block, w) = (record { ends = λ e. cc }, refl)
  on_flush-Settles c (failed kind, w) = (record { ends = λ e. cc }, refl)

  flush_if-Settles : (b : Bool) (c : Outgoing W) → Settles c (flush_if io b c)
  unfolding flush_accepted
  flush_if-Settles true c = on_flush-Settles c (io.flush c.stream)
  flush_if-Settles false c = (record { ends = λ e. cc }, refl)

  drop_flag-Ends : (o : Left W Bool) → Ends o.0 → Ends (drop_flag io o).0
  drop_flag-Ends (err e, c) h = record { ends = λ p. h.ends cc }
  drop_flag-Ends (ok b, c) h = record { ends = λ p. cc }

  rest-Ends : (o : Left W (Unit {0})) → Ends o.0 → Ends (flush_rest io o).0
  rest-Ends (err e, c) h = h
  rest-Ends (ok u, c) h = drop_flag-Ends _ (flush_if-Settles c.needs_flush c).0

  module _ (uninterrupted : (buf : Bytes) (w : W) → (io.write buf w).0 ≢ failed interrupted) where
    on_write-Ends :
        (again : Outgoing W → Left W (Unit {0})) (frame : OutboundFrame) (rest : List OutboundFrame)
        (c : Outgoing W) (r : IoResult ℕ × W)
        → ((d : Outgoing W)
            → length (unsent d.outbound) < length (unsent (frame ∷ rest))
            → Ends (again d).0)
        → r.0 ≢ failed interrupted
        → Ends (on_write io again frame rest c r).0
    unfolding unsent
    on_write-Ends again frame rest c (done zero, w) k never = record { ends = λ e. cc }
    on_write-Ends again frame rest c (done (suc n), w) k never =
        let buf = drop frame.offset frame.bytes in
        let d = advance_front io (suc n) frame rest (stamped io (io.now w) c) in
        let left =
          ap (λ l. length l)
            (unsent-advance_front io (suc n) frame rest (stamped io (io.now w) c)) in
        elim (Bool-cases (ltb (length frame.bytes - frame.offset) (suc n))) [
          | inl oversized ↦ rw oversized (record { ends = λ e. cc })
          | inr fits ↦ rw fits (
              k d (
                let a = length-append (drop (suc n) buf) (unsent rest) in
                let b = length-append buf (unsent rest) in
                let s = length-drop frame.offset frame.bytes in
                let t = length-drop (suc n) buf in ground arith))
        ]
    on_write-Ends again frame rest c (failed interrupted, w) k never = absurd (never refl)
    on_write-Ends again frame rest c (failed would_block, w) k never = record { ends = λ e. cc }
    on_write-Ends again frame rest c (failed kind, w) k never = record { ends = λ e. cc }

    on_front-Ends :
        (again : Outgoing W → Left W (Unit {0})) (frames : List OutboundFrame) (c : Outgoing W)
        → ((d : Outgoing W)
            → length (unsent d.outbound) < length (unsent frames)
            → Ends (again d).0)
        → Ends (on_front io again frames c).0
    on_front-Ends again [] c k = record { ends = λ e. cc }
    on_front-Ends again (frame ∷ rest) c k =
        on_write-Ends again frame rest c _ k (uninterrupted _ c.stream)

    write_loop-Ends :
        (fuel : ℕ) (c : Outgoing W)
        → length (unsent c.outbound) < fuel
        → Ends (write_loop io fuel c).0
    unfolding write_loop
    write_loop-Ends zero c less = absurd (omega arith)
    write_loop-Ends (suc fuel) c less =
        on_front-Ends (write_loop io fuel) c.outbound c
          (λ d fewer. write_loop-Ends fuel d (omega arith))

    after-Ends :
        (fuel : ℕ) (o : Left W Bool)
        → Ends o.0
        → length (unsent o.1.outbound) < fuel
        → Ends (after_flush io fuel o).0
    after-Ends fuel (err e, c) h less = record { ends = λ p. h.ends cc }
    after-Ends fuel (ok false, c) h less = record { ends = λ p. cc }
    after-Ends fuel (ok true, c) h less = rest-Ends _ (write_loop-Ends fuel c less)

    -- Over a transport that is never interrupted, `flush_outbound` ends: it needs no more rounds than
    -- there are bytes to write, and one.
    pub flush_outbound-Ends :
        (fuel : ℕ) (c : Outgoing W)
        → length (unsent c.outbound) < fuel
        → Ends (flush_outbound io fuel c).0
    unfolding flush_outbound
    flush_outbound-Ends fuel c less =
        let (ends, same) = flush_if-Settles c.needs_flush c in after-Ends fuel _ ends (rw same less)
