-- ===== src/Driver/Wire.antt =====
-- src/async_client.rs: in which order the queued bytes reach the transport.
use mqtt_wasi.Prelude.{
  ℕ, zero, suc, ◌+◌, ◌-◌, ◌∙◌, ◌≡◌, refl, ap, sym, Bool, true, false, Bool-cases, inl, inr, List,
  [], ◌∷◌, ◌++◌, arith, ltb, ◌==◌, length, take, drop, drop-drop, drop_all, length-drop,
  take-append-drop, append-nil, append_assoc,
}
use mqtt_wasi.Errors.{ok, err, interrupted, would_block}
use mqtt_wasi.Io.{Io, IoResult, done, failed}
use mqtt_wasi.Transport.Whole.{Logs, Hands}
use mqtt_wasi.Codec.Words.{Bytes}
use mqtt_wasi.Driver.Outbound.{
  WrittenAction, OutboundFrame, PendingFlush, Outgoing, Left, nothing, publish_qos0, ping_req,
  disconnect, abandoned_disconnect, complete_written, complete_all, on_flush, flush_accepted,
  advance_front, on_write, on_front, write_loop, drop_flag, flush_if, stamped, flush_rest,
  after_flush, flush_outbound,
}

-- the bytes that are queued and not written
unfoldable pub unsent : List OutboundFrame → Bytes
unsent [] = []
unsent (frame ∷ rest) = drop frame.offset frame.bytes ++ unsent rest

pub unsent-append : (xs ys : List OutboundFrame) → unsent (xs ++ ys) ≡ unsent xs ++ unsent ys
unfolding unsent
unsent-append [] ys = refl
unsent-append (x ∷ xs) ys =
    ap (λ l. drop x.offset x.bytes ++ l) (unsent-append xs ys)
    ∙ sym (append_assoc (drop x.offset x.bytes) (unsent xs) (unsent ys))

-- The contract of a transport and of the clock: `write` says what it took, and neither `flush` nor
-- the clock hands over bytes.
pub record Wire {W : Type 0} (io : Io W) : Type 0 where
  pub logs : Logs io.write
  pub flush_same : (w : W) → logs.log (io.flush w).1 ≡ logs.log w
  pub now_same : (w : W) → logs.log (io.now w).1 ≡ logs.log w

module _ {W : Type 0} (io : Io W) where
  -- what is left of the queue after a part of the front frame
  pub unsent-advance_front :
      (n : ℕ) (frame : OutboundFrame) (rest : List OutboundFrame) (c : Outgoing W)
      → unsent (advance_front io n frame rest c).outbound
        ≡ drop n (drop frame.offset frame.bytes) ++ unsent rest
  unfolding unsent
  unsent-advance_front n frame rest c = elim (Bool-cases (frame.offset + n == length frame.bytes)) [
    | inl whole ↦
        let empty : drop n (drop frame.offset frame.bytes) ≡ [] =
          drop_all n _ (let l = length-drop frame.offset frame.bytes in ground arith) in
        rw (whole, empty) refl
    | inr part ↦ rw (part, drop-drop n frame.offset frame.bytes) refl
  ]

  stream-advance_front :
      (n : ℕ) (frame : OutboundFrame) (rest : List OutboundFrame) (c : Outgoing W)
      → (advance_front io n frame rest c).stream ≡ c.stream
  stream-advance_front n frame rest c = elim (Bool-cases (frame.offset + n == length frame.bytes)) [
    | inl whole ↦ rw whole refl
    | inr part ↦ rw part refl
  ]

module _ {W : Type 0} (io : Io W) (wire : Wire io) where
  -- the bytes that were handed over, and then those that are still to be
  abbrev pub carried : Outgoing W → Bytes
  carried c = wire.logs.log c.stream ++ unsent c.outbound

  restamped :
      (c : Outgoing W) (w : W)
      → wire.logs.log w ≡ wire.logs.log c.stream
      → wire.logs.log w ++ unsent c.outbound ≡ carried c
  restamped c w same = ap (λ l. l ++ unsent c.outbound) same

  carried-complete_written :
      (a : WrittenAction) (c : Outgoing W) → carried (complete_written io a c) ≡ carried c
  unfolding complete_written
  carried-complete_written nothing c = refl
  carried-complete_written (publish_qos0 result) c = refl
  carried-complete_written ping_req c = restamped c _ (wire.now_same c.stream)
  carried-complete_written (disconnect result) c = refl
  carried-complete_written abandoned_disconnect c = refl

  carried-complete_all :
      (flushes : List PendingFlush) (c : Outgoing W)
      → carried (complete_all io flushes c) ≡ carried c
  unfolding complete_all
  carried-complete_all [] c = refl
  carried-complete_all (flush ∷ rest) c =
      carried-complete_all rest _ ∙ carried-complete_written flush.action _

  carried-on_flush :
      (c : Outgoing W) (r : IoResult (Unit {0}) × W)
      → wire.logs.log r.1 ≡ wire.logs.log c.stream
      → carried (on_flush io c r).1 ≡ carried c
  carried-on_flush c (done u, w) h = carried-complete_all c.flush_actions _ ∙ restamped c w h
  carried-on_flush c (failed interrupted, w) h = restamped c w h
  carried-on_flush c (failed would_block, w) h = restamped c w h
  carried-on_flush c (failed kind, w) h = restamped c w h

  carried-flush_if : (b : Bool) (c : Outgoing W) → carried (flush_if io b c).1 ≡ carried c
  unfolding flush_accepted
  carried-flush_if true c = carried-on_flush c (io.flush c.stream) (wire.flush_same c.stream)
  carried-flush_if false c = refl

  -- a part of the front frame has moved from the queue to the transport
  carried-advance_front :
      (n : ℕ) (frame : OutboundFrame) (rest : List OutboundFrame) (c d : Outgoing W)
      → c.outbound ≡ frame ∷ rest
      → wire.logs.log d.stream ≡ wire.logs.log c.stream ++ take n (drop frame.offset frame.bytes)
      → carried (advance_front io n frame rest d) ≡ carried c
  unfolding unsent
  carried-advance_front n frame rest c d e h =
      let log = wire.logs.log c.stream in
      let buf = drop frame.offset frame.bytes in
      ap (λ w. wire.logs.log w ++ unsent (advance_front io n frame rest d).outbound)
        (stream-advance_front io n frame rest d)
      ∙ ap (λ l. wire.logs.log d.stream ++ l) (unsent-advance_front io n frame rest d)
      ∙ ap (λ l. l ++ (drop n buf ++ unsent rest)) h
      ∙ append_assoc log (take n buf) (drop n buf ++ unsent rest)
      ∙ ap (λ l. log ++ l) (sym (append_assoc (take n buf) (drop n buf) (unsent rest)))
      ∙ ap (λ l. log ++ (l ++ unsent rest)) (take-append-drop n buf)
      ∙ ap (λ frames. log ++ unsent frames) (sym e)

  carried-on_write :
      (again : Outgoing W → Left W (Unit {0})) (frame : OutboundFrame) (rest : List OutboundFrame)
      (c : Outgoing W) (r : IoResult ℕ × W)
      → ((c : Outgoing W) → carried (again c).1 ≡ carried c)
      → c.outbound ≡ frame ∷ rest
      → Hands wire.logs.log (drop frame.offset frame.bytes) c.stream r
      → carried (on_write io again frame rest c r).1 ≡ carried c
  carried-on_write again frame rest c (done zero, w) k e h = restamped c w (h.1 ∙ append-nil _)
  carried-on_write again frame rest c (done (suc n), w) k e h =
      elim (Bool-cases (ltb (length frame.bytes - frame.offset) (suc n))) [
        | inl oversized ↦
            absurd (let l = length-drop frame.offset frame.bytes in let m = h.0 in ground arith)
        | inr fits ↦ rw fits (
            k _
            ∙ carried-advance_front (suc n) frame rest c (stamped io (io.now w) c) e
                (wire.now_same w ∙ h.1))
      ]
  carried-on_write again frame rest c (failed interrupted, w) k e h = k _ ∙ restamped c w h
  carried-on_write again frame rest c (failed would_block, w) k e h = restamped c w h
  carried-on_write again frame rest c (failed kind, w) k e h = restamped c w h

  carried-on_front :
      (again : Outgoing W → Left W (Unit {0})) (frames : List OutboundFrame) (c : Outgoing W)
      → ((c : Outgoing W) → carried (again c).1 ≡ carried c)
      → c.outbound ≡ frames
      → carried (on_front io again frames c).1 ≡ carried c
  carried-on_front again [] c k e = refl
  carried-on_front again (frame ∷ rest) c k e =
      carried-on_write again frame rest c _ k e (wire.logs.hands _ c.stream)

  carried-write_loop : (fuel : ℕ) (c : Outgoing W) → carried (write_loop io fuel c).1 ≡ carried c
  unfolding write_loop
  carried-write_loop zero c = refl
  carried-write_loop (suc fuel) c =
      carried-on_front (write_loop io fuel) c.outbound c (carried-write_loop fuel) refl

  carried-drop_flag : (o : Left W Bool) → carried (drop_flag io o).1 ≡ carried o.1
  carried-drop_flag (err e, c) = refl
  carried-drop_flag (ok b, c) = refl

  carried-flush_rest : (o : Left W (Unit {0})) → carried (flush_rest io o).1 ≡ carried o.1
  carried-flush_rest (err e, c) = refl
  carried-flush_rest (ok u, c) = carried-drop_flag _ ∙ carried-flush_if c.needs_flush c

  carried-after_flush :
      (fuel : ℕ) (o : Left W Bool) → carried (after_flush io fuel o).1 ≡ carried o.1
  carried-after_flush fuel (err e, c) = refl
  carried-after_flush fuel (ok false, c) = refl
  carried-after_flush fuel (ok true, c) = carried-flush_rest _ ∙ carried-write_loop fuel c

  -- Over a transport that keeps the contract of `write`, `flush_outbound` moves bytes from the front
  -- of the queue to the transport and does nothing else to them, whatever the parts in which they are
  -- taken, however often the transport blocks or is interrupted, and also where it fails: what was
  -- handed over, followed by what is still queued, stays as it is.
  pub carried-flush_outbound :
      (fuel : ℕ) (c : Outgoing W) → carried (flush_outbound io fuel c).1 ≡ carried c
  unfolding flush_outbound
  carried-flush_outbound fuel c = carried-after_flush fuel _ ∙ carried-flush_if c.needs_flush c
