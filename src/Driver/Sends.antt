-- ===== src/Driver/Sends.antt =====
-- src/async_client.rs: what calls of `enqueue` and of `flush_outbound` hand to the transport.
use mqtt_wasi.Prelude.{
  ℕ, ◌+◌, ◌∙◌, ◌≡◌, refl, ap, sym, Bool-cases, inl, inr, Option, [], ◌∷◌, ◌++◌, ltb, length, drop,
  append-nil, append_assoc,
}
use mqtt_wasi.Errors.{Error, Result, ok, err}
use mqtt_wasi.Io.{Io}
use mqtt_wasi.Codec.Words.{Bytes, checked_add, usize_mod}
use mqtt_wasi.Driver.Outbound.{
  WrittenAction, OutboundFrame, Outgoing, enqueue_sized, enqueue, flush_outbound,
}
use mqtt_wasi.Driver.Wire.{Wire, unsent, unsent-append, carried, carried-flush_outbound}

module _ {W : Type 0} (io : Io W) where
  -- Calls from `start` to `c`, where `given` are the bytes that were accepted, in order.
  pub data Sends (start : Outgoing W) : Outgoing W → Bytes → Type 0 where
    begin : Sends start start []
    accepted :
        {c : Outgoing W} {given : Bytes} (bytes : Bytes) (action : WrittenAction)
        (correlation : Option Bytes)
        → Sends start c given
        → (enqueue bytes action correlation c).0 ≡ ok tt
        → Sends start (enqueue bytes action correlation c).1 (given ++ bytes)
    refused :
        {c : Outgoing W} {given : Bytes} (bytes : Bytes) (action : WrittenAction)
        (correlation : Option Bytes) (e : Error)
        → Sends start c given
        → (enqueue bytes action correlation c).0 ≡ err e
        → Sends start (enqueue bytes action correlation c).1 given
    flushed :
        {c : Outgoing W} {given : Bytes} (fuel : ℕ)
        → Sends start c given
        → Sends start (flush_outbound io fuel c).1 given

  module _ (wire : Wire io) where
    -- What `enqueue` leaves: the bytes are at the end of the queue, or nothing has changed.
    abbrev Queued : Bytes → Outgoing W → Result (Unit {0}) × Outgoing W → Type 0
    Queued bytes c (ok u, d) = carried io wire d ≡ carried io wire c ++ bytes
    Queued bytes c (err e, d) = d ≡ c

    sized-Queued :
        (frame : OutboundFrame) (c : Outgoing W)
        → frame.offset ≡ 0
        → Queued frame.bytes c
            (enqueue_sized frame (checked_add c.outbound_bytes (length frame.bytes)) c)
    unfolding unsent
    sized-Queued frame c new =
        let next = c.outbound_bytes + length frame.bytes in
        let log = wire.logs.log c.stream in
        elim (Bool-cases (ltb next usize_mod)) [
          | inl fits ↦ elim (Bool-cases (ltb c.max_outbound_queue_bytes next)) [
            | inl much ↦ rw (fits, much) refl
            | inr room ↦
                rw (fits, room)
                  (ap (λ l. log ++ l) (unsent-append c.outbound (frame ∷ []))
                    ∙ sym
                        (append_assoc log (unsent c.outbound) (drop frame.offset frame.bytes ++ []))
                    ∙ ap (λ n. (log ++ unsent c.outbound) ++ (drop n frame.bytes ++ [])) new
                    ∙ ap (λ l. (log ++ unsent c.outbound) ++ l) (append-nil frame.bytes))
          ]
          | inr over ↦ rw over refl
        ]

    enqueue-Queued :
        (bytes : Bytes) (action : WrittenAction) (correlation : Option Bytes) (c : Outgoing W)
        → Queued bytes c (enqueue bytes action correlation c)
    unfolding enqueue
    enqueue-Queued bytes action correlation c =
        elim (Bool-cases (ltb c.peer_max_packet_size (length bytes))) [
          | inl large ↦ rw large refl
          | inr small ↦ rw small (sized-Queued _ c refl)
        ]

    when_accepted :
        (bytes : Bytes) (c : Outgoing W) (o : Result (Unit {0}) × Outgoing W)
        → Queued bytes c o
        → o.0 ≡ ok tt
        → carried io wire o.1 ≡ carried io wire c ++ bytes
    when_accepted bytes c (ok u, d) q h = q
    when_accepted bytes c (err e, d) q h = cc

    when_refused :
        (bytes : Bytes) (c : Outgoing W) (o : Result (Unit {0}) × Outgoing W) (e : Error)
        → Queued bytes c o
        → o.0 ≡ err e
        → carried io wire o.1 ≡ carried io wire c
    when_refused bytes c (ok u, d) e q h = cc
    when_refused bytes c (err why, d) e q h = ap (carried io wire) q

    carried-Sends :
        (start c : Outgoing W) (given : Bytes)
        → Sends start c given
        → carried io wire c ≡ carried io wire start ++ given
    carried-Sends start _ _ begin = sym (append-nil _)
    carried-Sends start _ _ (accepted {c} {given} bytes action correlation s h) =
        when_accepted bytes c _ (enqueue-Queued bytes action correlation c) h
        ∙ ap (λ l. l ++ bytes) (carried-Sends start c given s)
        ∙ append_assoc (carried io wire start) given bytes
    carried-Sends start _ _ (refused {c} {given} bytes action correlation e s h) =
        when_refused bytes c _ e (enqueue-Queued bytes action correlation c) h
        ∙ carried-Sends start c given s
    carried-Sends start _ _ (flushed {c} {given} fuel s) =
        carried-flush_outbound io wire fuel c ∙ carried-Sends start c given s

    -- Over a transport that keeps the contract of `write`, after any calls of `enqueue` and of
    -- `flush_outbound` from an empty queue, what was handed over, followed by what is still queued,
    -- is exactly the accepted packets in their order: none is lost, repeated, cut or overtaken.
    pub handed-Sends :
        (start c : Outgoing W) (given : Bytes)
        → start.outbound ≡ []
        → Sends start c given
        → wire.logs.log c.stream ++ unsent c.outbound ≡ wire.logs.log start.stream ++ given
    unfolding unsent
    handed-Sends start c given empty s =
        carried-Sends start c given s
        ∙ ap (λ frames. (wire.logs.log start.stream ++ unsent frames) ++ given) empty
        ∙ ap (λ l. l ++ given) (append-nil (wire.logs.log start.stream))
