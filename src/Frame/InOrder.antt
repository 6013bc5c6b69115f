-- ===== src/Frame/InOrder.antt =====
-- src/frame.rs: the packets that come out of a stream of frames that was cut into chunks.
use mqtt_wasi.Prelude.{
  ℕ, zero, suc, ◌≤◌, ◌<◌, ◌≡◌, refl, sym, ap, ◌∙◌, inl, inr, none, some, List, [], ◌∷◌, ◌++◌,
  append_assoc, append-nil, append-cut, append_cancel, arith, le→ltb, length, length-append,
}
use mqtt_wasi.Errors.{Result, ok}
use mqtt_wasi.Codec.Words.{Bytes, usize_mod}
use mqtt_wasi.Codec.Packets.{Packet}
use mqtt_wasi.Frame.{
  FrameState, reading_header, FrameReader, with_max_packet_size, push, remaining_capacity,
  try_decode, decode_state,
}
use mqtt_wasi.Frame.Reading.{
  reader_at, IsAwaiting, try_decode-whole, try_decode-part, frame_len, header_bytes-pos,
}
use mqtt_wasi.Frame.Stream.{
  drain, receive, feed, FitsCapacity, join, Sent, stream, packets_of, FitMax,
}

abbrev IsNext : List Sent → FrameState → Type 0
IsNext [] state = state ≡ reading_header
IsNext (sent ∷ rest) state = IsAwaiting sent.frame sent.packet sent.whole state

-- Between two chunks: the buffer is a part of the next frame.
abbrev IsBetween : List Sent → FrameState → Bytes → Type 0
IsBetween [] state buf = (state ≡ reading_header) × (buf ≡ [])
IsBetween (sent ∷ rest) state buf =
    IsAwaiting sent.frame sent.packet sent.whole state
    × ((z : ℕ) × (zs : Bytes) × (sent.frame ≡ buf ++ z ∷ zs))

IsNext-start : (sent : List Sent) → IsNext sent reading_header
IsNext-start [] = refl
IsNext-start (s ∷ rest) = inl refl

IsBetween-IsNext :
    (sent : List Sent) (state : FrameState) (buf : Bytes)
    → IsBetween sent state buf
    → IsNext sent state
IsBetween-IsNext [] state buf b = b.0
IsBetween-IsNext (s ∷ rest) state buf b = b.0

frame_pos : (sent : Sent) → 0 < length sent.frame
frame_pos sent =
    omega (arith, frame_len sent.frame sent.packet sent.whole, header_bytes-pos sent.whole.head)

-- What the calls behind one chunk give, where `future` has not arrived.
record Drained (max : ℕ) (future : Bytes) (sent : List Sent)
    (r : Result (List Packet) × FrameReader) : Type 0 where
  left : List Sent
  got : List Packet
  state : FrameState
  buf : Bytes
  result : r ≡ (ok got, reader_at state buf max)
  parted : packets_of sent ≡ got ++ packets_of left
  fit : FitMax max left
  kept : buf ++ future ≡ stream left
  between : IsBetween left state buf

-- A call that gave no packet ends the calls.
Drained-waiting :
    (max : ℕ) (future : Bytes) (s : Sent) (sent : List Sent) (fuel : ℕ) (state state' : FrameState)
    (buf : Bytes) (z : ℕ) (zs : Bytes)
    → FitMax max (s ∷ sent)
    → buf ++ future ≡ stream (s ∷ sent)
    → s.frame ≡ buf ++ z ∷ zs
    → try_decode (reader_at state buf max) ≡ (ok none, reader_at state' buf max)
    → IsAwaiting s.frame s.packet s.whole state'
    → Drained max future (s ∷ sent) (drain (suc fuel) (reader_at state buf max))
unfolding drain
Drained-waiting max future s sent fuel state state' buf z zs fit e cut call a = record {
  left = s ∷ sent;
  got = [];
  state = state';
  buf = buf;
  result = rw call;
  parted = refl;
  fit = fit;
  kept = e;
  between = (a, (z, zs, cut));
}

-- A call that gave a packet, before the others.
Drained-packet :
    (max : ℕ) (future : Bytes) (s : Sent) (sent : List Sent) (fuel : ℕ)
    (reader reader' : FrameReader)
    → try_decode reader ≡ (ok (some s.packet), reader')
    → Drained max future sent (drain fuel reader')
    → Drained max future (s ∷ sent) (drain (suc fuel) reader)
unfolding drain
Drained-packet max future s sent fuel reader reader' call d = record {
  left = d.left;
  got = s.packet ∷ d.got;
  state = d.state;
  buf = d.buf;
  result = rw (call, d.result);
  parted = ap (λ packets. s.packet ∷ packets) d.parted;
  fit = d.fit;
  kept = d.kept;
  between = d.between;
}

module _ (max : ℕ) (small : max < usize_mod) (future : Bytes) where
  drain-Drained :
      (sent : List Sent) (fuel : ℕ) (state : FrameState) (buf : Bytes)
      → FitMax max sent
      → IsNext sent state
      → buf ++ future ≡ stream sent
      → length buf < fuel
      → Drained max future sent (drain fuel (reader_at state buf max))
  drain-Drained sent zero state buf fit next e h = absurd (omega arith)
  drain-Drained [] (suc fuel) state [] fit next e h = record {
    left = [];
    got = [];
    state = reading_header;
    buf = [];
    result = unfold drain try_decode decode_state in rw next;
    parted = refl;
    fit = tt;
    kept = e;
    between = (refl, refl);
  }
  drain-Drained [] (suc fuel) state (b ∷ buf) fit next e h = cc
  drain-Drained (s ∷ sent) (suc fuel) state buf (fit, fits) next e h =
      let frame_small : length s.frame < usize_mod = omega arith in
      elim (append-cut buf future s.frame (stream sent) e) [
        | inl (z, zs, cut) ↦
            let (state', call, a) =
              try_decode-part s.frame s.packet s.whole max fit frame_small state buf z zs next
                cut in
            Drained-waiting max future s sent fuel state state' buf z zs (fit, fits) e cut call a
        | inr (r, more) ↦
            let n = ap length more ∙ length-append s.frame r in
            let e' = ap (λ b. b ++ future) (sym more) ∙ e in
            let kept : r ++ future ≡ stream sent =
              append_cancel s.frame (r ++ future) (stream sent)
                (sym (append_assoc s.frame r future) ∙ e') in
            let call =
              ap (λ b. try_decode (reader_at state b max)) more
              ∙ try_decode-whole s.frame s.packet s.whole max fit frame_small state r next in
            Drained-packet max future s sent fuel _ (reader_at reading_header r max) call (
              drain-Drained sent fuel reading_header r fits (IsNext-start sent) kept
                (omega (arith, frame_pos s)))
      ]

push_lem :
    (chunk : Bytes) (reader : FrameReader)
    → length chunk ≤ remaining_capacity reader
    → push chunk reader ≡ record reader { buf = reader.buf ++ chunk }
unfolding push remaining_capacity
push_lem chunk reader h = rw (le→ltb _ (length chunk) h)

receive-Drained :
    (max : ℕ) (sent : List Sent) (state : FrameState) (buf chunk future : Bytes)
    → max < usize_mod
    → FitMax max sent
    → IsBetween sent state buf
    → buf ++ (chunk ++ future) ≡ stream sent
    → length chunk ≤ remaining_capacity (reader_at state buf max)
    → Drained max future sent (receive chunk (reader_at state buf max))
unfolding receive
receive-Drained max sent state buf chunk future small fit between e room =
    rw (push_lem chunk (reader_at state buf max) room) (
      drain-Drained max small future sent (suc (length (buf ++ chunk))) state (buf ++ chunk) fit
        (IsBetween-IsNext sent state buf between) (append_assoc buf chunk future ∙ e) (omega arith))

-- When the stream is at its end, nothing is left to be read.
nothing_left :
    (sent : List Sent) (state : FrameState) (buf : Bytes)
    → IsBetween sent state buf
    → buf ++ [] ≡ stream sent
    → packets_of sent ≡ []
nothing_left [] state buf b e = refl
nothing_left (s ∷ sent) state buf (a, (z, zs, cut)) e =
    let n₁ = ap length cut ∙ length-append buf (z ∷ zs) in
    let n₂ = ap length (sym (append-nil buf) ∙ e) ∙ length-append s.frame (stream sent) in
    absurd (omega arith)

feed_lem :
    (max : ℕ) (chunks : List Bytes) (sent : List Sent) (state : FrameState) (buf : Bytes)
    → max < usize_mod
    → FitMax max sent
    → IsBetween sent state buf
    → buf ++ join chunks ≡ stream sent
    → FitsCapacity chunks (reader_at state buf max)
    → feed chunks (reader_at state buf max) ≡ ok (packets_of sent)
unfolding feed FitsCapacity
feed_lem max [] sent state buf small fit between e room =
    ap ok (sym (nothing_left sent state buf between e))
feed_lem max (chunk ∷ chunks) sent state buf small fit between e (room, rooms) =
    let d = receive-Drained max sent state buf chunk (join chunks) small fit between e room in
    let rooms' : FitsCapacity chunks (reader_at d.state d.buf max) = rw d.result at rooms in
    rw (d.result, feed_lem max chunks d.left d.state d.buf small d.fit d.between d.kept rooms')
      (ap ok (sym d.parted))

IsBetween-start : (sent : List Sent) → IsBetween sent reading_header []
IsBetween-start [] = (refl, refl)
IsBetween-start (s ∷ sent) = (inl refl, first s.frame (frame_pos s))
  where
    first : (frame : Bytes) → 0 < length frame → (z : ℕ) × (zs : Bytes) × (frame ≡ z ∷ zs)
    first [] h = absurd (omega arith)
    first (b ∷ bytes) h = (b, bytes, refl)

-- Whole frames of at most `max` bytes each, with `max` below 2 ^ 64, that arrive in any chunks,
-- each within the reader's remaining capacity at its time, are decoded to exactly their packets, in
-- order, and no call fails or runs out of fuel.
pub feed-in_order :
    (max : ℕ) (chunks : List Bytes) (sent : List Sent)
    → max < usize_mod
    → FitMax max sent
    → join chunks ≡ stream sent
    → FitsCapacity chunks (with_max_packet_size max)
    → feed chunks (with_max_packet_size max) ≡ ok (packets_of sent)
feed-in_order max chunks sent small fit e room =
    feed_lem max chunks sent reading_header [] small fit (IsBetween-start sent) e room
