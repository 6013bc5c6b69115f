-- ===== src/Frame/Reading.antt =====
-- src/frame.rs: one call of `try_decode` on a frame that is whole, and on one that is not.
use mqtt_wasi.Prelude.{
  ℕ, ◌+◌, ◌-◌, ◌≤◌, ◌<◌, ◌≡◌, refl, sym, ap, ◌∙◌, ◌⊎◌, inl, inr, none, some, [], ◌∷◌, ◌++◌,
  append_assoc, append-cut, arith, lt→ltb, le→ltb, length, take, drop, length-append, drop-append,
  take-append, is_empty, false,
}
use mqtt_wasi.Errors.{ok, err}
use mqtt_wasi.Codec.Words.{Bytes, usize_mod}
use mqtt_wasi.Codec.Types.{FixedHeader}
use mqtt_wasi.Codec.FixedHeader.{decode_fixed_header}
use mqtt_wasi.Codec.FixedHeader.RoundTrip.{
  header_bytes, decode_fixed_header_lem, decode_fixed_header-short,
}
use mqtt_wasi.Codec.VariableInt.Short.{end_of_data}
use mqtt_wasi.Codec.Packets.{Packet}
use mqtt_wasi.Codec.Packet.Frames.{IsFrame}
use mqtt_wasi.Frame.{
  FrameState, reading_header, reading_body, FrameReader, decode_reading_body, enter_reading_body,
  decode_reading_header, decode_state, try_decode,
}

-- A reader that has not overflowed.
abbrev pub reader_at : FrameState → Bytes → ℕ → FrameReader
reader_at state buf max = record {
  buf = buf;
  state = state;
  max_packet_size = max;
  overflow_size = none;
}

-- What `state` may be while `frame` is being read: nothing of it, or its header, is decoded.
abbrev pub IsAwaiting :
    (frame : Bytes) (packet : Packet) → IsFrame frame packet → FrameState → Type 0
IsAwaiting frame packet f state =
    (state ≡ reading_header)
    ⊎ (state ≡ reading_body f.head (length (header_bytes f.head)) (length frame))

pub header_bytes-pos : (h : FixedHeader) → 0 < length (header_bytes h)
unfolding header_bytes
header_bytes-pos h = omega arith

not_empty : (bytes : Bytes) → 0 < length bytes → is_empty bytes ≡ false
not_empty [] h = absurd (omega arith)
not_empty (b ∷ bytes) h = refl

module _ (frame : Bytes) (packet : Packet) (f : IsFrame frame packet) where
  pub frame_len : length frame ≡ length (header_bytes f.head) + length f.body
  frame_len = ap length f.split ∙ length-append (header_bytes f.head) f.body

  body_part :
      (rest : Bytes)
      → take
          (length frame - length (header_bytes f.head))
          (drop (length (header_bytes f.head)) (frame ++ rest))
        ≡ f.body
  body_part rest =
      let hb = header_bytes f.head in
      let e : frame ++ rest ≡ hb ++ (f.body ++ rest) =
        ap (λ b. b ++ rest) f.split ∙ append_assoc hb f.body rest in
      let n : length frame - length hb ≡ length f.body = omega (arith, frame_len) in
      rw (n, e, drop-append hb (f.body ++ rest), take-append f.body rest)

  module _ (max : ℕ) (fits : length frame ≤ max) (small : length frame < usize_mod) where
    body_whole :
        (rest : Bytes) (state : FrameState)
        → decode_reading_body f.head
            (length (header_bytes f.head))
            (length frame)
            (reader_at state (frame ++ rest) max)
          ≡ (ok (some packet), reader_at reading_header rest max)
    unfolding decode_reading_body
    body_whole rest state = rw (
      le→ltb (length (frame ++ rest)) (length frame) (omega (arith, length-append frame rest)),
      body_part rest,
      f.body_read,
      drop-append frame rest,
    )

    header_done :
        (buf : Bytes)
        → 0 < length buf
        → decode_fixed_header buf ≡ ok (f.head, length (header_bytes f.head))
        → try_decode (reader_at reading_header buf max)
          ≡ decode_reading_body f.head (length (header_bytes f.head)) (length frame) (
              reader_at (reading_body f.head (length (header_bytes f.head)) (length frame)) buf max)
    unfolding try_decode decode_state decode_reading_header enter_reading_body
    header_done buf pos e =
        let total : length (header_bytes f.head) + f.head.remaining_length ≡ length frame =
          omega (arith, frame_len, f.counted) in
        rw (
          not_empty buf pos,
          e,
          total,
          lt→ltb (length frame) usize_mod small,
          le→ltb max (length frame) fits,
        )

    -- A buffer that begins with a whole frame, which is within the reader's bound and shorter than
    -- 2 ^ 64 bytes, gives its packet and keeps what follows it, whether the header was decoded by
    -- an earlier call or is decoded by this one.
    pub try_decode-whole :
        (state : FrameState) (rest : Bytes)
        → IsAwaiting frame packet f state
        → try_decode (reader_at state (frame ++ rest) max)
          ≡ (ok (some packet), reader_at reading_header rest max)
    try_decode-whole state rest (inl e) =
        let n = length-append frame rest in
        rw e (
          header_done (frame ++ rest) (omega (arith, n, frame_len, header_bytes-pos f.head))
            (f.header_read rest)
          ∙ body_whole rest _)
    try_decode-whole state rest (inr e) = unfold try_decode decode_state in rw e (body_whole rest _)

    body_part_only :
        (state : FrameState) (p : Bytes)
        → length p < length frame
        → decode_reading_body f.head
            (length (header_bytes f.head))
            (length frame)
            (reader_at state p max)
          ≡ (ok none, reader_at state p max)
    unfolding decode_reading_body
    body_part_only state p h = rw (lt→ltb (length p) (length frame) h)

    header_waits :
        (buf : Bytes)
        → decode_fixed_header buf ≡ err end_of_data
        → try_decode (reader_at reading_header buf max)
          ≡ (ok none, reader_at reading_header buf max)
    unfolding try_decode decode_state decode_reading_header
    header_waits [] e = refl
    header_waits (b ∷ buf) e = rw e

    -- The call on a part of the frame: what it leaves.
    Waits : FrameState → Bytes → Type 0
    Waits state p =
        (state' : FrameState) × (try_decode (reader_at state p max)
          ≡ (ok none, reader_at state' p max))
        × IsAwaiting frame packet f state'

    behind_header :
        (p r : Bytes)
        → p ≡ header_bytes f.head ++ r
        → length p < length frame
        → Waits reading_header p
    unfolding Waits
    behind_header p r e h =
        let n = ap length e ∙ length-append (header_bytes f.head) r in
        let read = ap decode_fixed_header e ∙ decode_fixed_header_lem f.head r f.expressible in
        (
          _,
          header_done p (omega (arith, header_bytes-pos f.head)) read ∙ body_part_only _ p h,
          inr refl,
        )

    from_header : (p : Bytes) (z : ℕ) (zs : Bytes) → frame ≡ p ++ z ∷ zs → Waits reading_header p
    unfolding Waits
    from_header [] z zs e = (reading_header, unfold try_decode decode_state in refl, inl refl)
    from_header (b ∷ p) z zs e =
        let n = ap length e ∙ length-append (b ∷ p) (z ∷ zs) in
        elim (append-cut (b ∷ p) (z ∷ zs) (header_bytes f.head) f.body (sym e ∙ f.split)) [
          | inl (y, ys, short) ↦ (
            reading_header,
            header_waits (b ∷ p) (decode_fixed_header-short f.head b p y ys f.expressible short),
            inl refl,
          )
          | inr (r, long) ↦ behind_header (b ∷ p) r long (omega arith)
        ]

    -- A buffer that is a part of such a frame, short of a byte at least, gives no packet and no
    -- error, stays as it is, and the reader goes on waiting for the frame.
    pub try_decode-part :
        (state : FrameState) (p : Bytes) (z : ℕ) (zs : Bytes)
        → IsAwaiting frame packet f state
        → frame ≡ p ++ z ∷ zs
        → (state' : FrameState) × (try_decode (reader_at state p max)
            ≡ (ok none, reader_at state' p max))
          × IsAwaiting frame packet f state'
    unfolding Waits
    try_decode-part state p z zs (inl a) e = rw a (from_header p z zs e)
    try_decode-part state p z zs (inr a) e =
        let n = ap length e ∙ length-append p (z ∷ zs) in
        (state, unfold try_decode decode_state in rw a (body_part_only _ p (omega arith)), inr a)
