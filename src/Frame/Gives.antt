-- ===== src/Frame/Gives.antt =====
-- src/frame.rs: what every packet of the decoder satisfies, every packet of `try_decode` does.
use mqtt_wasi.Prelude.{
  ℕ, ◌≡◌, refl, Option, none, some, Bool, true, false, if◌then◌else◌, ltb, is_empty, length,
}
use mqtt_wasi.Errors.{Result, ok, err}
use mqtt_wasi.Codec.Words.{Bytes}
use mqtt_wasi.Codec.Types.{FixedHeader}
use mqtt_wasi.Codec.Packets.{Packet}
use mqtt_wasi.Codec.Packet.{decode_packet}
use mqtt_wasi.Frame.{
  FrameState, reading_header, reading_body, FrameReader, is_end_of_data, decode_reading_body,
  enter_reading_body, decode_reading_header, decode_state, unless_overflowed, try_decode,
}

module _ (P : Packet → Type 0) where
  abbrev pub Gives : Result (Option Packet) × FrameReader → Type 0
  Gives (ok (some packet), reader) = P packet
  Gives (ok none, reader) = Unit {0}
  Gives (err e, reader) = Unit {0}

  Gives-if :
      (b : Bool) (s t : Result (Option Packet) × FrameReader)
      → Gives s
      → Gives t
      → Gives (if b then s else t)
  Gives-if true s t p q = p
  Gives-if false s t p q = q

  module _
      (decoded : (h : FixedHeader) (b : Bytes) (p : Packet) → decode_packet h b ≡ ok p → P p) where
    on_result :
        (r : Result Packet) (reader reader' : FrameReader)
        → ((p : Packet) → r ≡ ok p → P p)
        → Gives (elim r [ err e ↦ (err e, reader) | ok packet ↦ (ok (some packet), reader') ])
    on_result (err e) reader reader' h = tt
    on_result (ok packet) reader reader' h = h packet refl

    body-Gives :
        (header : FixedHeader) (header_len total_len : ℕ) (reader : FrameReader)
        → Gives (decode_reading_body header header_len total_len reader)
    unfolding decode_reading_body
    body-Gives header header_len total_len reader =
        Gives-if (ltb (length reader.buf) total_len) _ _ tt (on_result _ _ _ (decoded header _))

    enter-Gives :
        (header : FixedHeader) (header_len : ℕ) (total : Option ℕ) (reader : FrameReader)
        → Gives (enter_reading_body header header_len total reader)
    unfolding enter_reading_body
    enter-Gives header header_len none reader = tt
    enter-Gives header header_len (some total) reader =
        Gives-if (ltb reader.max_packet_size total) _ _ tt (body-Gives header header_len total _)

    header-Gives :
        (r : Result (FixedHeader × ℕ)) (reader : FrameReader)
        → Gives (decode_reading_header r reader)
    unfolding decode_reading_header
    header-Gives (ok (header, header_len)) reader = enter-Gives header header_len _ reader
    header-Gives (err e) reader = Gives-if (is_end_of_data e) _ _ tt tt

    state-Gives : (state : FrameState) (reader : FrameReader) → Gives (decode_state state reader)
    unfolding decode_state
    state-Gives reading_header reader =
        Gives-if (is_empty reader.buf) _ _ tt (header-Gives _ reader)
    state-Gives (reading_body header header_len total_len) reader =
        body-Gives header header_len total_len reader

    overflow-Gives :
        (size : Option ℕ) (reader : FrameReader) → Gives (unless_overflowed size reader)
    overflow-Gives none reader = state-Gives reader.state reader
    overflow-Gives (some size) reader = tt

    pub try_decode-Gives : (reader : FrameReader) → Gives (try_decode reader)
    unfolding try_decode
    try_decode-Gives reader = overflow-Gives reader.overflow_size reader
