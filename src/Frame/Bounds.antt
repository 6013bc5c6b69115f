-- ===== src/Frame/Bounds.antt =====
-- src/frame.rs: the bound on the reader's buffer, and the results of `try_decode`.
use mqtt_wasi.Prelude.{
  ℕ, ◌+◌, ◌-◌, ◌≤◌, ◌≡◌, refl, ap, ◌∙◌, inl, inr, Option, none, some, arith, ltb, ltb→le,
  Bool-cases, length, take, drop, length-append, length-take, length-drop, is_empty,
}
use mqtt_wasi.Errors.{Error, Result, ok, err, Ends, Ends-ok, Ends-malformed, Result-cases}
use mqtt_wasi.Codec.Words.{Bytes}
use mqtt_wasi.Codec.Types.{FixedHeader}
use mqtt_wasi.Codec.FixedHeader.Safe.{decode_fixed_header-Ends}
use mqtt_wasi.Codec.Packets.{Packet}
use mqtt_wasi.Codec.Packet.{decode_packet}
use mqtt_wasi.Codec.Packet.Safe.{decode_packet-Ends}
use mqtt_wasi.Frame.{
  FrameState, reading_header, reading_body, FrameReader, push, remaining_capacity, is_end_of_data,
  decode_reading_body, enter_reading_body, decode_reading_header, decode_state, unless_overflowed,
  try_decode,
}

abbrev DeclaresAtMost : FrameState → ℕ → Type 0
DeclaresAtMost reading_header max = Unit
DeclaresAtMost (reading_body header header_len total_len) max = total_len ≤ max

-- The buffer, and the packet that is being assembled, are within the configured bound.
pub record IsBounded (reader : FrameReader) : Type 0 where
  pub buffered : length reader.buf ≤ reader.max_packet_size
  pub declared : DeclaresAtMost reader.state reader.max_packet_size

capacity-le :
    (reader : FrameReader)
    → IsBounded reader
    → length reader.buf + remaining_capacity reader ≤ reader.max_packet_size
unfolding remaining_capacity
capacity-le reader b = go reader.state b.declared
  where
    go :
        (s : FrameState)
        → DeclaresAtMost s reader.max_packet_size
        → length reader.buf + remaining_capacity (record reader { state = s })
          ≤ reader.max_packet_size
    go reading_header d = let h = b.buffered in omega arith
    go (reading_body header header_len total_len) d = let h = b.buffered in omega arith

-- On a bounded reader `push` leaves a bounded reader, whatever the size of the chunk.
pub push-IsBounded :
    (chunk : Bytes) (reader : FrameReader) → IsBounded reader → IsBounded (push chunk reader)
unfolding push
push-IsBounded chunk reader b =
    let room = capacity-le reader b in
    let available = remaining_capacity reader in
    elim (Bool-cases (ltb available (length chunk))) [
      | inl more ↦ rw more (record {
        buffered =
            omega
              (arith, length-append reader.buf (take available chunk), length-take available chunk);
        declared = b.declared;
      })
      | inr fits ↦ rw fits (record {
        buffered =
            omega (arith, length-append reader.buf chunk, ltb→le available (length chunk) fits);
        declared = b.declared;
      })
    ]

-- What a step leaves: a bounded reader and a result of the source.
record IsFine (max : ℕ) (step : Result (Option Packet) × FrameReader) : Type 0 where
  bounded : IsBounded step.1
  same_max : step.1.max_packet_size ≡ max
  ending : Ends step.0

waits : (reader : FrameReader) → IsBounded reader → IsFine reader.max_packet_size (ok none, reader)
waits reader b = record { bounded = b; same_max = refl; ending = Ends-ok none }

fails :
    (e : Error) (reader : FrameReader)
    → IsBounded reader
    → Ends {A = Option Packet} (err e)
    → IsFine reader.max_packet_size (err e, reader)
fails e reader b n = record { bounded = b; same_max = refl; ending = n }

-- An error of a decoder that ends.
Ends-err : {A B : Type 0} (r : Result A) (e : Error) → r ≡ err e → Ends r → Ends {A = B} (err e)
Ends-err r e h n = record { ends = λ p. n.ends (h ∙ ap err (cc p)) }

drained :
    (total_len : ℕ) (packet : Packet) (reader : FrameReader)
    → IsBounded reader
    → IsFine reader.max_packet_size (
      ok (some packet),
      record reader { buf = drop total_len reader.buf; state = reading_header },
    )
drained total_len packet reader b = record {
  bounded = record {
    buffered = let h = b.buffered in omega (arith, length-drop total_len reader.buf);
    declared = tt;
  };
  same_max = refl;
  ending = Ends-ok (some packet);
}

body-IsFine :
    (header : FixedHeader) (header_len total_len : ℕ) (reader : FrameReader)
    → IsBounded reader
    → IsFine reader.max_packet_size (decode_reading_body header header_len total_len reader)
unfolding decode_reading_body
body-IsFine header header_len total_len reader b =
    let body = take (total_len - header_len) (drop header_len reader.buf) in
    elim (Bool-cases (ltb (length reader.buf) total_len)) [
      | inl short ↦ rw short (waits reader b)
      | inr whole ↦ elim (Result-cases (decode_packet header body)) [
        | inl (packet, e) ↦ rw (whole, e) (drained total_len packet reader b)
        | inr (why, e) ↦
            rw (whole, e) (fails why reader b (Ends-err _ why e (decode_packet-Ends header body)))
      ]
    ]

enter-IsFine :
    (header : FixedHeader) (header_len : ℕ) (total : Option ℕ) (reader : FrameReader)
    → IsBounded reader
    → IsFine reader.max_packet_size (enter_reading_body header header_len total reader)
unfolding enter_reading_body
enter-IsFine header header_len none reader b = fails _ reader b (Ends-malformed _ _)
enter-IsFine header header_len (some total) reader b =
    elim (Bool-cases (ltb reader.max_packet_size total)) [
      | inl large ↦ rw large (fails _ reader b (record { ends = λ e. cc }))
      | inr fits ↦ rw fits (
          body-IsFine header header_len total
            (record reader { state = reading_body header header_len total })
            (record { buffered = b.buffered; declared = ltb→le _ _ fits }))
    ]

header-IsFine :
    (r : Result (FixedHeader × ℕ)) (reader : FrameReader)
    → Ends r
    → IsBounded reader
    → IsFine reader.max_packet_size (decode_reading_header r reader)
unfolding decode_reading_header
header-IsFine (ok (header, header_len)) reader n b = enter-IsFine header header_len _ reader b
header-IsFine (err e) reader n b = elim (Bool-cases (is_end_of_data e)) [
  | inl waiting ↦ rw waiting (waits reader b)
  | inr broken ↦ rw broken (fails e reader b (Ends-err (err e) e refl n))
]

state-IsFine :
    (state : FrameState) (reader : FrameReader)
    → IsBounded reader
    → IsFine reader.max_packet_size (decode_state state reader)
unfolding decode_state
state-IsFine reading_header reader b = elim (Bool-cases (is_empty reader.buf)) [
  | inl nothing ↦ rw nothing (waits reader b)
  | inr bytes ↦ rw bytes (header-IsFine _ reader (decode_fixed_header-Ends reader.buf) b)
]
state-IsFine (reading_body header header_len total_len) reader b =
    body-IsFine header header_len total_len reader b

overflow-IsFine :
    (size : Option ℕ) (reader : FrameReader)
    → IsBounded reader
    → IsFine reader.max_packet_size (unless_overflowed size reader)
overflow-IsFine none reader b = state-IsFine reader.state reader b
overflow-IsFine (some size) reader b = fails _ reader b (record { ends = λ e. cc })

-- On a bounded reader `try_decode` leaves a bounded reader with the same bound, whether it gives a
-- packet, waits or fails, and what it gives is a result of the source: no loop runs out of fuel.
pub try_decode-IsBounded :
    (reader : FrameReader)
    → IsBounded reader
    → IsBounded (try_decode reader).1
      × ((try_decode reader).1.max_packet_size ≡ reader.max_packet_size)
      × Ends (try_decode reader).0
unfolding try_decode
try_decode-IsBounded reader b =
    let f = overflow-IsFine reader.overflow_size reader b in (f.bounded, f.same_max, f.ending)
