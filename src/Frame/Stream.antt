-- ===== src/Frame/Stream.antt =====
-- src/frame.rs: a byte stream that arrives in chunks. A caller pushes each chunk and calls
-- `try_decode` until it gives no packet, as the comment of `FrameReader` asks for.
use mqtt_wasi.Prelude.{ℕ, zero, suc, ◌≤◌, Option, none, some, List, [], ◌∷◌, ◌++◌, length, All}
use mqtt_wasi.Errors.{Result, ok, err, ◌>>=◌, out_of_fuel}
use mqtt_wasi.Codec.Words.{Bytes}
use mqtt_wasi.Codec.Packets.{Packet}
use mqtt_wasi.Codec.Packet.Frames.{IsFrame}
use mqtt_wasi.Frame.{FrameReader, push, remaining_capacity, try_decode}

-- `try_decode` until it gives no packet; `rest` is what the calls after a packet give.
abbrev with_packet :
    Packet → Result (List Packet) × FrameReader → Result (List Packet) × FrameReader
with_packet packet (result, reader) = ((result >>= λ packets. ok (packet ∷ packets)), reader)

abbrev next_call :
    (FrameReader → Result (List Packet) × FrameReader)
    → Result (Option Packet) × FrameReader
    → Result (List Packet) × FrameReader
next_call again (ok (some packet), reader) = with_packet packet (again reader)
next_call again (ok none, reader) = (ok [], reader)
next_call again (err e, reader) = (err e, reader)

-- Every packet takes a byte at least, so that one call more than there are bytes is enough.
unfoldable pub drain : ℕ → FrameReader → Result (List Packet) × FrameReader
drain zero reader = (err out_of_fuel, reader)
drain (suc fuel) reader = next_call (drain fuel) (try_decode reader)

unfoldable pub receive : Bytes → FrameReader → Result (List Packet) × FrameReader
receive chunk reader = let pushed = push chunk reader in drain (suc (length pushed.buf)) pushed

unfoldable pub feed : List Bytes → FrameReader → Result (List Packet)
feed [] reader = ok []
feed (chunk ∷ chunks) reader = (receive chunk reader).0 >>= λ packets.
    feed chunks (receive chunk reader).1 >>= λ later. ok (packets ++ later)

-- No chunk is larger than `remaining_capacity` at the time that it is pushed.
unfoldable pub FitsCapacity : List Bytes → FrameReader → Type 0
FitsCapacity [] reader = Unit
FitsCapacity (chunk ∷ chunks) reader =
    (length chunk ≤ remaining_capacity reader) × FitsCapacity chunks (receive chunk reader).1

abbrev pub join : List Bytes → Bytes
join [] = []
join (bytes ∷ rest) = bytes ++ join rest

-- A packet and its bytes.
pub record Sent : Type 0 where
  pub frame : Bytes
  pub packet : Packet
  pub whole : IsFrame frame packet

abbrev pub stream : List Sent → Bytes
stream [] = []
stream (sent ∷ rest) = sent.frame ++ stream rest

abbrev pub packets_of : List Sent → List Packet
packets_of [] = []
packets_of (sent ∷ rest) = sent.packet ∷ packets_of rest

abbrev pub FitMax : ℕ → List Sent → Type 0
FitMax max = All (λ sent. length sent.frame ≤ max)
