-- ===== src/Lib.antt =====
-- A verification library for mqtt-wasi, an MQTT v5 client in Rust.
--
-- The program. The codec (src/codec/) turns packets into bytes and back: types.rs, encode.rs and
-- decode.rs are its ground, properties.rs and topic.rs its shared parts, connect.rs, publish.rs,
-- subscribe.rs and ping.rs its packets, and mod.rs dispatches on the packet type. The frame reader
-- (src/frame.rs) cuts a byte stream into packets and calls the codec. The blocking client
-- (src/client.rs) pushes what it receives into a frame reader, writes what the encoders return,
-- and waits for acknowledgements; src/async_client.rs does the same without blocking.
-- src/options.rs holds their options, src/transport.rs the byte stream that they use, and
-- src/trace.rs puts a trace context into the properties of a message.
--
-- The files. Errors models src/error.rs. Codec/Types and Codec/Packets model src/codec/types.rs;
-- Codec/Words and Codec/Utf8 are the machine integers and the UTF-8 check that the codec takes
-- from Rust. Codec/Cursor models `Cursor` of src/codec/decode.rs, Codec/Encode the writers of
-- src/codec/encode.rs, Codec/FixedHeader the fixed header of both, Codec/Topic src/codec/topic.rs.
-- Codec/Properties and its children Validate, Encode and Decode model src/codec/properties.rs.
-- Codec/Connect, Codec/Publish, Codec/Subscribe and Codec/Ping, each with Encode and Decode, model
-- the files of these names, Codec/Connect/Capabilities the checks of src/codec/connect.rs against
-- the broker, and Codec/Packet src/codec/mod.rs. Frame models src/frame.rs, Options
-- src/options.rs, Trace src/trace.rs, and Transport the default method of the trait in
-- src/transport.rs, whose other methods, with the clock, are the record Io. Client models
-- src/client.rs: Client/State its data, Client/Action what a method is, Client/Sending what is
-- written and queued, Client/Reading the timers and the loop that reads a packet, Client/Waiting
-- the waits for acknowledgements, Client/Operations the public operations and the iterator, and
-- Client/Connecting the sockets and the handshake. The other children hold proofs and what they
-- need: Cursor/Views, Cursor/Safe and Cursor/Yields three views of a read, VariableInt and Strings
-- the formats of values, Properties/Format and Properties/Section the format of properties,
-- Packet/Frames what a packet is on the wire, Frame/Stream the use of a reader that its
-- documentation asks for. Client/Evolves with Client/Kept, and Client/Triple with Client/Settled
-- and Client/Ending, are two ways to reason about methods: from the client before to the client
-- after, and from a condition to what an outcome satisfies. Client/Connected, Client/Identifiers
-- and Client/Acknowledged build on them. Driver models parts of src/async_client.rs:
-- Driver/Pending the operations that wait for an acknowledgement and the choice of packet
-- identifiers, Driver/Lifecycle the life cycle of requests, and Driver/Outbound the queue of
-- packets that go out and how it is written; Driver/Reserved, Driver/Tombstones,
-- Driver/LifecycleInvariant, Driver/Accounted, Driver/Wire, Driver/Sends and Driver/Drained hold
-- proofs on them. Tests holds the theorems at concrete inputs.
--
-- The correspondence. A `Vec<u8>`, a `&[u8]` and the bytes of a `String` are lists of numbers. A
-- `&mut` argument is passed in and returned: a writer returns its buffer, a read its cursor, and a
-- method of `FrameReader` the reader that it leaves, also where it fails. A `Result` is a
-- `Result`, `?` is the bind of a do block. A method of the client takes the client and gives a
-- result and the client that it leaves, on an error too. The transport and the clock are functions
-- on a world W, which is a parameter and stands in the client's field `stream`; an instant and a
-- duration are nanoseconds, and of an io::Error the kind is kept. Casts and fixed-width arithmetic
-- carry their wrap-around. usize is 64 bits wide, as on the native targets.
--
-- Bounds and fuel. The loop of `read_variable_int` has four rounds of fuel, since its fourth round
-- refuses a further byte; that of `encode_variable_int` has five, the groups of a u32; the loop
-- over properties has one round more than the declared length, since each round takes a byte. The
-- loops of the client, of `write_all` and of `flush_outbound` take the fuel as an argument, since
-- they run as long as the peer wants. The error `out_of_fuel` is no error of the source. Theorems
-- on whole packets ask for frames of fewer than 2 ^ 32 bytes, since the encoders cast the length
-- of the body to u32.
--
-- Not modelled: the rest of the async driver and the request helper (src/async_client.rs,
-- src/request_response.rs), which build on what is here; the sockets of std::net, which are
-- parameters, and TLS (src/tls.rs), which is a third-party library and I/O through it; the getters
-- of the options and the formatting of errors and options.
pub mod Prelude
pub mod Errors
pub mod Codec
pub mod Frame
pub mod Io
pub mod Transport
pub mod Options
pub mod Trace
pub mod Client
pub mod Driver
pub mod Tests
