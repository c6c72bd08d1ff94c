-- ===== src/Lib.antt =====
-- polkadot-p2p-connect: a connection between two peers, from the bytes of the transport to
-- requests and notifications.
--
-- A dialer agrees on noise with multistream-select, makes a noise handshake in which the remote
-- proves its peer id, and agrees on yamux over the encrypted transport. Yamux frames with a header
-- of twelve bytes carry the data of many streams. On each stream multistream-select agrees on a
-- protocol, with messages that are a varint length and that many bytes; afterwards the stream
-- carries messages of the same form. The connection on top sends requests, each on a stream of its
-- own, and has subscriptions with a stream in each direction.
--
-- The files and what they model:
-- - Varint: src/utils/varint.rs. encode walks the slice that it fills; decode gives the bytes it
--   has not read back with its result.
-- - Protobuf and Protobuf/Decode: src/utils/protobuf.rs, the encoder over a slice and decode over
--   a visitor.
-- - AsyncStream: the reader and the writer of src/utils/async_stream.rs, as interfaces.
-- - Dialer: src/layers/multistream.rs, the negotiation of a dialer over a whole transport.
-- - Peers: src/utils/peer_id.rs. Noise/Payload, Frames and Handshake: src/layers/noise.rs, that is
--   the handshake payload, the frames with the two streams of the session, and handshake_dialer.
-- - FrameBuffer: src/layers/yamux_multistream/frame_buffer.rs.
-- - Yamux/Header: src/layers/yamux/header.rs. Stream ids and flags are numbers with their bounds.
-- - Yamux/State, Api, Read, Next, Write: src/layers/yamux.rs. State has the records; Api the calls
--   that queue something (open_stream, send_data, close_stream, close_stream_immediately,
--   reset_stream_immediately, data); Read what read_next does with a frame, by frame type; Next
--   the reads of read_next and the function next; Write the future write_next.
-- - Yamux/Steps: how these interleave. read_next and write_next are two futures over one shared
--   state that is never borrowed across an await, so what one of them does between two awaits is
--   one step, and the calls come in between. The steps are a relation on sessions, and the
--   reachable sessions are those that a new one leads to.
-- - Multistreams and Multistreams/Next: src/layers/yamux_multistream.rs, its calls and next_inner.
-- - Timers: src/utils/timers.rs. A poll that finds a sleep not over says whether a waker is called
--   before poll_next is stored. Timers/Wakeups has the sleeps and their wakers as the environment,
--   where a sleep can also end inside of a call.
-- - Protocol: src/protocol.rs, src/configuration.rs and src/utils/opaque_id.rs.
-- - Streams: the interface of the multistreams that a connection uses, and the law of fresh ids;
--   Streams/Multiplexed fills it with Multistreams.
-- - Connection, Connection/Calls, Turns, Requests, Notifications and Next: src/connection.rs.
--   Calls has the calls of the user, Next the loop of next_inner with the timeouts and the choice
--   of what an output of the streams belongs to, Requests and Notifications what is done with it.
--   Connection/History has the histories of calls.
-- - Grandpa: warp-sync/src/grandpa.rs and substrate.rs, the light client's finality state and how
--   a warp sync response updates it.
--
-- Numbers and bounds: a u64, a usize, a u32 or a byte is a natural number. usize has 64 bits.
-- Where the code can wrap or saturate, the model does: the shifts of the varint decoder and of a
-- protobuf tag, the counter of the opaque ids, saturating_add of the send window, the subtraction
-- of the receive window, the sums of the weights of authorities. Where it can panic (encode on a
-- short slice, a frame that is too long, stream ids that are used up) the result says so. A
-- BTreeMap is an association list that is kept in the order of its keys.
--
-- Fuel: the loops of read_next and next_inner wait for the transport, so they run on a number of
-- rounds, and running out is a result of its own, from which the loop can go on. The loop of a
-- connection takes the timeouts that are over in each of its rounds as a list, which is its fuel.
-- A varint read from a stream has at most ten bytes and gets eleven rounds, the loop of the
-- protobuf decoder gets as many rounds as there are bytes, and read_exact of a noise stream runs
-- on rounds; theorems show that these are enough. The gathering loop of write_next runs on rounds
-- too, and a theorem gives a number that is enough. The loop that collects an ancestry gets a pass
-- more than there are headers, which a theorem shows to be enough. All other loops are structural.
--
-- Parameters: the reader of the transport (with what read_exact documents) and its writer, the two
-- slices of a VecDeque (a layout, of which only their concatenation is known), String::from_utf8
-- (which bytes it accepts), the packages snow, ed25519_dalek, bs58, parity_scale_codec and blake2,
-- and the sleeps of the platform. What is assumed of snow is that its two transport states, when
-- one has decrypted all that the other has encrypted, decrypt the next message to what was
-- encrypted, and that a message of 65519 bytes fits a frame; of bs58, that it decodes what it
-- encoded.
--
-- Not modelled: the order of the negotiations in from_stream and their timeouts, the polling glue,
-- the rest of the warp-sync tool and the examples. Wakers of the session are a flag that says
-- whether one is stored. Writing to the transport of a session and its failures are not part of
-- its state; the write steps give the bytes. A stream of the noise layer is not used again after a
-- failure, so a failure carries no state.
pub mod Prelude
pub mod Varint
pub mod Protobuf
pub mod AsyncStream
pub mod Dialer
pub mod Peers
pub mod Noise
pub mod FrameBuffer
pub mod Yamux
pub mod Multistreams
pub mod Timers
pub mod Protocol
pub mod Streams
pub mod Connection
pub mod Grandpa
pub mod Examples
