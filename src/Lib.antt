-- ===== src/Lib.antt =====
-- Vakya is an HTTP/1.1 client and server over a completion-based runtime. This library models the
-- protocol core, which is given bytes and says what they mean or which bytes to write, and the
-- loops that move bodies between it, the application and the transport.
--
-- The parts, and how they meet:
-- - Syntax (src/proto/h1/syntax.rs): white space, tokens and quoted strings, which the heads and
--   the chunk lines are made of.
-- - Message (src/proto/h1.rs, src/error.rs): the enumerations that the parts share. An error is
--   its kind and detail; its text and source only serve diagnostics.
-- - Chunk (src/proto/h1/decode.rs): the free functions on one chunk line, `parse_chunk_line`, here
--   `parse_size_line`, and `validate_extensions`.
-- - Decode (src/proto/h1/decode.rs): `BodyDecoder`. Decode.Input has its state and the searches in
--   its input, Decode the method `decode` with the loop of `decode_chunked` unrolled: a chunk-end
--   arm leads to the size arm, the size arm to the chunk arm or the trailers, and those return, so
--   no round repeats. Decode.Grammar is what a body looks like on the wire, apart from the code.
-- - Body (src/body/size_hint.rs): `SizeHint`.
-- - Encode (src/proto/h1/encode.rs): `BoundedWriter`, and in Encode.Stream `BodyEncoder` with
--   `new`, `data` (here `data_frame`), `finish` and `chunk_prefix`. Encode.Frames drives it over
--   the frames of a body. Encode.Fields has `write_headers` and `trailers` (here `send_trailers`),
--   Encode.Plan the framing of a head that is sent, and Encode.Heads `prepare_request_head` and
--   `prepare_response_head`. Encode.Lines is what the fields look like on the wire, apart from
--   the writer.
-- - Http: the crate `http`, an interface that the definitions on heads take as a parameter: its
--   field map, targets and status classes.
-- - Head (src/proto/h1/head.rs, src/proto/h1/head/scan.rs, src/proto/h1/head/validate.rs):
--   `for_each_list_member` over an explicit state, in Head.Scan the search for the end of a head,
--   in Head.Framing and Head.Options the fields, in Head.Request and Head.Response `validate_for`
--   and `ResponseHead::validate`. The functions on one field take its values in order.
-- - Exchange (src/proto/h1/exchange.rs): `ExchangePolicy`, which validates the response heads of
--   an exchange and decides whether the connection is reused.
-- - Admission (src/client/admission.rs): who may hand the next request to a client connection.
--   Admission has the states, Admission.Sender the senders, reservations and permits,
--   Admission.Driver the receiver. Admission.World counts the live permits, reservations and
--   exchanges and lets each object act; a poll of `reserve` that fails drops its reservation.
--   A panic, a debug assertion included, is the value `none`. Wakers and jobs are any types.
-- - Pipe (src/body/pipe.rs): the rendezvous that hands the frames of a received body from the
--   connection to the application. Pipe and Pipe.Futures have the operations, the polls and the
--   drops; Pipe.World lets the two ends act, and Pipe.Spec is what a rendezvous promises.
-- - Io (src/io/send.rs, src/io/recv.rs, src/io/managed.rs): Io.Send has the loops that write
--   buffers completely, Io.Recv `RecvBuffer`, whose input the decoders read, with its portable
--   and its managed storage, and the leases of `IncomingData` (src/body/incoming.rs).
-- - BodyIo (src/proto/h1/body_io.rs): BodyIo.Receive is `receive_body_configured` over Io.Recv,
--   Decode and one end of a pipe, with the read policies of src/io/transport.rs; BodyIo.Transmit
--   is `send_body` over a producer, Encode and Io.Send.
-- - Client (src/proto/h1/client.rs): Client.Heads and Client.Response are `receive`, over Head.Scan,
--   Exchange, Io.Recv and BodyIo.Receive; Client.Settle is `finish_exchange` and which direction
--   `exchange_inner` cancels; Client.Run is `run` with the receipts of src/client/completion.rs.
--   A response that was received has no failed end, so that arm of `finish_exchange` is left out.
--
-- State is passed explicitly: an operation takes the state and returns the next one with a
-- `Result`. Bytes are numbers, `usize` and `u64` are 64 bits wide, and their checked additions and
-- multiplications are computed exactly and compared with 2^64 - 1.
--
-- What the code awaits is an argument: a write loop takes a list of attempts, a transmission one of
-- turns of its producer, a reception one of rounds, each with the answers of the transport, of the
-- other end and of the tokens in it; where such a list ends, the operation is pending. A future
-- that is ready is dropped at once, as `.await` does.
--
-- Fuel: `validate_extensions` and `validate_transfer_parameters` loop on the length of their
-- input, which is enough since a round takes a byte at least. All other loops are on the input.
--
-- Writes: the text of a target is pushed as a whole, where the code formats it in pieces: both
-- succeed together, and a failure is the same limit.
--
-- Parameters: the parse of a head, which calls httparse and `http`, is a function argument of the
-- client. The parse of one trailer block, which calls httparse and `http`, is a function
-- argument of the decoder. Where a theorem needs it, a hypothesis says that the parse takes no
-- more bytes than it is given, or that an empty block parses. Encode.Planned.Lawful lists what
-- the planning relies on of the field map, and Encode.Lines.Listed what the writing relies on of
-- its iterators. All of this is documented behaviour.
--
-- Not modelled: the driver of src/proto/h1/server.rs, `send_request` and the shutdown control
-- (src/connection.rs), whose last word on a result is an argument of `run`; the methods of
-- `Incoming`, the body adapters under src/body, clocks and sockets under src/io, builders and
-- upgrades, and what `parse_shared` of src/proto/h1/head/scan.rs calls in httparse. Work
-- budgets and trace hooks change no result. An allocation is taken to succeed.
pub mod Prelude
pub mod Syntax
pub mod Message
pub mod Chunk
pub mod Decode
pub mod Body
pub mod Encode
pub mod Http
pub mod Head
pub mod Exchange
pub mod Admission
pub mod Pipe
pub mod Io
pub mod BodyIo
pub mod Client
pub mod Tests
