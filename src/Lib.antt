-- ===== src/Lib.antt =====
-- A library of the C++ runtime of opal-cpp: Smithy services and clients over HTTP. It models the
-- parts of runtime/src that decide something by themselves: codecs, parsers, routing and the guard
-- around handlers.
--
-- The parts and how they interact. A transport reads a request and gives it to
-- `InvokeHandlerGuarded` (Http.Dispatch), which sees to a traceparent (Http.TraceContext) and runs
-- the handler, turning an exception into a 500. The handler of a server is `Router::Route`
-- (Server.Router.Table): it reads the target (Http.Uri), scans the routes of the request's method
-- and calls the handler of the most specific route, or answers 400, 404 or 405. An application may
-- put `RequireOrigin` (Server.OriginGate) before it, which reads origins as endpoints
-- (Http.Endpoint). Headers are the
-- multimap of Http.Headers. A streaming operation sends its events as messages
-- (EventStream.Envelope) in checksummed frames (EventStream.Frame, EventStream.Value); the decoder
-- is fed from a socket and answers with a frame, an error or the wish for more bytes. In tests the
-- two ends of a stream are the in-memory session of Http.WebSocketPair. Blobs travel in text as
-- base64 (Core.Base64). The socket transport (Http.Socket) writes requests and responses as
-- HTTP/1.1 and reads them with the reader of Http.Http1; its server runs the guarded handler. The
-- bodies of the CBOR protocol are documents, which Cbor writes and reads.
--
-- Files and code:
-- - Common: shared helpers. Common/Tests, Lists, Text, Split, Search, Decimal and Bits have Boolean tests, lists,
--   byte strings, cutting at separators, `find` of a text, `std::to_string` and bit operations; Common/Errors is
--   runtime/include/opal/core/error.h and outcome.h.
-- - Core/Base64: runtime/src/core/base64.cc (`Base64Encode`, `Base64Decode`).
-- - Core/Text: runtime/src/core/text.cc (`Utf8CodePointCount`).
-- - Http/Uri: runtime/src/http/uri.cc (percent encoding, `QueryString`, `ParseRequestTarget`).
-- - Http/Endpoint: `ParseEndpoint` of the same file.
-- - Http/Headers: runtime/src/http/headers.cc (`Headers`, list values, `AcceptMatches`,
--   `FindUnsafeHeader`).
-- - Http/Message: runtime/include/opal/http/message.h.
-- - Http/TraceContext: runtime/src/http/trace_context.cc.
-- - Http/Dispatch: runtime/src/http/server_dispatch.cc.
-- - Http/WebSocketPair: runtime/src/http/websocket_pair.cc, and `CloseReason`, `CheckCloseReason` and
--   `TerminalWaiters` of runtime/include/opal/http/websocket.h; its Calls are the blocking calls and
--   the actions of a session, its Invariant, Fifo and Completions the proofs.
-- - Http/Http1: runtime/src/http/http1.cc; Http/Http1/Lines, Chunks and Whole are its proofs over a
--   message that comes in chunks, Framed those over any input.
-- - Http/Socket: runtime/src/http/socket_transport.cc (`SocketHttpClient::Send`,
--   `SocketHttpServer::AcceptLoop`).
-- - Server/Router: runtime/src/server/router.cc, patterns and precedence; Server/Router/Table:
--   `Router::Add` and `Router::Route`.
-- - Server/OriginGate: runtime/src/server/origin_gate.cc (`RequireOrigin`).
-- - EventStream/Value and EventStream/Frame: runtime/src/eventstream/frame.cc;
--   EventStream/Envelope: runtime/src/eventstream/envelope.cc.
-- - Cbor: `Encode` of runtime/src/cbor/cbor.cc, and the data of runtime/include/opal/core/document.h;
--   Cbor/Decode: `Decode`, and `Timestamp::FromEpochSecondsChecked` of runtime/src/core/timestamp.cc;
--   Cbor/Fuel is about the ends of its loops, Cbor/Sound about what it gives on any bytes.
-- The children of a module hold its proofs, and a child named Runs its tests at concrete values.
--
-- Conventions. A string, a string view and a blob are lists of bytes. An `Outcome` is a value or an
-- error; the text of an error is kept, its typed detail is not. A signed integer is held by its two's
-- complement, a status of a response in 32 bits, but an integer of a CBOR document is an ℤ. A map is
-- an association list. A random engine is the function of the words that it draws. A handler either returns or throws. A double is its 64 bits, and what the CBOR codec computes on
-- doubles is the record `Floats`, an argument. A position in the input of a decoder is the bytes from
-- it on.
--
-- Concurrency. The in-memory session is a step function on its state: an action is what one call does
-- while it holds the mutex, and a run is a list of actions of both ends in any order. A blocking call
-- is an action that starts it and one that ends it, with others in between, also where the source
-- goes through without giving up the mutex, so that there are no fewer runs than the source has. The
-- completions that an action fires are part of its result. A deadline is an action that may happen
-- at any time. What a read function or a socket answers is a list of results.
--
-- Fuel. The loops over a text (`segments_loop`, `params_loop`, `split_loop`, `accept_loop`,
-- `pattern_loop`, `read_headers`, `read_fields`) have the length of the text as fuel: each round cuts something off,
-- so it falls at every round. `decimal` has the number itself. `nonzero_hex` has a number of rounds, since only the
-- random engine ends that loop. The loops of the CBOR decoder (`chunks_loop`, `items_loop`, `fields_loop`)
-- have the length of the input, or one more: each round reads a byte at least. Its recursion has the
-- depth limit of the source, 64. A loop whose fuel is used up gives an error that the source does not
-- have.
--
-- Not modelled: sockets, threads and the Boost, zlib and JSON libraries, which are not in the
-- repository or only move bytes; the code generator, which is in Java; debug printing. The HTTP date
-- forms of headers.cc and `FormatPeerAddress` of server_dispatch.cc are left out, and so are the
-- other files of runtime/src.
pub mod Common
pub mod Core
pub mod Http
pub mod Server
pub mod EventStream
pub mod Cbor
