-- ===== src/Lib.antt =====
-- DeepSeer, an intercepting HTTP proxy with a classifier of response bodies: the proxy library
-- DeepSeerLib and the inference library SeerLib.
--
-- The program's parts. An event loop on kqueue watches descriptors, runs timers and posted callbacks.
-- Connections, plain or TLS, buffer writes and hand received bytes to their owner. A proxy session owns
-- the connections of one client and its upstream; its two codecs turn bytes into requests, responses
-- and body chunks, which the session forwards, and it hands whole response bodies to an inspector, which
-- queues them at the inference engine. Logs go to sinks, of which one rotates files.
--
-- The files:
--   Base: names of the libraries passed on; Boolean tests, lists, byte strings and decimals.
--   Core/Types, Core/Buffer: DeepSeerLib/include/DeepSeer/Core/Types.hpp,
--     DeepSeerLib/src/Core/Buffer.cpp. A slice is its storage with two positions, a buffer the list of
--     its slices, the total length and the index of the front slice.
--   Http/Headers, Http/Message: DeepSeerLib/include/DeepSeer/Http/HeaderMap.hpp and Message.hpp. The map
--     is the list of its entries in the order of CaseInsensitiveLess.
--   Http/Codec: DeepSeerLib/src/Http/Http1/Codec.cpp; one function for each callback, and the encoders.
--   Event/Kqueue: DeepSeerLib/src/Event/KqueueLoop.cpp; a function for each call and for each branch of
--     run, with the changes handed to kevent and the callbacks invoked as results.
--   Net/Socket, Net/Flush, Net/Connection: DeepSeerLib/src/Net/Socket.cpp and Connection.cpp; Net/Flush
--     is the write loop that Connection::handleWrite and TlsConnection::doWrite share.
--   Net/Address: DeepSeerLib/src/Net/Address.cpp, with the lookups as a parameter.
--   Net/Listener: DeepSeerLib/src/Net/Listener.cpp over the loop of Event/Kqueue; Accepting, Pausing and
--     Lifecycle hold its theorems.
--   Server: DeepSeerLib/src/Server/Server.cpp over the listener and the sessions.
--   Net/Tls: DeepSeerLib/src/Tls/TlsConnection.cpp; Stream is about its writes, Lifecycle about all calls.
--   Proxy/Session: DeepSeerLib/src/Proxy/ProxySession.cpp; Events holds the callbacks, Heads
--     describes the forwarded heads, Request and Response are the two directions of a plain session, Tunnel is those of a CONNECT tunnel, Finality what
--     follows the end of a response, Interception the relays over TLS.
--   Tls/CertCache: DeepSeerLib/src/Tls/CertCache.cpp; Lru compares it with a list in the order of use.
--   Tls/CertGenerator: DeepSeerLib/src/Tls/CertGenerator.cpp; the handles of OpenSSL are numbers.
--   Log/FileSink, Log/Logger: DeepSeerLib/src/Log/FileSink.cpp and Logger.cpp.
--   Seer/Engine: SeerLib/src/Engine.cpp; the critical sections of callers and worker as actions.
--   Seer/Magika: SeerLib/src/Magika/MagikaModel.cpp. Tokens is the preprocessing of a payload, File the
--     reader of weight files, Layers the forward pass over an abstract type of floats; Loops and Forward
--     show that its loops stay within their arrays.
--   Seer/MagikaEngine: SeerLib/src/Magika/MagikaEngine.cpp, from the weight file to the answer.
--   Main: Source/main.cpp, the reading of its arguments.
--   Tests: the theorems at concrete inputs.
--
-- State is a record and an operation a function on it; what a callback of the owner does is a step of
-- its own, except for the data callback of a TLS connection, which runs inside its read loop. Answers of the operating system, OpenSSL and llhttp are arguments. `none` stands for an
-- exception that nothing catches, undefined behaviour, or an action that cannot happen.
--
-- Fuel. Buffer::add has one round of fuel for each byte, and the write loop one more than there are
-- bytes; every round takes one byte at least, so the fuel is not used up, which the proofs of the buffer
-- and of the write loop show.
--
-- Sizes and positions are natural numbers without a bound; a port keeps its 16 bits.
--
-- Not modelled: the console sink, the wiring in main and memory management. The values of
-- floating-point operations are a parameter of the forward pass.
pub mod Base
pub mod Core
pub mod Http
pub mod Event
pub mod Log
pub mod Tls
pub mod Net
pub mod Proxy
pub mod Seer
pub mod Server
pub mod Main
pub mod Tests
