-- ===== src/Lib.antt =====
-- Verification of nettest, a measurement of network speed over the RMBT protocol: the server that
-- answers it (src/mioserver) and the client that drives it (src/client).
--
-- The program. Both sides are state machines over a non-blocking stream: a phase says which handler
-- the next event of the poll runs; the handler reads or writes until the stream would block or the
-- phase is over, sets the next phase and registers the stream for what that phase waits for. The
-- server accepts connections into a queue, from which its workers take them, one at a time each;
-- behind an HTTP upgrade the server greets, prompts for a command, and runs a download (GETCHUNKS,
-- GETTIME), a ping exchange (PING) or an upload (PUT, PUTNORESULT, PUTTIMERESULT). The client runs
-- its tests one after the other, each with a time limit, and computes the speed from the samples of
-- its threads. Both start from a configuration file and a command line. An older server
-- (src/tokio_server) speaks an older form of the protocol with calls that wait.
--
-- The files. Common holds the shared tests, lists and texts. Text is the standard library's text
-- handling (split_whitespace, trim, split_terminator, parse, format!), with lemmas on it. Net is
-- src/stream/stream.rs as the handlers see it: a stream carries the script of what the operating
-- system will answer, each answer with its time, and the bytes that were sent; Net/Loop has the
-- rules for the handlers' loops. Chunks is src/client/globals.rs. Server is the state of
-- src/mioserver/server.rs and server_test_phase.rs, and its children are the handlers of
-- src/mioserver/handlers, one file each, under their own names: Greeting (greeting_handler.rs),
-- Command (common.rs), GetChunks, GetTime, Ping, Put, PutNoResult, PutTimeResult and Dispatch
-- (basic_handler.rs). Server/Event is what src/mioserver/worker.rs does with one event,
-- Server/Handshake its HTTP upgrade, Server/Worker and Server/Worker/Round the rest of a worker,
-- and Server/Worker/System the server's accept loop (src/mioserver/server.rs) with all workers,
-- interleaved in any order. Client is the state of src/client/state.rs, with the handlers of
-- src/client/handlers below it, with the loop of a test in Client/Phases and
-- src/client/calculator.rs in Client/Calculator. Config is src/config/mod.rs, with the file's
-- parser (src/config/parser.rs) in Config/Parser, the loop over the arguments in Config/Arguments,
-- the command lines of src/mioserver/parser.rs, src/client/args_parser.rs and
-- src/tokio_server/server_config.rs in Config/ServerArgs, Config/ClientArgs and Config/RmbtArgs,
-- and the addresses of the last file in Config/Address. Rmbt is the stream of the older server
-- (src/tokio_server/stream/mod.rs), Rmbt/RandomBuffer its random bytes, Rmbt/GetChunks, GetTime,
-- Ping and Put its handlers (src/tokio_server/handlers) and Rmbt/Connection a whole connection
-- (src/tokio_server/connection_handler.rs). The proofs about the server stand in Server/Sending
-- (what the peer gets), Server/Protocol (phases and registrations), Server/Command/Sizes,
-- Server/Command/Unknown, Server/Put/Counts, Server/PutTimeResult/Records,
-- Server/GetChunks/Confirmation, Server/Handshake/Registered and, for the workers,
-- Server/Worker/Order and Progress, those about the client in Client/GetChunks/Growth,
-- Client/Ping/Median, Client/Phases/Timeout and Client/Calculator/Interpolation, those about
-- settings in Config/Ports, Config/RoundTrip, Config/Options and Config/Agreement, those about the
-- chunks in Chunks/Shape, those about the older server in Rmbt/GetChunks/Reply, Rmbt/Put/Counts,
-- Rmbt/Within, Rmbt/Connection/Token and Rmbt/Connection/Ends, and those about both programs in
-- Interop. Examples applies the theorems to concrete connections.
--
-- The model. A handler is a function from a state to an outcome: a number with the next state, an
-- error kind with the state that is left, or a panic. Its loop is structural recursion over the
-- script of calls to come; a script that is used up answers WouldBlock, so every loop of
-- the model ends. In the source, the loops that wait for a confirmation spin on reads of no bytes
-- when the peer has closed; the model makes as many rounds of them as its script has. Reads return at most the room of the buffer, writes take at most the bytes
-- offered, and registrations and flushes may fail. Numbers are unbounded, with the wrap-around of
-- u64 and u128 written out where a sum or a difference may wrap. Texts are ASCII bytes. The decimal
-- print has fuel for 40 digits, and a u128 has 39 at most; the loop that fills the store of chunks
-- has fuel for 12 rounds and makes eleven. A worker's loop is cut where it takes or gives back a
-- lock or waits, and the server's states are those that steps of the accept loop and of the workers
-- lead to, in any order. The loop over the arguments is structural recursion on them, with the
-- number of arguments that an arm passes over. A connection of the older server runs for one round
-- more than it has reads to come, which is enough since every round reads; a read of it behind the
-- script never returns, and a write there takes no time. Floating-point numbers are a type with
-- operations, given as a parameter.
--
-- Not modelled: the TLS and WebSocket libraries, the regular expression of the HTTP upgrade, the
-- parsers of IP addresses and log levels, all of which are parameters where the code calls them;
-- binding sockets, the shutdown signal, the accept loop and the token validator of the older server
-- in src/tokio_server, the client's threads, control servers, reading files, logging and printing.
-- The random bytes of the chunks are a parameter.
pub mod Common
pub mod Net
pub mod Text
pub mod Chunks
pub mod Server
pub mod Client
pub mod Config
pub mod Rmbt
pub mod Interop
pub mod Examples
