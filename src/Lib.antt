-- ===== src/Lib.antt =====
-- simplesvr is an event-driven TCP and HTTP server library for Linux, in C++. This library models
-- its core in tornado/ and proves what makes each part correct.
--
-- The parts and how they interact. A socket is an `IOStream`. It has two `Buffer`s, one for bytes
-- that were read and nobody has asked for, one for bytes that the socket has not taken yet. It
-- registers itself with the `IOLoop`, which polls epoll, calls the stream's `handleEvents`, runs
-- the callbacks that the stream has queued, and runs the timers of a `TimeoutQueue`. An
-- `HTTPConnection` sits on a stream: it reads a request, hands it to a callback, writes the answer,
-- and closes the stream when the answer is out. A `RequestHandler` collects an answer and writes it
-- to the connection. A `TcpServer` accepts the connections; a web `Application` finds the handler
-- for the path of a request. A `Resolver` runs c-ares on the loop, and an `App` its own code from
-- time to time. Beside these stand the containers in shared memory, the log file and utilities.
--
-- Which file models what.
--   Buffer.antt             tornado/Buffer.h, tornado/Buffer.cpp. The record `Buffer` has the array and
--                           the two indices; `ensure_writable_bytes` is `ensureWritableBytes`, and so on
--                           for the other names. Bounds: the indices; Queue and Script: the queue that
--                           the buffer implements; Search: `find`.
--   Stream.antt             tornado/IOStream.h, tornado/IOStream.cpp. `Stream` has the fields of the
--                           object, and the environment that it acts on: the results to come of
--                           read(2) and write(2), what write(2) has taken, and the calls that leave the
--                           object. Reading: `readToBuffer` to `handleRead`; Writing: `handleWrite`;
--                           Api: the public operations and `handleEvents`. Calls and its modules: the
--                           invariant of the calls; Transfer and its modules: the bytes.
--   TimeoutQueue.antt       tornado/TimeoutQueue.h, tornado/TimeoutQueue.cpp. The container of boost is
--                           the parameter `Container` of MultiIndex, with the documented behaviour of
--                           the operations used; SortedList has it.
--   Loop.antt               tornado/IOLoop.h, tornado/IOLoop.cpp and the calls of epoll_ctl(2) in
--                           tornado/EPoll.cpp. Table: the handlers; Start and Restarts: `start`; Streams: the calls
--                           of a stream, made on the loop; Signals: `addSignalHandler`; Counting and
--                           Watching: any sequence of operations; Polling: the events of a wait;
--                           Callbacks: the queue of callbacks; Lifetime: the loop from its
--                           construction on; Epoll: the descriptor of epoll.
--   TcpServer.antt          tornado/TcpServer.h, tornado/TcpServer.cpp. Listening: `listen` and `stop`;
--                           Accepting: `handleConnection`; Lifetime: construction and destruction.
--   Resolver.antt           tornado/Resolver.h, tornado/Resolver.cpp. c-ares is a parameter, by the list
--                           of the callbacks that a call of it makes. Sockets: one socket; Runs: the
--                           callbacks of one call; Lookups: replies and timers; Library: the set-up
--                           of c-ares; Lifetime: construction and destruction.
--   App.antt                tornado/App.h, tornado/App.cpp. Timers: the application's timer.
--   Logging.antt            tornado/Logging.h, tornado/Logging.cpp. Lines: the buffer of a line;
--                           Flushing: what is not flushed; Macros: the levels, the macros and
--                           `init_log`.
--   Shm.antt                tornado/shm. boost::interprocess is the parameter `Segments`
--                           of Segment, which Memory has, and `OrderedMap` of Maps; Timers:
--                           `TimerQueue`; Stripped and Equivalence: it and the queue of the loop;
--                           Opening: its constructor; Sessions: processes that use a container in
--                           turn; StringMaps and Collections: the calls of the containers, with
--                           the `bad_alloc` of a full segment; Queue:
--                           `MsgQueue`, over the parameter `MessageQueues`, which PlainQueues has.
--   Util.antt               tornado/util. Files: file.h; Guards: scople_guard.h; Randoms: random.h;
--                           Clock: tornado/Util.h, and `parseStrTime` and `daemon` of comm.cpp;
--                           Config: boost_ptree.h, ini.h, json.h and xml.h.
--   Encoding.antt           tornado/util/comm.cpp, the hexadecimal and base64 functions.
--   Http.antt               tornado/HttpServer.h, tornado/HttpServer.cpp: the headers.
--                           Requests: the request line, the query and the body; Connection:
--                           `HTTPConnection`; Lines: the lines of a header; Answers: the connection's
--                           stream; StartLine: a whole request; Queries: one with a query; Server: a
--                           connection on the loop; Arriving and Serving: from the bytes on the
--                           socket to the callback; Posting: a form; Refusing: a malformed line;
--                           Printing: `print` and `getRequestTimeMS`.
--                           The string functions of boost are the parameter `Strings`; PlainStrings
--                           has them.
--   Web.antt                tornado/Web.h, tornado/Web.cpp: the texts of the status codes and
--                           `RequestHandler`. Flush: an answer without a body; Sending: an answer that
--                           goes through; Application: `Application` and `ErrorHandler`; Answering,
--                           Completing, EndToEnd and Forms: from the bytes of a request to those of
--                           the answer; Unknown: a path without a handler; Arguments: what a handler
--                           reads of the request.
--   Prelude.antt            what the modules share: lists, options, Boolean tests, byte strings.
--
-- How the code is read. A callback is a number; what it does when it runs is a parameter
-- (`Effects`). A failed assertion is `none`. A result of several values, or of the new state, is a
-- tuple; sizes are natural numbers, with the wrap-around written out where a sum or a product can
-- reach it. `char` is signed and an `int` has 32 bits, in two's complement; an access outside an
-- array is an outcome of its own. The test of an undeclared name `erron` in `readToBuffer` is read
-- as one of `errno`.
--
-- Fuel and bounds. `parse_lines` recurses on a bound for its rounds, one more than the characters
-- of the text, which is enough since each round takes two off. `read_to_buffer_loop` and
-- `write_loop` recurse on the results of the system calls: where none is left the call would block,
-- which ends the loop. `run_loop` counts the passes that are allowed, since the loop in the source
-- has no bound of its own. `run_rounds` of the event loop recurses on the rounds that the
-- environment gives, since `start` is meant to run until it is stopped.
--
-- Not modelled: what the log says of these parts, since it changes no state of theirs; the address
-- conversion and the socket options of system calls; the memory manager that tornado/Buffer.cpp
-- keeps in a comment; a segment that has no room for a timer of `TimerQueue`; negative delays of
-- timers; the real-valued random numbers and times; the accessors of the containers in shared memory
-- that hand a pointer on.
pub mod Prelude
pub mod Buffer
pub mod Encoding
pub mod Stream
pub mod TcpServer
pub mod TimeoutQueue
pub mod Loop
pub mod Resolver
pub mod App
pub mod Logging
pub mod Util
pub mod Http
pub mod Web
pub mod Shm
