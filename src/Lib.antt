-- ===== src/Lib.antt =====
-- queryperf++: a DNS server performance test. It reads queries from a file, keeps a window of them
-- outstanding at a server, and counts the answers.
--
-- The parts, and how they interact:
--   * The query repository (src/lib/query_repository.cc) reads the input, line by line, into requests
--     (`readNextRequest`, `parseQueryOptions`), either all at once (`load`) or one for each query, and
--     hands them out in turn (`getNextParam`). Repository/Dns.antt holds the data and, as the record
--     `Dns`, what the file takes from bundy's libdns++ and boost; Repository/Line.antt the parse of
--     one line; Repository/Reader.antt the loops over the lines; Repository/State.antt the object and
--     its methods. Stream.antt is the part of the standard streams that these use. Repository/Requests
--     says what requests the lines of a text give, Line/Describe what a line says by its words (which
--     are in Stream/Words.antt), Line/Print how a request is written, and Cursor and Streaming.antt
--     where a repository stands that reads its input round and round.
--   * The query context (src/lib/query_context.cc) makes the bytes of a query from a request:
--     Context.antt, with `getNextQuery`. A message is the list of the calls made on it, and the
--     renderer is a parameter.
--   * The dispatcher (src/lib/dispatcher.cc) sends the first queries, and a new one for each answer or
--     timeout, until the session timer expires; then it waits for the outstanding ones and stops the
--     manager. Dispatcher/Types.antt holds its state; Dispatcher/Query.antt sends one query
--     (`QueryEvent::start`, `sendQuery`); Dispatcher/Loop.antt holds the callbacks and `restartQuery`;
--     Dispatcher/Session.antt `run`; Dispatcher/Settings.antt the constructors and the setters.
--     Dispatcher/Spec.antt is an abstract session, which has the ids waited for, in no order, and
--     counts; Dispatcher/Refine.antt relates the dispatcher to it. Dispatcher/Collision.antt is about
--     an id that is used again. Dispatcher/Protocol.antt is about the order of its calls of the
--     manager, and Dispatcher/Calls.antt about those for the TCP sockets of one event; both take from
--     Dispatcher/Loop/Kept.antt that a callback keeps what its parts keep.
--   * The message manager (src/lib/message_manager.h) is seen by the dispatcher as an interface: its
--     calls are recorded, newest first, and each of them throws if the next entry of `outcomes` says
--     so; what it delivers is a list of `Delivery`, in any order. The callback of a timer or a TCP
--     socket is made only while its query is in the list and, for a socket, still holds it. Of the
--     sockets of the ASIO manager this is proved, in Sockets/Held.antt; its timers can call back later,
--     when the query is deleted, and what happens then is not modelled (Asio/Timer/Deleted.antt).
--   * The ASIO message manager (src/lib/asio_message_manager.cc) implements that interface. Asio.antt
--     has a module for each class: Asio/Tcp.antt the socket of one query over a connection,
--     Asio/Udp.antt the shared socket, Asio/Timer.antt the timer, and Asio/Manager.antt
--     `createMessageSocket`. A socket holds the operations that asio has not completed, and a timer its
--     waits; a completion, with its error code and bytes, is a step. What a client does in a callback
--     is a step of its own, which is right because every handler returns behind its callback.
--     Sockets.antt puts the dispatcher and the TCP sockets together: the calls about one socket are
--     the client's steps among the completions, which come in any order. Timers.antt does so for the
--     query timers, as far as the calls that set them.
--   * The main program (src/bin/queryperfpp/queryperfpp.cc) reads the options (Main/Options.antt),
--     configures a dispatcher for each thread (Main/Prepare.antt), runs them (Main/Workers.antt), and
--     adds up their counts (Main/Statistics.antt). Main/Program.antt is `main`, from the letters of
--     `getopt` to its exit; Main/Report.antt is the report that it writes and Main/Usage.antt the text
--     of `usage`. Main/Wire.antt is about the queries of a run with a preload, and Main/Ending.antt
--     about its end. Threads share nothing, so each has its own run. An exception ends a thread, and
--     elsewhere `main` with status 1; a failed assertion, undefined behaviour and an endless read are
--     no exceptions, and end in `stuck`, which has no status.
--   * Traffic.antt puts the repository, the contexts and the dispatcher together: `Supply` is what a
--     session asks of a repository, Traffic/Supplies.antt has one with a preload and one without, and
--     Traffic/Requests.antt is about the bytes on the wire.
--
-- A method is a function from the object to a result and the object behind it; the object comes back
-- after an exception too. In a method an assertion that fails is an error like an exception, but no
-- handler of the main program catches it. `QueryEvent`s are told apart by `ident`, in place of their
-- address. `qid_t` is 16 bits, `size_t` 64.
--
-- Loops: the options of a line and the lines of the input are read on fuel. `parseQueryOptions` takes
-- a character in each round but the last, so the length of the line is enough. `load` gets one more
-- than the length of the input. A read that rewinds may never end, and has its fuel as an argument;
-- twice the number of lines that are neither empty nor comments is enough if one of them is a request.
--
-- `std::list::splice` is called with the end of the list as the element to move, which the standard
-- leaves undefined; the model has what libstdc++ and libc++ do.
--
-- The report is a list of what is put into `std::cout`, manipulators included, with the format that
-- they leave. Doubles and the times of boost are the parameter `Double` of Main/Report.antt.
--
-- Not modelled: asio, bundy's libdns++ and boost, which are parameters or steps; the arithmetic of
-- doubles and the digits that are written for them; the status lines, warnings and error messages, and
-- the text of the exceptions; `getopt`, whose letters are the arguments of `main`; `createMessageTimer`
-- and `run` as recorded calls of the manager; a callback of a timer whose query is deleted; that
-- `async_connect` can fail to open its socket.
mod Base
pub mod Stream
pub mod Repository
pub mod Context
pub mod Dispatcher
pub mod Asio
pub mod Main
pub mod Traffic
pub mod Sockets
pub mod Timers
mod Tests
