-- ===== src/Lib.antt =====
-- zway-server: a verification library for the server of the Zway messenger.
--
-- The program (repository root: CMakeLists.txt, include/, src/) is one process. `Server` accepts
-- sessions and keeps them in a map by account id, with the buffers and senders of streams.
-- `ClientSession` reads packets from its socket, hands requests to handlers, which ask and change the
-- database and post tasks to the server, and writes packets. `DB` is a pool of connections to MongoDB.
-- `FcmSender` sends push messages to users without a session.
--
-- Files:
--   Base, Base/...        names of the library, tests and lemmas on numbers and lists
--   Outcome, Stdio        undefined behaviour as an outcome; files and streams of the C library
--   Stream/...            FileBuffer and StreamBuffer (src/streambuffer.cpp)
--   OrderedMap            std::map with a numeric key: pairs in rising order
--   Value, Convert/...    UBJ and BSON documents, and the conversions (src/session.cpp)
--   World, World/Keeps    the state that handlers share, as a monad with early returns and crashes;
--                         invariants of such actions
--   Db, Db/Inbox, Db/Phones
--                         the queries of DB (src/db.cpp), and its comparison of numbers
--   Db/Laws, Db/Collection
--                         what is relied on of the database and the engine where messages, add codes,
--                         answers and new accounts are followed
--   Server/Sessions, Server/Buffers...
--                         Server's maps and its timer (src/server.cpp)
--   Server/Lifecycle...   start, pause, resume, accept, handleSession, close (src/server.cpp), as steps
--                         over the acceptor and the accepts that wait
--   Server/Uptime...      uptimeStr (src/server.cpp)
--   Server/Info           the text of info (src/server.cpp)
--   Session/...           the handlers of ClientSession (src/session.cpp), processUserRequests and
--                         removeSessions (src/server.cpp), and the theorems about them; Mailbox,
--                         Delivery and Message follow a message from its sender to its receivers,
--                         with Delivery/Contents on what each type of request has as its content,
--                         Delivery/Outsiders looks at sessions without a login, Signup follows a new
--                         account to a login, Codes an add code, Acceptance an accepted contact
--                         request, and Broadcast a change of status; Heartbeat is a session's timer,
--                         and Reachable the runs of the server, with Listed and Proven on the sessions
--                         that are logged in
--   Pool/...              DB's connections and the locks on them (src/db.cpp), under schedules
--   Wire/...              sendPacket and the reading of packets (src/session.cpp), one handler after
--                         another; Wire/Racing is sendPacket by several threads at once, critical
--                         section by critical section
--   Fcm, Fcm/Send...      FcmSender (src/fcmsender.cpp): the text and the callbacks, and sendMessage
--                         over curl
--   Transfer/...          createStreamReceiver (src/session.cpp) and StreamBufferSender
--                         (src/streambuffersender.cpp), with the server's buffers between them
--   Program/...           main from the command line to the exit code, with the worker threads and the
--                         console (src/main.cpp)
-- The modules named Examples are runs at concrete values.
--
-- How the code is represented: a method is a function with the method's name in small letters, an
-- object is a record, a pointer to a session is a number. World holds the database, the map of
-- sessions, the sessions by pointer, each session's engine, the number of random draws and the log of
-- what was sent or posted; a handler is an action on it, with `stop` for `return` before the end and
-- `crash` for the use of a null pointer and for an exception that nothing catches, which ends the
-- process. Numbers of 32 and 64 bits wrap where the code computes with them. Code outside the
-- repository is a parameter: Zway's core library, the readers of UBJ and BSON, the MongoDB client,
-- SHA-256 and the random generator (records Core, UbjApi, BsonApi, Mongo, Platform). A query or a write
-- of the client gives a result or fails as a whole, as the exceptions that DB catches do. Every read of
-- a BSON element gives a value, except the token's, and the public key's of the request that
-- processAcceptContact answers.
--
-- What is assumed: a handler runs without another one in between, a connection of the database is at
-- hand in the handlers, the fields of a UBJ object keep the order of insertion, and SHA-256 is
-- one call. In Wire/Sending handlers run one after another, as with one worker thread, so that nothing
-- comes between the two critical sections in which sendPacket tests and sets the flag of a running
-- write; in Wire/Racing they mix, and Wire/Racing/Alone leads from the one to the other. Closing an
-- acceptor closes it and aborts its accepts even where the close reports an error, as Asio documents. In
-- Program/Launch no handler's crash ends the process. Db/Laws and Db/Collection state what a document,
-- an insertion, a removal and an engine do, and only the theorems that name their records as hypotheses
-- rely on it; Server/Lifecycle and Fcm/Send/Delivery state the laws of the acceptor and of curl in the
-- same way. A call of the acceptor that throws is one that gives false. Tasks and messages to other
-- sessions are entries of the log; a run of the server (Session/Reachable) may take up a task at any
-- time.
--
-- Fuel: Fcm's `digits_from` runs on the number plus one, which a number's digits cannot exceed, and
-- `transfer` on any number of calls above the length of the text, of which each takes one byte. The
-- loop that creates the workers runs on rounds; 51 are enough, since it ends at 50. The console recurs
-- on its keys, and gives `none` where they end: the program then does not return. What the
-- workers still handle when `main` joins them is a parameter, `none` where they never run out of work.
-- All other functions recur on their data.
--
-- Not modelled: sockets, TLS, the setting of the server's timer, and logging. The parser of the
-- command line, the calls of the system and curl are parameters of Program/Launch and Fcm/Send.
pub mod Base
pub mod Outcome
pub mod Stdio
pub mod Stream
pub mod OrderedMap
pub mod Value
pub mod Convert
pub mod World
pub mod Db
pub mod Server
pub mod Session
pub mod Pool
pub mod Wire
pub mod Fcm
pub mod Program
pub mod Transfer
