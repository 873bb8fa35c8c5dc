-- ===== src/Lib.antt =====
-- The signalling server for web video conferences, a Go program (src/server, started by
-- src/main/main.go).
--
-- Media workers connect to it over gRPC streams and take its requests; browsers connect to it over
-- WebSockets, each as a user of a room; accounts are served over HTTP. A room has a router, which
-- stands on one worker. A user's message makes its room call the worker, change the router, and
-- notify the other users.
--
-- Parts, with the code that they are about:
-- * Workers (src/server/workerManager.go, `Worker` of src/server/worker.go): the registry of workers,
--   one function for each method of `WorkerManager`; children Choice, Cleanup, Registry, Counting.
-- * Router (src/server/worker.go): producers, consumers and transport ids of a room's users; children
--   Producers, Consumers, Closing, Transports.
-- * Server (src/server/grpcServer.go, `Sync` and `sendRequest`): the worker streams and the requests
--   in flight; children Heap, Invariant, Requests, Sessions, Waits, Lives (the life of one request as
--   an automaton), Refines and Delivery (every step of the server is a step of that automaton or
--   none).
-- * Rtc (src/server/grpcServer.go, the other methods of `WebRtcServer`): the requests to workers and
--   the reading of their answers; children Media (what is sent), Encode, Routing.
-- * Conference (src/server/user.go, room.go, roomManager.go, wssServer.go): users, rooms, handlers of
--   client messages, connections; children Rooms, Consumers, Cells, Produce, Handlers, Connections
--   with the code. Proofs: Steps, Notices, Leaving, Blocked, Window, Crashes, Feedback for single calls;
--   Frame, Keeps, Answers, Responses, Sockets for what every message leaves alone and answers;
--   Entries, Seats, Ends, Arrivals, Sessions for the invariant of rooms over whole sessions; Arriving,
--   Entering, Late, Joining and Closing for what connecting, joining and closing a producer do; Gives,
--   Quiet, Grows, Offers, Pulls, Producing and Published for producing, which only adds to a room;
--   Begun, Fatal, Short and Null for the requests that stop the server.
-- * Auth (src/server/httpHandler.go, emailService.go, authDB.go): accounts and verification codes;
--   children Codes, Accounts, Draws.
-- * Http (src/server/httpHandler.go and httpServer.go): routes and how a request goes through them, the
--   access line and the shutdown; child Offline.
-- * Startup (src/main/main.go, with `StartWssServer`, `StartGrpcServer`, `StartHttpServer` and the
--   initialisations of redis.go, authDB.go, emailService.go): the globals, and the three goroutines of
--   `main` in child Process, which uses Conference for connections, Rtc and Workers for their routers
--   and Server for the workers; proofs in Reached, Running, Races and Unready.
-- * RequestQueue (src/server/httpReqQueue.go and httpClient.go): the retry queue; child Rounds.
-- * Redis (src/server/redis.go): the compiler of Lua scripts, runs of compiled scripts, names of keys;
--   children Compile, Text, Runs, Keys.
-- * Net (src/server/util.go): texts of addresses and random strings; children Addresses, Draws.
-- * Settings (src/server/config.go and the set-up code of httpServer.go, emailService.go, redis.go and
--   authDB.go): the configuration and what is made of it. Logs (src/server/logger.go, the file
--   functions of util.go): the settings of the logger.
-- * Media (src/server/reqResData.go, config.go) and Proto (src/server/proto/singal.pb.go): the data
--   that clients and workers exchange.
-- * Common and Dict: shared names, lists, tests, integers, and Go maps. Examples: concrete runs.
--
-- How the code is read:
-- * A method that changes its receiver returns the new value. Names are the code's, in snake_case.
-- * A Go map is an association list, and a `range` over it goes by the order of the list; a theorem
--   about every list is one about every order.
-- * Machine integers wrap: `% 2^32` and `% 2^64` are written out. Times are numbers of nanoseconds and
--   `now` is an argument; time does not go back.
-- * A pointer is a place in a list (a heap) where the code shares the object: worker streams, users,
--   and the parameters of producers. Slices that are cut in place keep their cells.
-- * A Go error is `err` or `none`, a nil or index panic is `panic`.
-- * Goroutines of the worker side are steps of `Server`, which a history interleaves: a registration,
--   keepalive or response, the start of a request, its timeout, the end of a stream. A send that fails
--   is a Boolean argument of the step. A handler of `Conference` runs to its end before the next; only
--   `Conference.Window` has one that runs in the middle of another. The channels to the clients have no
--   buffer and `WriteMessage` reads each until a write fails: a handler that sends to a channel that
--   nobody reads ends the run as `err blocked`. The handlers of Auth run one after the other, and
--   `Auth.Accounts.inserts` has the writes of registrations that checked before any of them wrote. The
--   goroutines of `main` are steps of `Startup.Process`; a panic in one of them ends the process.
-- * Recursion is structural. Fuel stands only in `Conference.Cells.index_loop`, the loop by its index,
--   for which one round more than the slice is long is shown to be enough. The rounds of the retry
--   loop are counted.
--
-- What comes from outside is a parameter: random strings and numbers, the text of a number, substring
-- search, the answer of a worker to a room, bcrypt, the email pattern, the redis client that runs a
-- script, the parsers of JSON and of addresses, and whether redis, the database, the mail and the
-- sockets answer.
--
-- Not modelled: sockets, TLS and JSON decoding, the writing of log lines, what gin does for a panic or a
-- path without a route, the generated marshalling code, and the connection to redis. A goroutine of
-- `main` that listens is a step whose outcome is an argument. `Conference` takes random strings as a
-- parameter; that the drawn ones have the length and the letters that are asked for is in Net.Draws.
pub mod Common
pub mod Dict
pub mod Media
pub mod Proto
pub mod Workers
pub mod Router
pub mod Server
pub mod Rtc
pub mod Conference
pub mod Auth
pub mod RequestQueue
pub mod Redis
pub mod Net
pub mod Settings
pub mod Logs
pub mod Http
pub mod Startup
pub mod Examples
