-- ===== src/Lib.antt =====
-- DistRes: models and proofs.
--
-- DistRes shares one text file among engineers. A server node (server.py) serves each client node
-- on a thread of its own: it checks credentials, admits at most five sessions, lets many read the
-- file or one append to it (data_layer.py, under the lock of rwlock.py), and announces each append
-- to all sessions (pubsub.py). Clients and the server exchange JSON objects, one a line, over TCP
-- (protocol.py). The clients are web nodes (client_node.py) and a command line (cli_client.py); their
-- end of the connection is connection.py.
--
-- The files and what they model, each name being the source's unless said otherwise:
--   RwLock        rwlock.py. `ReadWriteLock` is the record of the three counters. A method that may
--                 wait is cut where the mutex is given up: `acquire_read_round` and
--                 `acquire_write_round` run from taking the mutex to giving it up,
--                 `announce_write` is `acquire_write` up to its loop. RwLock/System is the step
--                 relation of `n` threads, whose `Notify` is `Condition.notify`; RwLock/Invariant,
--                 Exclusion, Deadlines and Wakeup prove its properties over all reachable states.
--   DataLayer     data_layer.py. The table of engineers is the list of its rows, the file its text.
--                 DataLayer/System runs the bodies of `read_resource` and `write_resource` in
--                 threads under RwLock/System: reading the file and reading the version are two
--                 steps, and so are the append and the bump. `entries` there is a ghost: the
--                 writes that have appended. `read_resource` and `write_resource` of DataLayer are
--                 the same bodies as functions, with the lock's answer as an argument;
--                 DataLayer/Sequential relates the two.
--   Protocol      protocol.py. Protocol/Wire has the JSON values and `json.dumps` as `encode` calls
--                 it. `FramedReader` has the results of the coming calls of `recv` for its socket.
--                 `json.loads` is the parameter `loads`.
--   PubSub        pubsub.py. A delivery callback is a value of a parameter type, what it does and
--                 whether it raises a parameter. So is what other threads do to the registry
--                 between two deliveries.
--   Server        server.py. Server/World is the state of `DistResServer` and of all `ClientHandler`s,
--                 each a number; Server/Handlers and its children have the methods that serve a
--                 request, as state-passing functions that may raise; Server/Events has the loop
--                 of `run` as reactions to events, one at a time. `Env` is what the surroundings
--                 decide: the clock's texts, and
--                 whether the lock is granted.
--                 Server/Frame and Server/Commits say what the requests do to the data layer;
--                 `Journal` there is the file as the clients know it. Server/Logins interleaves the
--                 log-ins and log-outs of several handlers, cut between the uses of the mutexes;
--                 `leaked` there is a ghost, the slots that second log-ins have lost.
--                 Server/Updates interleaves their reads and writes, from the call of the data layer,
--                 whose threads are those of DataLayer/System, to the publication. Server/Display
--                 follows the sets of the status display, Server/Replies the responses of a handler
--                 against its requests (Quiet and Sessions there follow a request from its arrival to
--                 its response), Server/Messages the shape of all that is sent.
--                 Server/Preserves has the rules for calls that keep a property of the state, which
--                 these share. Server/Relogin, Silent and HalfOpen follow particular runs.
--                 Server/Accepting is `serve_forever`, over the outcomes of `accept` and
--                 the events of the handlers, and the start of the program.
--   ClientNode    client_node.py. The record `Node` is the dict `_node`; the callbacks and routes are
--                 functions on it, with the server's response as an argument. ClientNode/Launch has
--                 `main`, `USERS` and `index`, ClientNode/Page `api_state`.
--   Connection    connection.py. The record `Connection` is a `ServerConnection`, its `callers` the
--                 threads in `request`, each known by its request's id, and its `listener` the
--                 thread of `_listen_loop`. `request` is `park`, `transmit`, `end_wait` and
--                 `give_up`; `_reconnect` is `fail_in_flight`, `reconnected` and `restore`.
--                 Connection/Happenings puts the steps of all threads into one order;
--                 Connection/Backoff has the waits of `_connect_with_retry`.
--   CliClient     cli_client.py. The loop of `main` over the lines of the input, with the connection's
--                 answers as a function of the calls so far; the calls and the printed lines are
--                 its result. CliClient/Stripping says what `strip` leaves of a line.
--   EndToEnd      A client's end and the server's end together: requests, responses and updates;
--                 EndToEnd/Calls interleaves the threads of one connection with the handler that serves
--                 it and the rest of the server, over a socket that keeps the order of the messages;
--                 EndToEnd/Overtaking follows two announcements to a node.
--   Base          The shared helpers: tests, lists, dicts, threads, exceptions. Its ℤ is Python's
--                 integers, which the lock's counters are.
--
-- Bounds and fuel. Times are natural numbers of some small unit. `receive_all` of Protocol/Stream
-- loops on fuel, and one more than the number of the messages is enough; `decimal` of Protocol/Wire
-- and `text_of` of Base/Outcome have one more than the number for fuel, which its digits never
-- exceed. Every other loop is structural.
-- The number of threads, the lengths of texts and the events are not bounded.
--
-- Assumptions. Each use of a mutex is one step. Files are written with \n as it is and read with
-- universal newlines, as on a system whose line separator is \n. The ids and names in the table are
-- no numerals, so that a number never logs in and the user of a session is a text. A writer whose wait
-- in RwLock/System has ended may take a later notification, also if an earlier one has woken it. In
-- Server a request is served as a whole before the next event: threads interleave in RwLock/System, DataLayer/System, Server/Logins and Server/Updates,
-- around the deliveries of PubSub, and on the client's side in Connection and
-- EndToEnd/Calls. No call of the operating system fails but those on sockets and
-- files that the source speaks of.
--
-- Not modelled: the parsing of the command lines; the socket calls of `_connect_once`, of which the
-- outcome counts; Flask, and the page's HTML and script, in client_node.py; sqlite3's files and the
-- artificial latency in data_layer.py; the printing of the log in server.py; in cli_client.py `start`, and an interrupt outside of `input`.
pub mod Base
pub mod RwLock
pub mod PubSub
pub mod Protocol
pub mod DataLayer
pub mod Server
pub mod ClientNode
pub mod Connection
pub mod CliClient
pub mod EndToEnd
