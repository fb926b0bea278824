-- ===== src/Lib.antt =====
-- waitbus: a local event bus. Producers commit events to a SQLite table; the broadcast daemon
-- (waitbus/broadcast.py) sweeps the table in the order of its `seq` column and sends each row, as a
-- length-prefixed JSON frame (waitbus/_frame.py), to the subscribers whose filters ask for it.
--
-- The files and what they model:
-- Prelude: names of the library passed on, tests on numbers, and lemmas on lists.
-- Frame: waitbus/_frame.py. A byte is a number below 256. A socket to read from is the bytes to come
--   and the kernel's answers to `recv`. The loop of `_read_exactly` runs on fuel n + 1 for n bytes:
--   a round that goes on has read a byte or more. `read_frames` is the specification of a peer that
--   reads to the end of the stream.
-- Subscriber: waitbus/broadcast.py, class `Subscriber`. A socket to write to is the bytes accepted
--   so far and the kernel's answers to `send`.
-- Json: the values of `json.loads` with Python's `==`.
-- Subscribe: waitbus/broadcast.py, the validators of the subscribe envelope, and the filters.
-- Broadcast: waitbus/broadcast.py, class `Broadcast`, and the queries of waitbus/_db.py. The table
--   is a list of rows; a row carries the JSON texts of its frame and of its stub, which msgspec makes.
--   The dict of subscribers is an association list. Handshake has `_read_subscribe` from the parsed
--   envelope on, cut at the suspension points of `sock_sendall(ack)`: each `send` of it takes what the
--   kernel takes, and goes past the queue. Tasks is a step relation: the parts of the daemon's tasks
--   between their suspension points, in any order. Acks and Turns are the life of one subscriber,
--   before its acknowledgement is out and after its handshake.
-- Client: waitbus/_broadcast_sub.py, `await_predicate`, `read_subscribe_ack` and
--   `BookmarkCursor.advance`. The loop runs over turns given in advance, each with the clock and
--   what the socket answers; `json.loads` is a parameter.
-- Coalesce: waitbus/coalesce.py and the entity keys of waitbus/_terminal.py, over Client. `emit` is a
--   parameter, a function on a state of the caller's.
-- Emit: waitbus/_emit.py, the insert of waitbus/_db.py, and the records of waitbus/_types.py. The
--   events table is its rows in the order of `seq`; a batch is a list of events, with a place where its
--   iterable may raise. Delivered joins it to Broadcast: `daemon_rows` is the table as the daemon reads
--   it, with two parameters for the JSON texts that msgspec makes of a row.
-- Messaging: waitbus/_messaging.py, over Client and Emit, with the frame that waitbus/broadcast.py
--   makes of a row. `msgspec.convert` and the one-line summary are parameters.
-- Predicate: waitbus/_predicate.py, the `--match` predicates and their composition; `json.loads` is
--   a parameter.
-- Wait: waitbus/wait.py and waitbus/_compose.py, over Client and Predicate, from the open subscriber to
--   the exit code of the process.
-- On: waitbus/on.py, the wait for the next match and the restart loop. A round of the loop says what
--   comes next and where a signal raises; `overlapped` notes whether two children ever lived at once.
-- Ulid: waitbus/_ulid.py. A text is its code points; the clock and the random draw are arguments.
--
-- That a lost connection stays lost (`FaultsStay`) is what the kernel documents of a stream socket.
--
-- Not modelled: SQLite itself, metrics, the parsing of options and printing, the HTTP listener, the
-- pollers, the event sources, the MCP server, and the system services around the daemon: they are
-- calls of the system or of other packages, or text for a reader.
pub mod Prelude
pub mod Frame
pub mod Subscriber
pub mod Json
pub mod Subscribe
pub mod Broadcast
pub mod Client
pub mod Predicate
pub mod Ulid
pub mod Coalesce
pub mod Emit
pub mod Messaging
pub mod Wait
pub mod On
