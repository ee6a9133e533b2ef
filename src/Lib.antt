-- ===== src/Lib.antt =====
-- A verification library of the chat backend: its core under app/, as definitions that evaluate,
-- with the theorems that make it correct.
--
-- The program stores messages of two-user conversations in PostgreSQL and announces each change to
-- the users' devices. A request runs one method of `ChatService` (app/services/chat.py) in one database
-- session: it reads and changes the tables of app/models.py, stages one row of the outbox for each user
-- who must hear of the change, and commits both together. A relay publishes the outbox to Redis.
--
-- Files, with what they model:
--   Prelude       shared names, tests into Bool, lists, tables as lists of rows, ORDER BY, texts
--                 that are walked by character
--   Errors        app/errors.py: the errors as values, and the failures of libraries;
--                 Responses the handlers, with the last resort of app/middleware.py
--   Settings      app/config.py: the settings that the modelled parts read, and their validators
--   Models        app/models.py and app/schemas.py: the rows, the database and the events
--   Externals     the packages and the choices of the database, as parameters
--   Ids           app/ids.py: uuid7, and the codec of cursors as an interface; Codec fills it, over
--                 Base64, Python's URL-safe base64
--   Auth          app/auth.py and app/tokens.py: verify, the token of a WebSocket, minted tokens
--   Storage       app/storage.py: presign_upload
--   Api           app/api/v1.py: the endpoints; Schemas the validation of requests, app/schemas.py
--   Chat          app/services/chat.py
--     Session     a session: the committed database and the one that the transaction sees
--     Statements  what each SQL statement does with the tables, its constraints included
--     Common      the helpers that the operations share
--     Valid       the invariant of the database, Rely what other sessions may do to it
--     Send        send_message; Receipts mark_delivered and mark_read; Listing list_messages;
--                 Inbox list_conversations
--   Realtime      app/realtime
--     Relay       relay.py, OutboxRelay: a batch, the sweep, and the cycles of `_run`
--     Connection  hub.py, Connection: the queue of one WebSocket
--     Hub         hub.py, Hub: the registry, the requests and the subscriptions, in Dispatch the
--                 fan-out of a message and stop
--     Socket      app/api/ws.py, SocketSession: the frames of a client, the heartbeat
--     Endpoint    app/api/ws.py, chat_socket: the hand-shake and the life of a connection, the writer
--   Middleware    app/middleware.py: the id of a request, and what becomes of its response
--   Ops           app/api/ops.py readyz, app/bootstrap.py
-- The children of a module hold its proofs, and the module Examples its runs on concrete data.
--
-- How the code is read:
--   * A table is a list of rows, the newest first. Statements are functions on it: WHERE keeps rows,
--     UPDATE sets them, ON CONFLICT ON CONSTRAINT looks the row up first, ORDER BY sorts by insertion.
--     The checks of a row come before its unique constraints. An identity value that a rollback uses
--     up is given again.
--   * `Exec` passes the session and returns a result or a failure. Each failure is a value: `raised`
--     for AppError, others for the exceptions of SQLAlchemy and boto3.
--   * Other sessions commit at two points of a send: before its first write, and between its rollback
--     and its second look. What they do there is any function on databases; the theorems that need it
--     assume only `Rely`: they keep the invariant, and delete or change no message but in its receipts.
--   * Times are microseconds and UUIDs numbers, both ℕ. Texts in error messages that have a
--     parameter are values of `ErrorText`.
--   * The collation of the database, the order of RETURNING and of rows that ORDER BY does not tell apart,
--     the grapheme pattern and the object store are fields of `Externals`.
--   * A text column refuses a text that is longer than it is wide and, as PostgreSQL does, one with
--     U+0000. A text that is too long only by blanks at its end is refused, too, where PostgreSQL cuts it;
--     the validation of a request and the checks of user ids let no such text in but in a MIME type.
--   * A call of the service does not lose its connection to the database, and `generate_presigned_url`
--     returns: the credentials of the object store are there. The frames of a WebSocket do not assume the
--     first: `Link` says whether the connection is lost before or after the commit.
--   * `list_messages` has no loop. `sync`, a client that follows the cursors, takes fuel: one more than
--     the number of rows after the first cursor is enough, since each page but the last has a row.
--   * A batch of the relay is one step on the database and on the list of what Redis has received:
--     the rows that other relays hold are a predicate, and the pipeline may break after any command.
--     `drain`, the cycles up to the first batch that does not fill up, takes fuel: one batch more than
--     there are rows is enough.
--   * A hub's run is a list of events: devices that join and leave, and the steps of the pub/sub loop,
--     which may lose its connection between any two. A connection is known by its `id`.
--   * PyJWT, boto3's signer, `str.lower`, UTF-8 and the text formats of times and UUIDs are
--     parameters. PyJWT ends in a result, in an error of its own or in another exception, and the signer
--     may raise. What pydantic reports on a request that it rejects is an argument of the endpoint. An
--     endpoint is an action of the request's session.
--   * `_dispatch` acts on the connections as a function from their ids, and `none` is the AttributeError
--     that `_observe_latency` can raise.
--
-- Not modelled: the migrations, how asyncio runs and cancels the three tasks of a WebSocket's session, the
-- indexes of the tables, metrics and logging, the start of the application and the command line tools:
-- libraries, glue, or left for later.
pub mod Prelude
pub mod Errors
pub mod Settings
pub mod Models
pub mod Externals
pub mod Ids
pub mod Auth
pub mod Storage
pub mod Chat
pub mod Api
pub mod Realtime
pub mod Middleware
pub mod Ops
