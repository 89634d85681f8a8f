-- ===== src/Lib.antt =====
-- RelayTerm: the terminal sessions of the backend, modelled and verified.
--
-- The backend keeps SSH terminals alive while clients come and go. A live session has one forwarder:
-- it numbers the chunks of output, puts them into a bounded replay buffer, sends them to the attached
-- clients as binary frames, and hands them to the recording writer. The manager owns the registries of
-- live sessions and of attached clients, keeps the rows of the database in step, and closes a session
-- some time after its last client has left. A worker purges expired recordings. The login route asks a
-- throttler before it checks a password, and opens a login session, which a cookie then names. Before the
-- backend logs in to a server, the key of the server is compared with the pinned keys of the host. A
-- launch checks the caller's rows, pins and quotas, opens the vault, and asks the SSH bridge for a PTY;
-- a WebSocket then carries its output and the client's messages.
--
-- Files and what they model (paths from the repository's root):
--   Replay, Replay/*        crates/relayterm-terminal/src/replay.rs: ReplayBuffer new, push, replay_since
--   Frame, Frame/*          crates/relayterm-protocol/src/binary.rs: encode_binary_frame, decode_binary_frame
--   Recording, Recording/*  crates/relayterm-terminal/src/recording.rs: record_output, record_marker,
--                           shutdown (`shut_down`), writer_task; Task is the task, Producer the callers
--   Throttle, Throttle/*    crates/relayterm-auth/src/throttle.rs: check, record_failure, record_success, cleanup
--   Sessions, Sessions/*    crates/relayterm-db/src/repositories/terminal_session.rs: the statements on one
--                           row, over the types of crates/relayterm-core/src/terminal_session.rs, and the
--                           transaction that closes orphaned sessions at start-up (Reconcile)
--   Manager, Manager/*      crates/relayterm-terminal/src/manager.rs: Lifecycle has create, start and close,
--                           Attach has attach, detach, the detach timer and resize, Pty has the forwarder,
--                           the input, the replay and the counts
--   Corpus, Corpus/*        crates/relayterm-db/src/repositories/terminal_recording.rs: the tables of recordings,
--                           their inserts and reads, and the purge of one session
--   Retention, Retention/*  crates/relayterm-terminal/src/retention.rs and retention_worker.rs: the sweep, the
--                           tick and the loop of the worker, and its advisory lock
--   Auth, Auth/*            crates/relayterm-auth/src/service.rs, the repositories of users, passwords and login
--                           sessions, the request bodies, the origin check, the cookie and the extractor of the
--                           user; Login and Account are the handlers of routes/v1/auth.rs, Serve its router
--   HostKeys, HostKeys/*    crates/relayterm-db/src/repositories/known_host_entry.rs, with Replace for
--                           replace_active_pin, and classify_host_key of crates/relayterm-ssh/src/preflight.rs
--   Socket, Socket/*        crates/relayterm-api/src/routes/v1/terminal_sessions.rs: the WebSocket of a session.
--                           Handlers has the handlers of the client's messages, Run the attach, the loop with
--                           the broadcast and the exit, Stream what a client sees of the output
--   Launch, Launch/*        create of the same file with the quotas of a launch, over the rows of
--                           crates/relayterm-core/src/server_profile.rs, host.rs and ssh_identity.rs and the
--                           target of crates/relayterm-ssh/src/pty.rs; Serve is a sequence of requests
--   Validation, Validation/* crates/relayterm-core/src/validation.rs: the checks of names and tags
--   Prelude, Prelude/*      shared tests, lists and association lists
--
-- How the code is rendered. A `&mut self` method is a function from state to state; a handler of the
-- manager, a route and a statement of the database are functions in a state monad with errors
-- (Prelude/Calls), and `faults` says which calls of a repository fail. Digests and password hashing are
-- fields of a record that the handlers take (Crypto), and so are the vault and the bridge (Services).
-- HashMaps and tables are association lists, the pins a list. Times and ids are numbers and arguments, as
-- are the answers of the repository of recordings and of the PTY's handle. Unsigned words are natural numbers
-- with the wrap-around and the saturation written out. No loop has fuel: each is recursion on a list.
-- An `async` handler runs whole, and a background task is a step of its own, so that a list of steps is
-- one interleaving: two launches whose calls of the bridge overlap are not covered. The database's clock and
-- the backend's are one, and the rounding of times to microseconds is left out.
--
-- Not modelled: the routes other than those of auth, the launch and the WebSocket, the configuration, the
-- SSH client and its probe, the other repositories, and the applications outside the backend; log lines,
-- texts of errors, and the time limits on waiting for a task to end. The vault and the SSH bridge are
-- parameters of the launch.
pub mod Prelude
pub mod Replay
pub mod Frame
pub mod Throttle
pub mod Recording
pub mod Sessions
pub mod Manager
pub mod Corpus
pub mod Retention
pub mod Auth
pub mod HostKeys
pub mod Socket
pub mod Launch
pub mod Validation
