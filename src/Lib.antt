-- ===== src/Lib.antt =====
-- hocuspocu-rs, a collaboration server for Yjs documents (crates hocuspocu-rs and
-- hocuspocu-rs-common).
--
-- A socket's frames reach its client connection, which queues those of a key until a client has
-- authenticated for it, asks the hooks, has the document created, and makes a connection. From then on
-- the connection's loop hands each frame to the message receiver; the receiver reads it, applies it to
-- the document, and answers through the sink of the socket. The document sends what it applied to all
-- its connections. A writer task per socket takes the queued commands to the wire. The server object
-- loads a document once, has a debouncer put off the stores of its changes, and unloads it when no
-- connection and no store is left; direct connections use it from inside the program.
--
-- Files, with the code they model:
--   Codec            hocuspocu-rs/src/encoding.rs: write_var_uint, Decoder::read_var_uint, ...
--   Common           hocuspocu-rs-common/src/close_events.rs, types.rs
--   Common/RoutingKey, Common/Auth    hocuspocu-rs-common/src/routing_key.rs, auth.rs
--   Common/Awareness    hocuspocu-rs-common/src/awareness_states.rs, skip_further_hooks_error.rs
--   Types            hocuspocu-rs/src/types.rs: message types and transaction origins
--   Types/Request    the same file: the request of a socket and its parameters
--   Types/Payloads, Hocuspocus/Payloads    what the hooks are called with: the records of types.rs, and
--                    what hocuspocus.rs and client_connection.rs put into them
--   Message          hocuspocu-rs/src/outgoing_message.rs, incoming_message.rs
--   Message/Frame    the protocol as a client reads it, an independent description of the frames
--   Sink             hocuspocu-rs/src/server.rs: the sink of a socket and its writer task
--   Yrs              what is used of the yrs crate, as the parameter `y` of the modules that use it
--   Document         hocuspocu-rs/src/document.rs (Document/Awareness: apply_awareness_update;
--                    Document/Access: what is read of connections, merge)
--   Receiver         hocuspocu-rs/src/message_receiver.rs
--   Connection       hocuspocu-rs/src/connection.rs (Connection/Setup: the setters of callbacks)
--   Client           hocuspocu-rs/src/client_connection.rs: the state, closing, pings, forwarding
--   Client/Handshake    the same file: handle_message and the way of a key to its connection
--   Client/Events    what may happen to a socket, from server.rs and the tasks of client_connection.rs
--   Debounce         hocuspocu-rs/src/util/debounce.rs
--   Hocuspocus/Loading, Hocuspocus/Blank    hocuspocu-rs/src/hocuspocus.rs: create_document
--   Hocuspocus/Configuring    the same file: new, configure, get_timeout, handle_connection,
--                    open_direct_connection; types.rs: Configuration
--   Hocuspocus/Hooks    the same file: the order of the extensions and the runners of the hooks
--   Hocuspocus/Hooks/Default    hocuspocu-rs/src/types.rs: the Extension trait's own methods
--   Hocuspocus/Storing    the same file: updates, stores, unloading, flushing, closing, counting
--   Hocuspocus/Storing/Disconnecting    the same file: the task behind a closed connection
--   Hocuspocus/Opening    the same file: load_document and the observer of updates
--   Hocuspocus/Persisting    the server's stores as its parts interleave: the observers of hocuspocus.rs,
--                    direct_connection.rs, flush_pending_stores and the tasks of util/debounce.rs
--   DirectConnection    hocuspocu-rs/src/direct_connection.rs
--   Server           hocuspocu-rs/src/server.rs: destroy
--   Server/Listening    the same file: the configuration, listen, the addresses
--   ExampleServer    hocuspocu-rs/examples/server.rs: the extension that keeps documents in memory
--   Base             shared lists, texts, maps and Rust's results (ok, err, and a panic)
--   Tests            concrete inputs
-- The other files below these hold proofs about them.
--
-- State is passed explicitly: a Room is a document and the store of sinks that it shares, an Exchange
-- is a room during one call of the receiver, a Peer is a connection, its room, and the log of the hooks
-- and callbacks called, a Client is a socket with all that its keys have, and a Hocuspocus is the
-- server's documents, its debouncer and the functions that the debouncer holds. Methods keep their
-- names. An inner match or an await of the code is a helper by clauses. A panic is a result of its own,
-- which ends the task it happens in. What a user supplies, the answer of a hook, is a parameter; where
-- it may change from call to call, it is given the number of calls before it.
--
-- Tasks that interleave are steps: create_document and the debouncer are step functions on the state of
-- each call or task, a turn of which goes to its next await, and a schedule is a list of such turns and
-- of what else may happen. Elsewhere an await at which the rest of the server may act is a function on
-- the state (`hook`, `meanwhile`, `sleep`) that may do anything; the look-ups of should_unload_document,
-- and what unload_document does behind the hook, are one step.
--
-- Bounds: a byte is a number below 256 and a usize a number below 2 ^ 64. `u64 + usize` wraps, as in a
-- release build. write_var_uint is given ten rounds, which every u64 fits in. A port has at most five
-- digits. process_loop is given one unit of fuel for each queued frame. Priorities are counted from the
-- least i32, times in milliseconds without a bound; the time of a change is by the debouncer's clock,
-- for that of the system. Functions, tasks, locks, documents and contexts that the code shares by
-- pointers are numbers.
--
-- Not modelled: sockets, the HTTP handshake and logging, whose outcomes are events or parameters; the
-- calls of hooks in load_document that do not change its result; the interleaving of two tasks in one
-- document, other than the order of the commands in a sink; of document.rs set_on_update, which nothing
-- in the program calls, set_before_broadcast_stateless, whose callback nothing calls, and the awareness
-- subscription. What a hook answers is a parameter, whatever payload it is called with.
-- create_document and unload_document have a state of the server each: that of create_document knows
-- unloading as the removal of a name and the result of load_document as a parameter;
-- open_direct_connection is given what create_document returned.

pub mod Base
pub mod Codec
pub mod Common
pub mod Types
pub mod Message
pub mod Sink
pub mod Yrs
pub mod Document
pub mod Receiver
pub mod Connection
pub mod Hocuspocus
pub mod Client
pub mod Debounce
pub mod DirectConnection
pub mod ExampleServer
pub mod Server
pub mod Tests
