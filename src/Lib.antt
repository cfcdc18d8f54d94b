-- ===== src/Lib.antt =====
-- A verification library for the Rust core of localsend_rs, an implementation of the LocalSend
-- protocol. A sender announces itself on the network, opens a session with a receiver over HTTP
-- and uploads files; peers that cannot reach each other go through a relay, which speaks a subset
-- of TURN over TCP (RFC 6062) and keeps a registry of devices.
--
-- Parts and files (paths from the repository's root):
--   Base, HashMap      lists, native numbers, keys with decidable equality, and the map of the
--                      standard library as an association list with one entry to a key; its
--                      order of iteration is the order of insertion.
--   Model              rust/core/src/model.rs: the shared data types; Model.Devices: conversions
--                      between devices, announcements and sender infos.
--   Session            rust/core/src/session.rs: the actor that owns all sessions. Session.State
--                      is its data; Session.Transitions the methods set_state, set_file_state,
--                      check_finish, fail_session and cancel_session; Session.Create,
--                      Session.Decide and Session.Actor the branches of handle_message and the
--                      loop. Session.Step and Session.Move give every message as a sequence of
--                      moves (one session is written, or one is opened), on which the invariants
--                      of Session.Capacity, Session.Answers and Session.Lifecycle go by
--                      induction; Session.Accepting and Session.Finishing follow one message,
--                      Session.Unsettled, Session.Progress and Session.Uploading one file, for
--                      Server and Sender.
--   Device             rust/core/src/device.rs: the actor of known devices and its notices.
--   Stun               rust/core/src/relay/stun.rs: the message codec that the relay's client and
--                      server share. Byte strings are lists of numbers below 256.
--   TurnServer         rust/core/src/relay/turn_server.rs: one STUN connection of the server. It
--                      uses Stun for the packets; the parked sockets (PENDING) are shared with
--                      the other connections and are passed in and out.
--                      TurnServer.Permissions and TurnServer.Rounds follow the permissions
--                      through the handlers and the loop; TurnServer.SignedRequests joins the
--                      client's encoder to the server's check.
--   TurnClient         rust/core/src/relay/turn.rs: the client's requests and its reading of
--                      replies, without the socket.
--   DiscoveryServer    rust/core/src/relay/discovery_server.rs: the registry of devices.
--   Tofu               rust/core/src/relay/tls.rs: the certificates pinned on first use. A handshake
--                      takes the lock of the store twice, so that it is two events, and the
--                      handshakes that share a store interleave.
--   Server             rust/core/src/server.rs and rust/core/src/util.rs: the receiving server.
--                      Server.Routes and Server.Upload are the handlers, over the device actor,
--                      the session actor and a disk; Server.Paths is dedup_path, Server.Files the
--                      write of a body, Server.Ports and Server.Listener the socket's side.
--                      Server.Step and Server.Completion follow uploads to the end of a session,
--                      Server.Consent (on Session.Consent) a request to the user's decision.
--   Tui                rust/cli/src/state.rs: the state of the text interface and its reducers.
--   Credentials        rust/core/src/relay/credentials.rs: time-limited user names.
--   Panel              rust/relay-panel/src: login sessions and the panel's registry.
--   Bridge             the bridge side of rust/core/src/relay/turn_server.rs and its clients in
--                      rust/core/src/handle.rs: Bridge.Commands is the text on the wire,
--                      Bridge.Pairing the registry as a relation of steps.
--   Heartbeat          rust/core/src/handle.rs, relay_discovery: the merge of the relay's list of
--                      devices into those that the device actor knows.
--   Sender             rust/core/src/handle.rs, run_send_driver: the messages that it sends to the
--                      session actor. What the client and route_transport answer is a world, a
--                      record that the theorems leave open.
--
-- State is passed explicitly. An actor's messages are handled one after another in the order of
-- its channel, so `run` folds over them. A reply on a oneshot channel is the second part of a
-- handler's result; what is sent on a watch channel is a list, newest first. Errors are values of
-- a result type; Stun.Types.Result also has `panic` for an index out of range or a subtraction
-- below zero, and `stuck` for a loop that ran out of fuel.
--
-- What runs beside a handler is an explicit list: the messages that the session actor gets while a
-- request waits or a body is received, the pieces of a body, the connections that arrive, one that
-- sends nothing among them. The addresses that the TURN server connects to are logged in its
-- session. Texts that the code takes apart are lists of character codes, read as ASCII.
--
-- Fuel: decimal digits are printed with 20 rounds, which a u64 never exceeds. The attribute loop
-- of `decode` gets `length buf` rounds; each round moves on by at least 4 bytes and the loop ends
-- at the end of the body, so it never runs out. `serve` gets a number of calls, and as many as
-- there are connections are enough.
--
-- Parameters: `Uuid::new_v4` in Session and Panel; HMAC-SHA1, MD5, SHA-256, base64, lossy UTF-8,
-- JSON, the clock, random numbers and TcpStream::connect in the relay's parts; the answers of the
-- file system and the ports in Server; the peer's and the network's answers in Sender. Hypotheses
-- on them are few: a MAC has 20 bytes, base64 prints bytes, a later UUID differs from an earlier
-- one.
--
-- Not modelled: sockets, tasks and timers; HTTP, TLS, QUIC and the byte pipes of the relay; the
-- files of settings, pins and identities; the handles that only send a message to an actor; the
-- command line and the drawing of the text interface; the panel's pages, metrics and SQL store; and
-- the bindings for Flutter.
pub mod Base
pub mod HashMap
pub mod Model
pub mod Device
pub mod Session
pub mod Stun
pub mod TurnServer
pub mod TurnClient
pub mod DiscoveryServer
pub mod Tofu
pub mod Server
pub mod Tui
pub mod Credentials
pub mod Panel
pub mod Bridge
pub mod Heartbeat
pub mod Sender
