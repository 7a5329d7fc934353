-- ===== src/Lib.antt =====
-- The core of the IICP Rust client, a node and client for a mesh of inference providers.
--
-- A consumer routes a task to a provider, which admits it, runs it under a lifecycle and answers it
-- in frames. The parts below are the ones that keep state or decide; the servers, sockets and
-- cryptography around them are not modelled.
--
-- - Lifecycle models src/service_lifecycle.rs. Store is LifecycleStore, a table of tasks with their
--   events; a submission binds a task to an idempotency key and a digest, a transition moves it along
--   the edges of States. Observer is BoundedObserverBuffer, Cancellation is
--   BackendCancellationRegistry, and Http is the router in front of the store with its authorizer.
--   Accounting is src/service_lifecycle_accounting.rs. Sqlite is the store of
--   src/service_lifecycle_sqlite.rs, two tables that each call reads and writes in one transaction,
--   and Detail is what of an event's detail it stores; the JSON library is the interface Json, and a
--   detail is taken to come back from its text as it was.
-- - Routing models src/routing_policy.rs and the types of src/types.rs that it reads: Policy resolves
--   a profile and its overrides, Filter decides on each node.
-- - Dispatch models src/dispatch_admission.rs and src/dispatch_admission_sqlite.rs: a ticket is consumed,
--   moved to a terminal state and cleaned up. Its signature is the flag trust_verified of evaluate.
-- - Native models src/native_response_sequence.rs (Responses), src/native_call_identity.rs (Calls) and
--   the frames of src/iicp_tcp.rs (Frames).
-- - Provider models src/concurrency.rs (Concurrency), src/idempotency.rs (Idempotency),
--   src/scheduler.rs (Scheduler), the policy of src/cip_policy.rs (Cooperation), the rules of
--   src/recovery.rs (Recovery) and the state of src/runtime_health.rs (Health).
-- - Relay models src/relay_ticket.rs (Tickets), the sessions and the registry of src/relay_session.rs
--   (Sessions), the binds of its handle_relay_connection and of relay_bind_endpoint in src/node.rs
--   (Binds), the streams that a session forwards (Streams) and the frames on the wire (Frames).
--   Decoding a ticket and checking its signature is the argument open_ticket.
-- - Peers models src/restricted_membership.rs (Membership) and src/peer_manager.rs: the manager's state
--   and whom it admits (Manager), its tables (Table), the exchanges that it accepts (Exchange), the
--   answers that it merges (Gossip) and the election of a relay (Election). Keys, hashes, URLs and
--   floats are the interfaces Evidence, Platform, Wire and Ranking; an entry is what the code reads of
--   a peer's JSON.
-- - HttpResource models src/http_resource.rs: the headers and sizes that the HTTP task binding accepts.
-- - Base holds what the parts share: Boolean tests, lists, association lists (Dict), machine words
--   (Words) and texts as code points (Texts).
--
-- Functions, fields and constructors have the names of the source. A method that changes its object
-- takes it as an argument and returns the new one with the answer. A HashMap is an association list
-- with one entry for each key; nothing that is stated depends on the order of a HashMap. A mutex makes a
-- method one step; where a method locks more than once (cancel of the store, a call on the
-- cancellation registry, a bind to a relay) what others do between the locks is an argument, and where a
-- method is lock-free (acquire of the concurrency gate) each atomic access is one step of a schedule.
-- Clocks are arguments, in the unit of the source.
--
-- A u64 is a natural number; additions wrap at 2 ^ 64 or saturate as the source says, and subtraction
-- stops at 0 where the source saturates. A sum that the compiler checks in a debug build wraps here,
-- as in a release build. Sqlite refuses a u64 that does not fit an i64 when it is written. An i64 is the
-- ℤ of Words. A JSON value that is only passed on is the type V; where the code reads texts or flags out
-- of JSON, the JSON is the function from a key, or a path of keys, to what serde_json finds there. SHA-256
-- is the argument digest, and a failure of the database is the argument fault, since a transaction that
-- fails leaves the table as it was.
--
-- All loops are structural recursion on a list, so no fuel is needed; the loop of the concurrency gate
-- is one step for each turn of the schedule.
--
-- Not modelled: the schema of the databases; servers, sockets, NAT and tunnels; signatures and
-- encryption; the command line; the requests that the peer manager sends; the choice of candidates and
-- the evaluators of profiles; the load fraction and other floats.
pub mod Base
pub mod Lifecycle
pub mod Provider
pub mod Native
pub mod Dispatch
pub mod Peers
pub mod HttpResource
pub mod Relay
pub mod Routing
