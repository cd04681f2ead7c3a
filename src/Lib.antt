-- ===== src/Lib.antt =====
-- A verification library of hexeract: its durable scheduler, the request and reply side of its
-- message bus, the security of its envelopes, its RabbitMQ consumer, and its outbox worker.
--
-- The durable scheduler, crates/hexeract-scheduler, keeps schedules in a store. A worker claims due
-- rows under a lease, hands each to a sink and acknowledges it: delivered, advanced to the next
-- occurrence, retried later, or dead-lettered. Scheduler/Types holds the data (target.rs, trigger.rs,
-- schedule.rs, lease.rs, snapshot.rs, error.rs), Scheduler/Store and Scheduler/Lifecycle the
-- in-memory store (memory.rs) and the operators' calls (admin.rs), Scheduler/Cron the triggers
-- (trigger.rs), Scheduler/Worker the worker and its builder (worker.rs, builder.rs), and
-- Scheduler/Control the control facade (control.rs). A store is its rows, an association list in the
-- place of a hash map, in any order; each call is a function on the rows, with the
-- reading of the clock that it makes as an argument. Scheduler/Invariant has the calls as data and a
-- history of calls as a list; Claims, Contract, Fencing, Acks, Machine, Life, Building, Settling,
-- Polling, Pacing and Operator hold the proofs.
--
-- The request registry, crates/hexeract-bus, routes a reply to the caller that waits for it.
-- Bus/Envelope is envelope.rs and rpc_protocol.rs, Bus/Reply is reply_acceptance.rs with its enums,
-- Bus/Retired is slot_retirement.rs and Bus/Registry is request_registry.rs. The channel between the
-- registry and a caller is the slot itself: `resolve` returns what it delivers. Registry/Upkeep,
-- Routing, History, Delivery, Stragglers and Winning hold the proofs.
--
-- Bus/Responder is the other side, the handler that answers a request (replied_handler.rs,
-- remote_error.rs); Responder/Answers proves what the caller's registry makes of its replies.
-- Bus/Client is the caller's reading of a reply (request_client.rs, request_error.rs), with its
-- proofs in Client/Accepted.
--
-- Bus/Deadline is deadline.rs: the deadline that a request carries, with its Laws.
--
-- The security of an envelope, crates/hexeract-bus/src/envelope_security, signs an envelope for a
-- destination and verifies it there. Bus/Security/Types is protocol.rs, identity.rs, error.rs,
-- key_source.rs, policy.rs and principal.rs, Security/Canonical the bytes that a signature covers
-- (canonical.rs), a list of segments, and Security/Verifier the signer and the verifier (signer.rs,
-- verifier.rs). Canonical/Framing, Parsing, Covered and Order, and Security/Soundness, Acceptance,
-- Completeness and Throttle hold the proofs; Bus/Error is error.rs.
--
-- The RabbitMQ transport, crates/hexeract-bus-rabbitmq/src, carries an envelope as an AMQP delivery.
-- Rabbit/Metadata measures AMQP values and Metadata/Encoding encodes and decodes the headers
-- (metadata.rs), Rabbit/Delivery makes an envelope the properties of a delivery and back
-- (transport.rs, worker.rs), Rabbit/Worker and Rabbit/Settlement are the consumer's handling of one
-- delivery (worker.rs), a list of actions. Metadata/Measure, Keys and RoundTrip, Delivery/RoundTrip
-- and Signed, and Settlement/Once, Vouched, Handled and Kept hold the proofs.
--
-- The outbox worker, crates/hexeract-outbox/src/worker.rs, polls a store, claims a batch and settles
-- each envelope in a transaction of its own. Outbox/Worker has it over any implementation of the
-- store trait, a record of functions; Outbox/Outcome holds the proofs.
--
-- Backoff is the retry delay that the scheduler's worker shares with the outbox worker.
--
-- Numbers. An instant is its number of nanoseconds after the first one that a `SystemTime` can
-- represent, and a duration its nanoseconds, both with the checks of the standard library at their
-- last value (Clock). A `u32` or `u64` is a natural number; what wraps or saturates in the source is
-- written so. The loop over the stack of AMQP values has the number of nested values as fuel, of
-- which each step takes one off; every other loop of the source that is modelled runs over a list.
--
-- Parameters. The cron engine isochron and the range of `time::OffsetDateTime` are a record of
-- functions, whose documented behaviour is a hypothesis where it is used; parameters too are the parser of the
-- uuid crate, the decoder of serde_json, the random number generator and the `Display` of errors.
-- The signature scheme, SHA-256 and base64 are a record of functions, a `Scheme`; the decoder of
-- UTF-8, the test of lapin for a short string, the broker's answers, the handlers and, for the consumer, the
-- verifier are parameters too. Where it matters that a
-- signature is no forgery, a hypothesis says so of the signature that the envelope carries.
--
-- Not modelled: the SQL stores, the connection, the channels, the pool, the topology and the
-- confirms of the RabbitMQ transport, and the request client around its reading of a reply, which are
-- input and output; the run loops of the workers, the sinks, the reading of the deadline header, the
-- mediator and its middleware, the macros and the command line.
pub mod Backoff
pub mod Bus
pub mod Clock
pub mod Common
pub mod Outbox
pub mod Rabbit
pub mod Scheduler
