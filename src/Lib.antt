-- ===== src/Lib.antt =====
-- Verification of the relay's control plane: sessions in Redis, events and the jobs that follow
-- them, payments and their authorization at routers, the client of the routers' API, and the signatures
-- of requests.
--
-- The program. A backend sends events (trial, release, revoke, payment). `EventConsumer` fetches
-- them, drops those already processed and hands the rest to `processEvent`, which validates an event,
-- asks the circuit breaker and the status of its peer, issues an action to a router, and records jobs
-- in the job store: the revocation that ends a trial, and a retry of what failed. The job runner takes
-- the due jobs, each under a lock. A confirmed payment is kept pending in the identity store. Beside
-- this, a client that comes back at a hotspot has its pending payment authorized at its router by the
-- identity service, which keeps away from routers whose health is bad and retries by jobs. Requests of
-- the backend carry an HMAC and a nonce. And the HTTP edge keeps each hotspot session in Redis, with
-- indices by IP, MAC and order, and authorizes and revokes it on the router under a distributed lock.
--
-- Files and the code they model:
--   Base: names and helpers that all share; Base/Dict for a JavaScript Map, Base/Text for trim.
--   Redis: GET, SET with PX, SET NX and DEL of a store with expiry, as an interface with laws;
--     Redis/Memory is an instance, used for runs on concrete inputs.
--   SessionStore: src/services/sessionStore.js. The module itself has the constants, the states, the
--     record of a session, the keys and the TTL; Exec the monad of Redis commands, clock, random
--     values and router calls; Ops the locks, createSession, getSession, updateSession, the searches
--     and deleteSession; Lifecycle getOrCreateSession, authorizeSession and revokeSession. Locks,
--     Frame, Ttl, Authorize, AuthorizeFails, Revoke, Final, Indices, Find, Create, GetOrCreate and
--     WithLock have the proofs.
--   CircuitBreaker: src/services/circuitBreaker.js; proofs in Invariant and Trace.
--   JobStore: src/services/jobStore.js, the file backend and the in-process locks; Hash and Redis
--     the jobs of the Redis backend, over interfaces of a sorted set and of hashes (Redis/Memory has
--     instances); proofs in Laws, Locks and Redis/Refine.
--   StateMachine: src/services/stateMachine.js. Mac and Validate check an event, Process acts on it;
--     proofs in Outcomes, Trial and Breaker.
--   EventConsumer: the loop of _tick in src/services/eventConsumer.js; proofs in Once.
--   JobRunner: runDueJobs of src/services/jobRunner.js; proofs in GiveUp and Retry.
--   IdentityStore: src/services/identityStore.js; Actions has the applied actions and prune; proofs
--     in Laws and Payments.
--   Errors: src/services/errors/classifyError.js and src/services/errors/normalizeMikrotikError.js;
--     proofs in Laws.
--   MikrotikApi: src/services/mikrotikApi.js, the encoding of sentences and parseReply; Client has
--     runCommands as steps on what its socket reports; proofs in Lengths, Replies, Session and
--     Exchange.
--   Authorize: src/services/authorize.js, src/services/mikrotik.js and getMikById of
--     src/config/mikrotiks.js, with readAll and getDeviceByToken of src/registry/deviceRegistry.js;
--     Commands has src/services/paidClientAccess.js; proofs in Errors.
--   ActionHandler: src/services/actionHandler.js; proofs in Answers.
--   RouterHealth: src/services/routerHealth.js; proofs in Circuit and Shared.
--   HotspotParsers: extractRows of src/lib/hotspotParsers.js; proofs in Levels and Depths.
--   HotspotManager: src/services/hotspotManager.js; proofs in Bindings.
--   IdentityService: src/services/identityService.js. The module itself has what both functions share,
--     Refresh refreshAndAuthorize and Retry retryAuthorizePending; proofs in Steps and Bounds (retries),
--     Calls, Applied and Payment (payments), and Router (on top of Authorize).
--   HmacVerify: src/security/hmacVerify.js, which no other file imports; proofs in Replay and Signature.
--
-- Functions keep their names, in snake case. A function of a module that keeps state takes the state
-- and returns the new one; one that can throw returns Option or, in the session store, a result with
-- the error. null and undefined are both `none` where the code treats them alike.
--
-- Bounds. Numbers are natural numbers: times are milliseconds since the epoch, and a subtraction
-- of times stops at 0 where the code's could be negative, which no comparison in the code tells apart.
-- The 60 attempts of acquireLock are recursion on the attempts left. The loop of parseReply runs on
-- fuel, one round for each byte of the buffer, as each round reads at least one, and that of extractRows
-- on one round for each value.
--
-- The world of the session store. Each Redis command can fail, as a schedule of faults says; the
-- clock moves only while the code sleeps; random tokens and ids are drawn from counters, so that they
-- are fresh. What holds while Redis serves every command is stated for worlds without faults ahead.
--
-- Not modelled: the HTTP routes, the WireGuard commands, Prisma, metrics, audit and logs (input and
-- output); the cleaner, the monitors, the reconciler and listSessions; the
-- SQLite backend of the job store; the heartbeat of the job runner's
-- locks; and the fetchers and acknowledgements of the event consumer. Node's crypto (the HMAC) and the
-- sockets are parameters.
pub mod Base
pub mod CircuitBreaker
pub mod Redis
pub mod SessionStore
pub mod JobStore
pub mod StateMachine
pub mod EventConsumer
pub mod JobRunner
pub mod IdentityStore
pub mod Errors
pub mod MikrotikApi
pub mod HmacVerify
pub mod RouterHealth
pub mod HotspotParsers
pub mod Authorize
pub mod HotspotManager
pub mod ActionHandler
pub mod IdentityService
