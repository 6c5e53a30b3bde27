-- ===== src/Lib.antt =====
-- Verification of EgressDNS, an adaptive caching DNS forwarder (Rust).
--
-- The daemon answers DNS for a LAN. A client query passes the access list and the rate limiter; names
-- of the special-use registries are answered on the spot; the rest is looked up in the cache, and on a
-- miss goes to the scheduler, which picks an upstream route by its health and circuit breaker. Concurrent
-- misses for one key share one upstream query. The answer policy orders the addresses of each RRset by
-- what is known of them, may add verified Cloudflare addresses to an answer that is not signed, and cuts
-- the TTLs by the client TTL policy.
-- Background work validates answers and writes its verdicts into the cache, and probes addresses: a gate
-- drops duplicate offers, the guard refuses special-use addresses, foreign ports and calls that come too
-- soon, and the DER walker reads the certificates that are met.
--
-- Parts and files (paths from the repository's root):
-- - Prelude: names shared by all files. Numbers are naturals; an `Instant` or a `Duration` is a count of
--   nanoseconds, bytes and fingerprints are numbers, and what wraps or saturates in the source is
--   written out. `Prelude.Dict` has `HashMap` as an association list, `Prelude.Partial` the `?` of
--   `Option`. Code that takes `&mut self` returns the new record.
-- - Cache (src/cache/mod.rs): `Cache.Name` has the owner names, `Cache.Entry` the data and their clocks,
--   `Cache.Moka` what is relied on in the moka cache, `Cache.Variants` the list work of `record_variant`,
--   `Cache.Dns` the calls of `DnsCache`, `Cache.History` histories of calls. Messages are a type
--   parameter; record types, classes, response codes and fingerprints are numbers.
-- - RateLimit (src/dns/ratelimit.rs): `InboundLimiter` and its two generations of clients. The buckets of the
--   governor crate are a parameter, shared between the generations by their index.
-- - Ttl (src/policy/ttl.rs): `effective_client_ttl`.
-- - Acl (src/dns/acl.rs): `Acl`. The networks of the ipnet crate are a parameter.
-- - SpecialUse (src/dns/specialuse.rs, and `is_loop_marker` of src/config/auto.rs): the classification of names.
-- - Health (src/upstream/health.rs): the statistics that `RouteHealth` records and its circuit breaker;
--   `Health.Circuit` runs any sequence of attempts, ticks and reservations,
--   `Health.Score` has what is read from the statistics. `Float` is the f64 arithmetic,
--   a parameter of which nothing is assumed, and `Util` the hash of src/util/mod.rs.
-- - Upstream (src/upstream/pool.rs, src/upstream/scheduler.rs): the routes of a group, which are shared, are the
--   store. `Upstream.Rank` orders them, `Upstream.Attempt` is one attempt, `Upstream.Resolve` and
--   `Upstream.Loop` are `Scheduler::resolve`: attempts that run at the same time are a list of pending ones,
--   and an event says which of them moves on and what it meets (the time left, the semaphore, the reply). Any
--   order of events is a run, and `Upstream.Load` bounds their number. `Upstream.Opinions` asks a second
--   resolver. What the code looks at in a reply is in `Message.Replies` (src/dns/message.rs).
-- - Resolver (src/dns/resolver.rs, and `ResolveError` of src/error.rs): `Resolver.Stale` has the refresh of
--   expired answers and the table of attempts behind it, `Resolver.Misses` what the caches are asked,
--   `resolve_miss` from the join to what is remembered of a failure, and the checks of both failure TTLs
--   (src/config/validate.rs). What `fetch` returns, and what a follower receives, are arguments, and the
--   result is the entry or the error that the reply is built from.
-- - Hotset (src/cache/hotset.rs): the popularity of keys. A `HashMap` is a list in the order in which it is
--   iterated; `Hotset.Bounds` lets that order change at any time, and an observation says where the row of
--   successors stands that is lost when there are too many. The f32 numbers are the floats of `Float`.
-- - Gate (src/probe/gate.rs): `OfferGate`. The printed form of an address is a parameter.
-- - IpClass (src/util/ipclass.rs): the tables of special-use ranges and the classification of addresses. The
--   prefix test of the ipnet crate is a parameter.
-- - Der (src/util/der.rs): the DER reader and the two facts taken from a certificate. SHA-256 and the lossy
--   decoding of UTF-8 are parameters. The loop of `find_common_name` has the length of its buffer plus one
--   as fuel, which is enough since each value read takes at least two bytes; its recursion has as many
--   levels as `MAX_DEPTH` allows.
-- - Message (src/dns/message.rs): the sections, records and TTLs of a message. Its names, and record data
--   that is passed on unread, are parameters.
-- - Policy (src/policy/cloudflare.rs): when Cloudflare's addresses may be reordered or added to, and
--   `Policy.Domains` the allow and deny lists of domains there. `Policy.Answer` and `Policy.Apply` are
--   src/policy/answer.rs: an RRset is the list of its indices in the answer section, as in the code.
--   `Policy.Permitted` says what may be done to an answer, and the proofs that no more is done go loop by
--   loop. `Policy.Corroborate` (src/policy/corroborate.rs) compares the answers of two upstreams; `Policy.Terminal`
--   and `Policy.Suffix` say what it compares. Prefixes
--   (src/cloudflare/prefixes.rs): membership in the published networks.
-- - Ranking (src/ranking/mod.rs): the order of the addresses of an RRset. The statistics of an address are
--   what the code asks of them; `Ranking.Model` (src/ranking/model.rs) has the statistics themselves, and
--   `Ranking.Evidence` runs any observations and network changes.
-- - Dnssec (src/policy/dnssec.rs): the state of an answer from the proofs of its records.
-- - Cloudflare (src/cloudflare/state.rs): the configured mode and its override; the atomics are fields.
-- - Guard (src/probe/safety.rs): the limits and state of `ProbeGuard`, and `Guard.Admission` its calls. A
--   call under the lock is a chain of gates, each of which may refuse and keeps the state it has changed.
-- - Flight (src/cache/singleflight.rs): the request coalescing, one shard at a time.
-- - Deadline (src/dns/deadline.rs): the time left to a nested operation. The task-local is an argument.
-- - Net: addresses.
--
-- Not modelled: the servers, transports and tasks that call these parts (network I/O and tokio), message
-- parsing and printing (the hickory crate), storage (SQLite), metrics, the command line tools, the
-- configuration's reading and most of its checking, the resolver's building of replies, and the
-- validations that the Cloudflare state keeps.
pub mod Prelude
pub mod Cache
pub mod Net
pub mod RateLimit
pub mod Ttl
pub mod Acl
pub mod Guard
pub mod Health
pub mod Hotset
pub mod Resolver
pub mod Upstream
pub mod Util
pub mod Float
pub mod Gate
pub mod Der
pub mod Message
pub mod Policy
pub mod Prefixes
pub mod Ranking
pub mod Cloudflare
pub mod Deadline
pub mod Dnssec
pub mod Flight
pub mod IpClass
pub mod SpecialUse
