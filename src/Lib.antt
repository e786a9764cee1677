-- ===== src/Lib.antt =====
-- The parts of AdGuard DNS that decide whose request it is and what is done with it, as definitions
-- that can be run, with proofs about them.
--
-- A request comes in over a connection that the limiter counts (ConnLimiter). The rate-limit
-- middleware (RateLimitMw) asks the device finder for its device, and the access settings (Access)
-- and the rate limiters (RateLimit) whether to drop it. The initial middleware (InitialMw) answers
-- the special domains. The device finder (DeviceFinder) tells from the transport data the profile
-- and the device that a request is from, with the lookups of the profile database (ProfileDb) and
-- the domains that the TLS side matches (CustomDomains). The composite filter of the profile (Filter)
-- decides on the request and on the response; one of its parts matches hashed host names
-- (HashPrefix). The main middleware (MainMw) calls it around the next handler and chooses the
-- message for the client, which the constructor (Messages) makes where it is blocked. The queries of
-- the device are counted (Billing) and the answers recorded (AnswerStats). The profile database is
-- filled from a storage by synchronisations, and from the file cache (FileCache) at a start.
--
-- Files, and the code that they are about:
-- - Base: Booleans and Boolean tests on numbers, lists, equality (Equality), texts (Text), maps as
--   association lists (Map). Net: the addresses and prefixes of net/netip. Samples: values for the
--   examples.
-- - Agd: internal/agd/profile.go, device.go, customdomain.go.
--   Agd/Ids: account.go. Settings: the configurations that profiles and devices hold
--   (internal/filter/config.go, internal/dnsmsg/blockingmode.go, internal/access/profile.go and
--   others). Schedule: internal/filter/schedule.go; Minutes has what it means.
-- - FileCache: the messages of internal/profiledb/internal/fcpb/fc.proto. Encode and Decode: the two
--   directions of internal/profiledb/filecacheopb. Parts, RoundTrip and Whole: what comes back of the
--   settings, of a profile, and of a cache.
-- - EditDistance: internal/agdalg/levenshtein.go. Recurrence: its reference definition. Rows and
--   Quick: the loops and the quick answers against it.
-- - ProfileDb: internal/profiledb/default.go. `Default` is the struct, its maps as association
--   lists; setProfiles, setDevices and setProfilesFull are `set_profiles`, `set_devices` and
--   `set_profiles_full`. Lookup has the ProfileBy methods: each returns with its result the
--   goroutines that it has started, which `run_task` runs, so that their interleaving with other
--   calls is explicit. Refresh has Refresh, refreshFull and loadFileCache. Keeps and Times have the
--   lemmas on what each operation leaves as it is.
-- - DeviceFinder: internal/dnssvc/internal/devicefinder. Data: devicedata.go. Search: device.go and
--   Find of devicefinder.go. Guarded: what holds of an answer.
-- - Filter: internal/filter. Rewrite: internal/rulelist/dnsrewrite.go. Collector:
--   internal/composite/result.go. Composite and its child Responses: internal/composite/composite.go.
--   Priority: the order in which its filters decide.
--   Composite/Safe and Responses/Safe: that neither direction panics.
-- - Messages: internal/dnsmsg/constructor.go and response.go. Blocked: what is in a blocked response.
--   Answers: that it answers the request.
-- - MainMw: internal/dnssvc/internal/mainmw. Filtering: filter.go, and filter of mainmw.go; its
--   children have what each step keeps. Record: record.go. Debug: debug.go. Handler: Wrap of
--   mainmw.go, where `wrap` leaves the calls that it has made as a list of events. Composite: the
--   composite filter of Filter as the middleware's. Outcomes: predicates of a result that may be a
--   panic.
-- - ConnLimiter: internal/connlimiter. A run is a list of events; each event is what one goroutine
--   does under the lock. Bounds: the limit. Leak: the exact count.
-- - RateLimit: internal/dnsserver/ratelimit/counter.go and internal/agd/ratelimit.go. Backoff:
--   backoff.go and allowlist.go, with the counters behind pointers, as the caches hold them. Hits: the
--   window of a subnet's hits, which is not that of doc/configuration.md. Subnets: a limiter of subnets without caches. Counted and Decided: the
--   limiter against it. Pointers: a cache of pointers with the store that they point into.
-- - Access: internal/access. Decision: what the profile's settings and the shared ones say together.
-- - RateLimitMw: internal/dnssvc/internal/ratelimitmw, with its calls as a list of events. Gate: which
--   queries are served.
-- - InitialMw: internal/dnssvc/internal/initial. Disclosure: what it tells of the resolvers.
-- - HumanId: internal/agd/humanid.go. Valid: the invariant of the normalizer. Parse: its result.
-- - CustomDomains: internal/tlsconfig/customdomainindex.go.
-- - Billing: internal/billstat/runtime.go.
-- - AnswerStats: internal/dnsdb/buffer.go and record.go.
-- - SortedMap: internal/tlsconfig/sortedmap.go, its keys numbers. Ordered: the order of the keys.
-- - HashPrefix: internal/filter/hashprefix/storage.go.
--
-- Numbers are natural numbers; a counter of 32 or 64 bits keeps its wrap-around. A time is a number
-- of nanoseconds or minutes, and the zero time is 0. All loops are structural recursion, over a list
-- or a count, so there is no fuel. Each call is one step under the lock that the code holds for it.
--
-- Outside the repository, and so parameters with laws where something is relied on: the sets and the
-- ring buffer of golibs (`DeviceSets`, `Rings`), the times of the protobuf module
-- (`WellKnown`), the address conversions of netutil and the texts of numbers and addresses
-- (`MainMw.Texts`), bcrypt's comparison, the time zones (`Calendar` and the names that the system
-- knows), go-cache (`Caches`), netutil's checks (`Names`, and the subdomain test of InitialMw),
-- urlfilter's rule engines (`Rules`, `Engines`), SHA-256 (`Sha256`), the storage behind the database
-- (`Outside`). The examples instantiate each of them.
--
-- Not modelled: network and file I/O, protocol servers, metrics, logs, configuration. Still arguments
-- of the model: the text parsers of the device finder (`DeviceFinder.Texts`), how the messages of
-- Filter and MainMw are those of each other (`View`), and the records that a rewrite makes
-- (`Answers`, with `dns.Fqdn`), and what RateLimitMw finds of the client's location and subnet
-- (`Located`). The interfaces that a middleware holds, its next handler and its writer answer by functions that the
-- theorems are stated for all of. Goroutines of several requests interleave in ConnLimiter, Billing
-- and the clean-up tasks of ProfileDb; the other components are taken call by call. The clock is read
-- once in a refresh of the profile database, and a stored password hash is not the nil slice.
pub mod Base
pub mod Net
pub mod Agd
pub mod ProfileDb
pub mod DeviceFinder
pub mod Filter
pub mod ConnLimiter
pub mod RateLimit
pub mod RateLimitMw
pub mod HumanId
pub mod CustomDomains
pub mod Billing
pub mod Access
pub mod AnswerStats
pub mod HashPrefix
pub mod SortedMap
pub mod Samples
pub mod Schedule
pub mod Settings
pub mod FileCache
pub mod EditDistance
pub mod InitialMw
pub mod MainMw
pub mod Messages
