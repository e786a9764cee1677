-- ===== src/RateLimitMw.antt =====
-- internal/dnssvc/internal/ratelimitmw: the middleware that drops a query before it is served. It is the
-- first that a query meets: it looks at the access settings and at the rate limits.
pub mod Gate
mod Examples
use ad_guard_dns.Base.{
  ℕ, Bool, true, false, String, List, [], ◌∷◌, ◌++◌, Option, some, none, eqb, contains, nat_eq,
  trim_dot, if◌then◌else◌,
}
use ad_guard_dns.Net.{Addr}
use ad_guard_dns.Agd.{DeviceSets, Profile, Device}
use ad_guard_dns.Access.{
  Engines, Question, Global, StandardBlocker, is_blocked_ip, is_blocked_host, is_blocked,
}
use ad_guard_dns.RateLimit.{RatelimitResult, passes, drops, use_global}
use ad_guard_dns.RateLimit.Backoff.{Limited, answers, addr_error, allowlist_error, panics}
use ad_guard_dns.DeviceFinder.{
  DeviceResult, result_ok, result_error, unknown_dedicated, authentication_failure,
}
use ad_guard_dns.MainMw.{Served, serve_error, served}
use ad_guard_dns.Filter.{Outcome, done, panicked}

-- what the middleware does: calls of the metrics, of the next handler, of the counters and the writer
pub data Event : Type 0 where
  on_rate_limited on_allowlisted : Event
  blocked_by_subnet blocked_by_host blocked_by_profile ratelimited_by_profile : Event
  next_called profile_counted global_counted wrote_response wrote_formerr : Event

-- the events in order, and whether an error is returned
pub record Ending : Type 0 where
  pub events : List Event
  pub failed : Bool

-- What `location` finds of the client: the ASN of its location, if there is one, or an error in the
-- client subnet of the query, which is one of its option's or another.
pub data Located : Type 0 where
  located : Option ℕ → Located
  bad_ecs other_error : Located

pub record Query : Type 0 where
  pub port : ℕ
  pub remote_ip : Addr
  pub question : Question

module _ ⦃S : DeviceSets⦄ where
  -- what the middleware holds, and what the parts that it calls answer to the query
  pub record Setup : Type 0 where
    pub engines : Engines
    pub access_manager : Global
    pub standard : StandardBlocker
    pub protos : List ℕ
    pub protocol : ℕ
    pub location : Located
    pub found : Option DeviceResult
    pub profile_check : RatelimitResult
    pub limiter : Limited
    pub next : Served
    pub write_fails : Bool

  unfoldable pub device_data : Option DeviceResult → Option (Profile × Device)
  device_data (some (result_ok p d)) = some (p, d)
  device_data _ = none

  -- through a writer that keeps the response, which is then counted and written
  pub serve_counted : Setup → Event → Served → Ending
  serve_counted s count (serve_error err) = record { events = next_called ∷ []; failed = true }
  serve_counted s count (served none) = record { events = next_called ∷ []; failed = false }
  serve_counted s count (served (some m)) = record {
    events = next_called ∷ count ∷ wrote_response ∷ [];
    failed = s.write_fails;
  }

  has_failed : Served → Bool
  has_failed (serve_error err) = true
  has_failed (served m) = false

  -- with the query's own writer
  pub serve_next : Setup → List Event → Ending
  unfolding has_failed
  serve_next s before = record { events = before ++ next_called ∷ []; failed = has_failed s.next }

  by_limiter : Setup → Limited → Outcome Ending
  unfolding serve_next serve_counted
  by_limiter s (answers true listed) =
      done (record { events = on_rate_limited ∷ []; failed = false })
  by_limiter s (answers false true) = done (serve_next s (on_allowlisted ∷ []))
  by_limiter s (answers false false) = done (serve_counted s global_counted s.next)
  by_limiter s panics = panicked
  by_limiter s _ = done (record { events = []; failed = true })

  unfoldable pub serve_with_global_ratelimiting : Setup → Outcome Ending
  unfolding by_limiter
  serve_with_global_ratelimiting s = by_limiter s s.limiter

  by_check : Setup → RatelimitResult → Outcome Ending
  by_check s drops = done (record { events = ratelimited_by_profile ∷ []; failed = false })
  by_check s use_global = serve_with_global_ratelimiting s
  by_check s passes = done (serve_counted s profile_counted s.next)

  -- the profile's limit, and where that leaves it to the global one, that
  unfoldable pub serve_with_profile_ratelimiting :
      Setup → Option (Profile × Device) → Outcome Ending
  unfolding by_check
  serve_with_profile_ratelimiting s none = serve_with_global_ratelimiting s
  serve_with_profile_ratelimiting s (some (p, d)) = by_check s s.profile_check

  unfoldable pub serve_with_ratelimiting : Setup → Outcome Ending
  serve_with_ratelimiting s =
      if contains s.protos s.protocol
      then serve_with_profile_ratelimiting s (device_data s.found)
      else done (serve_next s [])

  by_profile : Setup → Query → Option ℕ → Option (Profile × Device) → Option Event
  by_profile s q asn none = none
  by_profile s q asn (some (p, d)) =
      if is_blocked s.engines s.standard q.question q.remote_ip asn p.access
      then some blocked_by_profile
      else none

  -- `isBlockedByAccess`: what is counted where it is
  unfoldable pub is_blocked_by_access : Setup → Query → Option ℕ → Option Event
  unfolding by_profile
  is_blocked_by_access s q asn =
      if is_blocked_ip s.engines q.remote_ip s.access_manager
      then some blocked_by_subnet
      else if is_blocked_host s.engines (s.engines.to_lower (trim_dot q.question.name))
          q.question.q_type s.access_manager
      then some blocked_by_host
      else by_profile s q asn (device_data s.found)

  after_access : Setup → Option Event → Outcome Ending
  after_access s (some e) = done (record { events = e ∷ []; failed = false })
  after_access s none = serve_with_ratelimiting s

  -- the result of `handleDeviceResult` where the query is not gone on with
  unfoldable pub handle_device_result : Option DeviceResult → Option Ending
  handle_device_result (some (unknown_dedicated e)) = some (record { events = []; failed = false })
  handle_device_result (some (result_error e)) = some (record { events = []; failed = true })
  handle_device_result _ = none

  after_device : Setup → Query → Option ℕ → Option Ending → Outcome Ending
  unfolding after_access
  after_device s q asn (some e) = done e
  after_device s q asn none = after_access s (is_blocked_by_access s q asn)

  -- the error of the option is answered, and returned in any case
  after_location : Setup → Query → Located → Outcome Ending
  unfolding after_device
  after_location s q (located asn) = after_device s q asn (handle_device_result s.found)
  after_location s q bad_ecs = done (record { events = wrote_formerr ∷ []; failed = true })
  after_location s q other_error = done (record { events = []; failed = true })

  -- `Wrap`'s handler
  unfoldable pub wrap : Setup → Query → Outcome Ending
  unfolding after_location
  wrap s q =
      if eqb q.port 0
      then done (record { events = on_rate_limited ∷ []; failed = false })
      else after_location s q s.location
