-- ===== src/RateLimitMw/Gate.antt =====
-- internal/dnssvc/internal/ratelimitmw: which queries reach the next handler.
use ad_guard_dns.Base.{
  ℕ, ◌+◌, ◌≡◌, refl, Bool, true, false, not, ◌&&◌, List, [], ◌∷◌, Option, some, none, eqb, contains,
  nat_eq, trim_dot, if◌then◌else◌, arith,
}
use ad_guard_dns.Agd.{DeviceSets, Profile, Device}
use ad_guard_dns.Access.{is_blocked_ip, is_blocked_host, is_blocked}
use ad_guard_dns.RateLimit.{RatelimitResult, passes, drops, use_global}
use ad_guard_dns.RateLimit.Backoff.{Limited, answers, addr_error, allowlist_error, panics}
use ad_guard_dns.DeviceFinder.{
  DeviceResult, result_ok, result_error, unknown_dedicated, authentication_failure,
}
use ad_guard_dns.MainMw.{Served, serve_error, served}
use ad_guard_dns.Filter.{Outcome, done, panicked}
use ad_guard_dns.RateLimitMw.{
  Event, next_called, on_rate_limited, blocked_by_subnet, blocked_by_host, blocked_by_profile,
  profile_counted, global_counted, wrote_response, Ending, Located, located, bad_ecs, other_error,
  Query, Setup, device_data, serve_counted, serve_next, by_limiter, serve_with_global_ratelimiting,
  by_check, serve_with_profile_ratelimiting, serve_with_ratelimiting, by_profile,
  is_blocked_by_access, after_access, handle_device_result, after_device, after_location, wrap,
}

-- how often the next handler is called
abbrev pub calls : List Event → ℕ
calls [] = 0
calls (next_called ∷ es) = 1 + calls es
calls (_ ∷ es) = calls es

abbrev pub calls_of : Outcome Ending → ℕ
calls_of (done e) = calls e.events
calls_of panicked = 0

abbrev pub number : Bool → ℕ
number b = if b then 1 else 0

-- the global limiter answers that the query is not to be dropped
abbrev pub global_passes : Limited → Bool
global_passes (answers drop listed) = not drop
global_passes _ = false

module _ ⦃S : DeviceSets⦄ where
  -- the device result lets the query go on
  abbrev pub goes_on : Option DeviceResult → Bool
  goes_on (some (unknown_dedicated e)) = false
  goes_on (some (result_error e)) = false
  goes_on _ = true

  abbrev pub profile_blocks : Setup → Query → Option ℕ → Option (Profile × Device) → Bool
  profile_blocks s q asn none = false
  profile_blocks s q asn (some (p, d)) =
      is_blocked s.engines s.standard q.question q.remote_ip asn p.access

  -- neither the global access settings nor the profile's block the query
  abbrev pub has_access : Setup → Query → Option ℕ → Bool
  has_access s q asn =
      not (is_blocked_ip s.engines q.remote_ip s.access_manager)
      && not (
          is_blocked_host s.engines (s.engines.to_lower (trim_dot q.question.name))
            q.question.q_type s.access_manager)
      && not (profile_blocks s q asn (device_data s.found))

  abbrev pub profile_passes : Setup → RatelimitResult → Bool
  profile_passes s passes = true
  profile_passes s drops = false
  profile_passes s use_global = global_passes s.limiter

  abbrev pub limit_passes : Setup → Option (Profile × Device) → Bool
  limit_passes s none = global_passes s.limiter
  limit_passes s (some pd) = profile_passes s s.profile_check

  -- the limit that applies to the query, if any does, is not exceeded
  abbrev pub is_within_limits : Setup → Bool
  is_within_limits s =
      if contains s.protos s.protocol then limit_passes s (device_data s.found) else true

  abbrev pub is_located : Setup → Query → Located → Bool
  is_located s q (located asn) = has_access s q asn
  is_located s q _ = false

  -- what is asked of a query to be served
  abbrev pub is_admitted : Setup → Query → Bool
  is_admitted s q =
      not (eqb q.port 0) && (goes_on s.found && is_located s q s.location) && is_within_limits s

  module _ (s : Setup) where
    served-calls :
        (e : Event) (r : Served)
        → calls (e ∷ wrote_response ∷ []) ≡ 0
        → calls (serve_counted s e r).events ≡ 1
    unfolding serve_counted
    served-calls e (serve_error err) z = omega arith
    served-calls e (served none) z = omega arith
    served-calls e (served (some m)) z = omega (arith, z)

    limiter-calls : (l : Limited) → calls_of (by_limiter s l) ≡ number (global_passes l)
    unfolding by_limiter serve_next
    limiter-calls (answers true listed) = refl
    limiter-calls (answers false true) = omega arith
    limiter-calls (answers false false) = served-calls global_counted s.next refl
    limiter-calls panics = refl
    limiter-calls addr_error = refl
    limiter-calls allowlist_error = refl

    check-calls : (c : RatelimitResult) → calls_of (by_check s c) ≡ number (profile_passes s c)
    unfolding by_check serve_with_global_ratelimiting
    check-calls drops = refl
    check-calls use_global = limiter-calls s.limiter
    check-calls passes = served-calls profile_counted s.next refl

    profile-calls :
        (o : Option (Profile × Device))
        → calls_of (serve_with_profile_ratelimiting s o) ≡ number (limit_passes s o)
    unfolding serve_with_profile_ratelimiting serve_with_global_ratelimiting
    profile-calls none = limiter-calls s.limiter
    profile-calls (some (p, d)) = check-calls s.profile_check

    ratelimiting-calls : calls_of (serve_with_ratelimiting s) ≡ number (is_within_limits s)
    unfolding serve_with_ratelimiting serve_next
    ratelimiting-calls =
        elim (contains s.protos s.protocol)
          as (λ b.
            calls_of (
              if b
              then serve_with_profile_ratelimiting s (device_data s.found)
              else done (serve_next s []))
            ≡ number (if b then limit_passes s (device_data s.found) else true)) [
              | true ↦ profile-calls (device_data s.found)
              | false ↦ omega arith
            ]

    module _ (q : Query) where
      by_profile-blocks :
          (asn : Option ℕ) (o : Option (Profile × Device))
          → calls_of (after_access s (by_profile s q asn o))
            ≡ number (not (profile_blocks s q asn o) && is_within_limits s)
      unfolding by_profile after_access
      by_profile-blocks asn none = ratelimiting-calls
      by_profile-blocks asn (some (p, d)) =
          elim (is_blocked s.engines s.standard q.question q.remote_ip asn p.access)
            as (λ b.
              calls_of (after_access s (if b then some blocked_by_profile else none))
              ≡ number (not b && is_within_limits s)) [ true ↦ refl | false ↦ ratelimiting-calls ]

      access-calls :
          (asn : Option ℕ)
          → calls_of (after_access s (is_blocked_by_access s q asn))
            ≡ number (has_access s q asn && is_within_limits s)
      unfolding is_blocked_by_access after_access
      access-calls asn = by_tests (is_blocked_ip s.engines q.remote_ip s.access_manager) (
          is_blocked_host s.engines (s.engines.to_lower (trim_dot q.question.name))
            q.question.q_type s.access_manager)
        where
          by_tests :
              (ip host : Bool)
              → calls_of (
                  after_access s (
                    if ip
                    then some blocked_by_subnet
                    else if host
                    then some blocked_by_host
                    else by_profile s q asn (device_data s.found)))
                ≡ number (
                    (not ip && not host && not (profile_blocks s q asn (device_data s.found)))
                    && is_within_limits s)
          by_tests true host = refl
          by_tests false true = refl
          by_tests false false = by_profile-blocks asn (device_data s.found)

      device-calls :
          (asn : Option ℕ) (o : Option DeviceResult)
          → calls_of (after_device s q asn (handle_device_result o))
            ≡ number ((goes_on o && has_access s q asn) && is_within_limits s)
      unfolding after_device handle_device_result
      device-calls asn (some (unknown_dedicated e)) = refl
      device-calls asn (some (result_error e)) = refl
      device-calls asn (some (result_ok p d)) = access-calls asn
      device-calls asn (some (authentication_failure e)) = access-calls asn
      device-calls asn none = access-calls asn

      location-calls :
          (l : Located)
          → calls_of (after_location s q l)
            ≡ number ((goes_on s.found && is_located s q l) && is_within_limits s)
      unfolding after_location
      location-calls (located asn) = device-calls asn s.found
      location-calls bad_ecs = refused (goes_on s.found)
        where
          refused : (b : Bool) → 0 ≡ number ((b && false) && is_within_limits s)
          refused true = refl
          refused false = refl
      location-calls other_error = refused (goes_on s.found)
        where
          refused : (b : Bool) → 0 ≡ number ((b && false) && is_within_limits s)
          refused true = refl
          refused false = refl

      -- The next handler is called once for a query that is admitted, and never for another: a query is
      -- admitted if it has a port, its client subnet can be read, the device finder neither fails nor finds an
      -- unknown dedicated address, the global access settings and the profile's let it pass, and, for a
      -- protocol with limits, the profile's limit lets it pass or leaves it to the global one, which does, as
      -- it does alone for a query with no profile.
      pub wrap-is_admitted : calls_of (wrap s q) ≡ number (is_admitted s q)
      unfolding wrap
      wrap-is_admitted =
          elim (eqb q.port 0)
            as (λ b.
              calls_of (
                if b
                then done (record { events = on_rate_limited ∷ []; failed = false })
                else after_location s q s.location)
              ≡ number
                  (not b && (goes_on s.found && is_located s q s.location) && is_within_limits s)) [
                    | true ↦ refl
                    | false ↦ location-calls s.location
                  ]
