-- ===== src/RateLimit.antt =====
-- internal/dnsserver/ratelimit/counter.go and internal/agd/ratelimit.go: the counter of requests in
-- an interval, and the rate limiter of a profile, which has one. Both hold a lock in every call.
mod Window
pub mod Backoff
mod Pointers
mod Hits
mod Subnets
mod Counted
mod Decided
mod Examples
use ad_guard_dns.Base.{
  ℕ, zero, suc, ◌+◌, ◌-◌, ◌/◌, ◌<◌, ◌≡◌, Bool, true, false, not, ◌&&◌, List, [], ◌∷◌, any, length,
  get_or, ltb, leb, if◌then◌else◌,
}
use ad_guard_dns.Net.{Addr, Prefix, prefix_contains}

-- container.RingBuffer of the golibs module. `current` is the place that the next push writes to:
-- the oldest value that is kept, or zero where the buffer is not full yet.
pub record Rings : Type 1 where
  pub Ring : Type 0
  pub new : ℕ → Ring
  pub push : ℕ → Ring → Ring
  pub current : Ring → ℕ

-- the buffer after the values, the newest one first
abbrev pub pushed : (R : Rings) → ℕ → List ℕ → R.Ring
pushed R n [] = R.new n
pushed R n (t ∷ ts) = R.push t (pushed R n ts)

-- what the documentation of the buffer says of `current`
abbrev pub KeepsOldest : Rings → Type 0
KeepsOldest R = (n : ℕ) (ts : List ℕ) → R.current (pushed R (suc n) ts) ≡ get_or ts n 0

module _ ⦃R : Rings⦄ where
  pub record RequestCounter : Type 0 where
    pub ring : R.Ring
    pub ivl : ℕ

  unfoldable pub new_request_counter : ℕ → ℕ → RequestCounter
  new_request_counter num ivl = record { ring = R.new (num + 1); ivl = ivl }

  -- Times are in nanoseconds. Where the clock has gone back, the difference is below 0 in the
  -- source and 0 here, within the interval in both.
  unfoldable pub add : ℕ → RequestCounter → Bool × RequestCounter
  add ts r =
      let ring = R.push ts r.ring in
      let tail = R.current ring in (ltb 0 tail && leb (ts - tail) r.ivl, record r { ring = ring })

-- `RatelimitResult`
pub data RatelimitResult : Type 0 where
  passes drops use_global : RatelimitResult

module _ ⦃R : Rings⦄ where
  pub record DefaultRatelimiter : Type 0 where
    pub counter : RequestCounter
    pub client_subnets : List Prefix
    pub resp_sz_est : ℕ

  -- `NewDefaultRatelimiter`: the requests are counted for a second
  unfoldable pub new_ratelimiter : List Prefix → ℕ → ℕ → DefaultRatelimiter
  unfolding new_request_counter
  new_ratelimiter subnets rps est = record {
    counter = new_request_counter rps 1000000000;
    client_subnets = subnets;
    resp_sz_est = est;
  }

  unfoldable pub check : ℕ → Addr → DefaultRatelimiter → RatelimitResult × DefaultRatelimiter
  unfolding add
  check now ip r =
      let (above, counter) = add now r.counter in
      if ltb 0 (length r.client_subnets) && not (any (λ p. prefix_contains p ip) r.client_subnets)
      then (use_global, r)
      else if above
      then (drops, record r { counter = counter })
      else (passes, record r { counter = counter })

  unfoldable pub check_times : ℕ → ℕ → Addr → DefaultRatelimiter → DefaultRatelimiter
  check_times zero now ip r = r
  check_times (suc n) now ip r = check_times n now ip (check now ip r).1

  -- `CountResponses`; the clock is read once for all the checks
  unfoldable pub count_responses : ℕ → ℕ → Addr → DefaultRatelimiter → DefaultRatelimiter
  count_responses now len ip r = check_times (len / r.resp_sz_est) now ip r
