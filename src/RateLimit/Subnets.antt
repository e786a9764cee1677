-- ===== src/RateLimit/Subnets.antt =====
-- internal/dnsserver/ratelimit/backoff.go: a limiter that keeps, for each subnet, a request counter
-- and a window of hits, without caches, pointers and stores.
use ad_guard_dns.Base.{
  ℕ, ◌+◌, Bool, true, false, not, ◌&&◌, List, [], ◌∷◌, Option, some, none, leb, eqb, if◌then◌else◌,
  nat_eq,
}
use ad_guard_dns.Net.{Addr, Prefix, prefix_eq, is_valid, is_6}
use ad_guard_dns.RateLimit.{Rings, RequestCounter, new_request_counter, add}
use ad_guard_dns.RateLimit.Pointers.{Entry, update}
use ad_guard_dns.RateLimit.Backoff.{
  Caches, Backoff, BackoffConfig, Limited, answers, addr_error, allowlist_error, panics, type_any,
  subnet_key, is_rate_limited,
}
use ad_guard_dns.RateLimit.Hits.{Window, hit, in_backoff}

-- A query, with the time and the allowlist as it is then.
pub record Query : Type 0 where
  pub time : ℕ
  pub q_type : ℕ
  pub ip : Addr
  pub allowlist : Addr → Option Bool

module _ ⦃R : Rings⦄ where
  pub record Subnet : Type 0 where
    pub counter : Option (Entry RequestCounter)
    pub hits : Option Window

  abbrev pub new_subnet : Subnet
  new_subnet = record { counter = none; hits = none }

  -- The counter of a subnet, a fresh one where there is none or its period is over.
  abbrev pub current : ℕ → ℕ → RequestCounter → Option (Entry RequestCounter) → Entry RequestCounter
  current period now fresh none = record { start = now; value = fresh }
  current period now fresh (some w) =
      if leb now (w.start + period) then w else record { start = now; value = fresh }

  -- A query counted: whether it is above the limit, and then it is a hit.
  abbrev pub counted : BackoffConfig → ℕ → RequestCounter → Subnet → Bool × Subnet
  counted conf now fresh s =
      let e = current conf.period now fresh s.counter in
      let (above, r) = add now e.value in
      (
        above,
        record {
          counter = some (record e { value = r });
          hits = if above then hit conf.duration now s.hits else s.hits;
        },
      )

  -- A query of a subnet in the backoff state is dropped and not counted.
  abbrev pub judged : BackoffConfig → ℕ → RequestCounter → Subnet → Bool × Subnet
  judged conf now fresh s =
      if in_backoff conf.duration conf.count now s.hits then (true, s) else counted conf now fresh s

  abbrev pub fresh_counter : BackoffConfig → Addr → RequestCounter
  fresh_counter conf ip =
      if is_6 ip
      then new_request_counter conf.ipv6_count conf.ipv6_interval
      else new_request_counter conf.ipv4_count conf.ipv4_interval

module _ ⦃R : Rings⦄ ⦃C : Caches⦄ where
  abbrev by_subnet :
      BackoffConfig → Query → Option Prefix → (Prefix → Subnet) → Limited × (Prefix → Subnet)
  by_subnet conf q none S = (panics, S)
  by_subnet conf q (some k) S =
      let (drop, s) = judged conf q.time (fresh_counter conf q.ip) (S k) in
      (answers drop false, update k s S)

  -- The answer to a query, and the subnets after it.
  abbrev pub decided : BackoffConfig → Query → (Prefix → Subnet) → Limited × (Prefix → Subnet)
  decided conf q S =
      if not (is_valid q.ip)
      then (addr_error, S)
      else if conf.refuse_any && eqb q.q_type type_any
      then (answers true false, S)
      else elim (q.allowlist q.ip) [
        | none ↦ (allowlist_error, S)
        | some true ↦ (answers false true, S)
        | some false ↦ by_subnet conf q (subnet_key q.ip conf) S
      ]

  -- The subnets after the queries of a list, the newest one first.
  abbrev pub subnets : BackoffConfig → List Query → Prefix → Subnet
  subnets conf [] = λ k. new_subnet
  subnets conf (q ∷ qs) = (decided conf q (subnets conf qs)).1

  -- The limiter after the queries of a list, the newest one first.
  abbrev pub served : List Query → Backoff → Backoff
  served [] l = l
  served (q ∷ qs) l = (is_rate_limited q.allowlist q.time q.q_type q.ip (served qs l)).1
