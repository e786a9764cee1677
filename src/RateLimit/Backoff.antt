-- ===== src/RateLimit/Backoff.antt =====
-- internal/dnsserver/ratelimit/backoff.go and allowlist.go: the rate limiter of all clients.
-- Requests that meet in one subnet's counters are taken one after another.
use ad_guard_dns.Base.{
  ℕ, zero, suc, ◌+◌, ◌/◌, ◌%◌, ◌^◌, ◌<◌, ◌≡◌, Bool, true, false, not, ◌&&◌, ◌||◌, List, [], Option,
  some, none, any, eqb, leb, if◌then◌else◌, nat_eq, ◌==◌,
}
use ad_guard_dns.Base.Map.{Map, lookup, insert}
use ad_guard_dns.Net.{Addr, v4, Prefix, prefix_contains, prefix_of, prefix_eq, is_valid, is_6}
use ad_guard_dns.RateLimit.{Rings, RequestCounter, new_request_counter, add}

pub record DynamicAllowlist : Type 0 where
  pub dynamic : List Prefix
  pub persistent : List Prefix

-- `DynamicAllowlist.IsAllowed`, which never fails
unfoldable pub is_allowed : Addr → DynamicAllowlist → Bool
is_allowed ip l =
    any (λ n. prefix_contains n ip) l.persistent || any (λ n. prefix_contains n ip) l.dynamic

unfoldable pub update : List Prefix → DynamicAllowlist → DynamicAllowlist
update subnets l = record l { dynamic = subnets }

-- The go-cache module: values with a time of expiry. A value here is a pointer to a counter. The
-- keys are the prefixes whose strings the source uses.
pub record Caches : Type 1 where
  pub Cache : Type 0
  pub new : ℕ → Cache
  pub get : ℕ → Prefix → Cache → Option ℕ
  pub set_default : ℕ → Prefix → ℕ → Cache → Cache
  pub duration : Cache → ℕ

-- What its documentation says of a positive duration: a value is found under its key up to its end.
-- With another duration its values do not expire.
pub record Expires (C : Caches) : Type 0 where
  pub get-new : (now d : ℕ) (k : Prefix) → C.get now k (C.new d) ≡ none
  pub get-set_default :
      (now t p : ℕ) (k j : Prefix) (c : C.Cache)
      → 0 < C.duration c
      → C.get t j (C.set_default now k p c)
        ≡ (if k == j then (if leb t (now + C.duration c) then some p else none) else C.get t j c)
  pub duration-new : (d : ℕ) → 0 < d → C.duration (C.new d) ≡ d
  pub duration-set_default :
      (now p : ℕ) (k : Prefix) (c : C.Cache) → C.duration (C.set_default now k p c) ≡ C.duration c

-- the type ANY of a question
abbrev pub type_any : ℕ
type_any = 255

pub record BackoffConfig : Type 0 where
  pub period : ℕ
  pub duration : ℕ
  pub count : ℕ
  pub response_size_estimate : ℕ
  pub ipv4_count : ℕ
  pub ipv4_interval : ℕ
  pub ipv4_subnet_key_len : ℕ
  pub ipv6_count : ℕ
  pub ipv6_interval : ℕ
  pub ipv6_subnet_key_len : ℕ
  pub refuse_any : Bool

-- What `IsRateLimited` answers, and its panic where the length of a key is out of range. The
-- allowlist may fail, as its interface says.
pub data Limited : Type 0 where
  answers : Bool → Bool → Limited
  addr_error allowlist_error panics : Limited

module _ ⦃R : Rings⦄ ⦃C : Caches⦄ where
  -- The caches hold pointers; the counters that they point to are in the two stores.
  pub record Backoff : Type 0 where
    pub req_counters : C.Cache
    pub hit_counters : C.Cache
    pub requests : Map ℕ RequestCounter
    pub hits : Map ℕ ℕ
    pub next : ℕ
    pub conf : BackoffConfig

  -- `NewBackoff`
  unfoldable pub new_backoff : BackoffConfig → Backoff
  new_backoff c = record {
    req_counters = C.new c.period;
    hit_counters = C.new c.duration;
    requests = [];
    hits = [];
    next = 0;
    conf = c;
  }

  -- `atomic.Uint64.Load` at a pointer
  unfoldable pub hit_value : Backoff → ℕ → ℕ
  hit_value l p = elim (lookup p l.hits) [ none ↦ 0 | some n ↦ n ]

  unfoldable pub inc_backoff : ℕ → Prefix → Backoff → Backoff
  unfolding hit_value
  inc_backoff now key l = elim (C.get now key l.hit_counters) [
    | some p ↦ record l { hits = insert p ((hit_value l p + 1) % 2 ^ 64) l.hits }
    | none ↦ record l {
      hits = insert l.next 1 l.hits;
      hit_counters = C.set_default now key l.next l.hit_counters;
      next = l.next + 1;
    }
  ]

  unfoldable pub is_backoff : ℕ → Prefix → Backoff → Bool
  unfolding hit_value
  is_backoff now key l = elim (C.get now key l.hit_counters) [
    | none ↦ false
    | some p ↦ leb l.conf.count (hit_value l p)
  ]

  -- The counter of a subnet, made and stored where the cache has none, with its pointer.
  unfoldable pub req_counter : ℕ → Prefix → ℕ → ℕ → Backoff → ℕ × RequestCounter × Backoff
  req_counter now key count ivl l = elim (C.get now key l.req_counters) [
    | some p ↦ elim (lookup p l.requests) [
      | some r ↦ (p, r, l)
      | none ↦ (p, new_request_counter count ivl, l)
    ]
    | none ↦ (
      l.next,
      new_request_counter count ivl,
      record l { req_counters = C.set_default now key l.next l.req_counters; next = l.next + 1 },
    )
  ]

  unfoldable pub has_hit_rate_limit : ℕ → Prefix → ℕ → ℕ → Backoff → Bool × Backoff
  unfolding req_counter inc_backoff
  has_hit_rate_limit now key count ivl l =
      let (p, r, l1) = req_counter now key count ivl l in
      let (above, r') = add now r in
      let l2 = record l1 { requests = insert p r' l1.requests } in
      (above, if above then inc_backoff now key l2 else l2)

  unfoldable pub subnet_key : Addr → BackoffConfig → Option Prefix
  subnet_key (v4 a) c = prefix_of c.ipv4_subnet_key_len (v4 a)
  subnet_key ip c = prefix_of c.ipv6_subnet_key_len ip

  -- the rest of `IsRateLimited`, from the key on
  unfoldable pub limit_subnet : ℕ → Addr → Option Prefix → Backoff → Limited × Backoff
  unfolding is_backoff has_hit_rate_limit
  limit_subnet now ip none l = (panics, l)
  limit_subnet now ip (some key) l =
      let (drop, l') =
        (if is_6 ip
          then has_hit_rate_limit now key l.conf.ipv6_count l.conf.ipv6_interval l
          else has_hit_rate_limit now key l.conf.ipv4_count l.conf.ipv4_interval l) in
      if is_backoff now key l then (answers true false, l) else (answers drop false, l')

  -- `allowed` is the answer of the allowlist, none where it fails.
  unfoldable pub is_rate_limited : (Addr → Option Bool) → ℕ → ℕ → Addr → Backoff → Limited × Backoff
  unfolding limit_subnet subnet_key
  is_rate_limited allowed now q_type ip l =
      if not (is_valid ip)
      then (addr_error, l)
      else if l.conf.refuse_any && eqb q_type type_any
      then (answers true false, l)
      else elim (allowed ip) [
        | none ↦ (allowlist_error, l)
        | some true ↦ (answers false true, l)
        | some false ↦ limit_subnet now ip (subnet_key ip l.conf) l
      ]

  unfoldable pub limit_times : (Addr → Option Bool) → ℕ → ℕ → ℕ → Addr → Backoff → Backoff
  limit_times allowed zero now q_type ip l = l
  limit_times allowed (suc n) now q_type ip l =
      limit_times allowed n now q_type ip (is_rate_limited allowed now q_type ip l).1

  -- `Backoff.CountResponses`, of a response of `len` bytes; the estimate is above 0
  unfoldable pub count_responses : (Addr → Option Bool) → ℕ → ℕ → ℕ → Addr → Backoff → Backoff
  unfolding limit_times
  count_responses allowed now len q_type ip l =
      limit_times allowed (len / l.conf.response_size_estimate) now q_type ip l
