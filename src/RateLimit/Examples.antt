-- ===== src/RateLimit/Examples.antt =====
-- internal/dnsserver/ratelimit: the theorems at buffers and caches that are lists.
use ad_guard_dns.Base.{
  ℕ, suc, ◌+◌, ◌-◌, ◌≡◌, ◌↔◌, ◌<◌, ◌∙◌, ap, refl, true, false, List, [], ◌∷◌, Option, some, none,
  get_or, ◌==◌, leb, if◌then◌else◌, arith,
}
use ad_guard_dns.Net.{v4, Prefix, prefix_eq, prefix_of}
use ad_guard_dns.RateLimit.{Rings, pushed, KeepsOldest, add, new_request_counter}
use ad_guard_dns.RateLimit.Window.{added, recent, add-recent}
use ad_guard_dns.RateLimit.Backoff.{
  Caches, Expires, BackoffConfig, new_backoff, is_backoff, is_rate_limited, answers, subnet_key,
}
use ad_guard_dns.RateLimit.Subnets.{Query, served, decided, subnets}
use ad_guard_dns.RateLimit.Decided.{is_rate_limited-decided}
use ad_guard_dns.RateLimit.Hits.{window, in_backoff, incremented, is_backoff-window}

instance abbrev list_rings : Rings
list_rings = record {
  Ring = ℕ × List ℕ;
  new = λ n. (n, []);
  push = λ t r. (r.0, t ∷ r.1);
  current = λ r. get_or r.1 (r.0 - 1) 0;
}

pushed-pair : (n : ℕ) (ts : List ℕ) → pushed list_rings n ts ≡ (n, ts)
pushed-pair n [] = refl
pushed-pair n (t ∷ ts) = ap (λ r. (r.0, t ∷ r.1)) (pushed-pair n ts)

list_rings-KeepsOldest : KeepsOldest list_rings
list_rings-KeepsOldest n ts =
    ap (λ r. get_or r.1 (r.0 - 1) 0) (pushed-pair (suc n) ts)
    ∙ ap (λ m. get_or ts m 0) (omega arith)

abbrev Entries : Type 0
Entries = List (Prefix × (ℕ × ℕ))

abbrev get_entry : ℕ → Prefix → Entries → Option ℕ
get_entry now k [] = none
get_entry now k ((j, (t, p)) ∷ es) =
    if j == k then (if leb now t then some p else none) else get_entry now k es

instance abbrev list_caches : Caches
list_caches = record {
  Cache = ℕ × Entries;
  new = λ d. (d, []);
  get = λ now k c. get_entry now k c.1;
  set_default = λ now k p c. (c.0, (k, (now + c.0, p)) ∷ c.1);
  duration = λ c. c.0;
}

list_caches-Expires : Expires list_caches
list_caches-Expires = record {
  get-new = λ now d k. refl;
  get-set_default = λ now t p k j c pos. refl;
  duration-new = λ d pos. refl;
  duration-set_default = λ now p k c. refl;
}

-- two requests in 10, and then a third one
add-recent_example :
    ((add 108 (added 2 10 (105 ∷ 100 ∷ []))).0 ≡ true) ↔ (2 < recent 108 10 (108 ∷ 105 ∷ 100 ∷ []))
add-recent_example =
    add-recent list_rings-KeepsOldest 2 10 108 (105 ∷ 100 ∷ [])
      (omega arith, omega arith, (omega arith, omega arith, (omega arith, omega arith, tt)))

add_run : (add 108 (added 2 10 (105 ∷ 100 ∷ []))).0 ≡ true
unfolding add new_request_counter
add_run = refl

abbrev conf : BackoffConfig
conf = record {
  period = 600;
  duration = 600;
  count = 2;
  response_size_estimate = 1000;
  ipv4_count = 30;
  ipv4_interval = 10;
  ipv4_subnet_key_len = 24;
  ipv6_count = 30;
  ipv6_interval = 10;
  ipv6_subnet_key_len = 48;
  refuse_any = true;
}

abbrev key : Prefix
key = record { addr = v4 256; bits = 24 }

abbrev hits : List (ℕ × Prefix)
hits = (1010, key) ∷ (1000, key) ∷ []

is_backoff-window_example :
    is_backoff 1600 key (incremented hits (new_backoff conf))
    ≡ in_backoff 600 2 1600 (window 600 key hits)
is_backoff-window_example = is_backoff-window list_caches-Expires conf hits 1600 key (omega arith)

abbrev query : ℕ → Query
query t = record { time = t; q_type = 1; ip = v4 257; allowlist = λ ip. some false }

abbrev strict : BackoffConfig
strict = record conf { count = 1; ipv4_count = 1 }

-- the third query is above the limit, and from then on the subnet is in the backoff state
is_rate_limited-decided_example :
    (is_rate_limited
      (λ ip. some false)
      1003
      1
      (v4 257)
      (served (query 1002 ∷ query 1001 ∷ query 1000 ∷ []) (new_backoff strict))).0
    ≡ (decided strict (query 1003) (subnets strict (query 1002 ∷ query 1001 ∷ query 1000 ∷ []))).0
is_rate_limited-decided_example =
    is_rate_limited-decided list_caches-Expires strict (omega arith) (omega arith)
      (query 1002 ∷ query 1001 ∷ query 1000 ∷ []) (query 1003)

decided_run :
    (decided strict (query 1003) (subnets strict (query 1002 ∷ query 1001 ∷ query 1000 ∷ []))).0
    ≡ answers true false
unfolding add new_request_counter subnet_key prefix_of
decided_run = refl
