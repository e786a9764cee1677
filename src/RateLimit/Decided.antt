-- ===== src/RateLimit/Decided.antt =====
-- internal/dnsserver/ratelimit/backoff.go: IsRateLimited against the limiter of subnets.
use ad_guard_dns.Base.{
  ℕ, ◌<◌, ◌≡◌, ◌∙◌, refl, sym, inl, inr, Option-cases, Bool-cases, ap, subst, Bool, true, false,
  ◌&&◌, List, [], ◌∷◌, Option, some, none, eqb, arith, nat_eq, ==_iff,
}
use ad_guard_dns.Net.{Addr, Prefix, prefix_eq, is_valid, is_6}
use ad_guard_dns.RateLimit.{Rings, new_request_counter}
use ad_guard_dns.RateLimit.Pointers.{update, later-Inv, new-Inv}
use ad_guard_dns.RateLimit.Backoff.{
  Caches, Expires, Backoff, BackoffConfig, answers, type_any, new_backoff, is_backoff, subnet_key,
  limit_subnet, is_rate_limited,
}
use ad_guard_dns.RateLimit.Hits.{in_backoff, new-Holds, is_backoff-Holds}
use ad_guard_dns.RateLimit.Subnets.{Query, Subnet, judged, fresh_counter, decided, subnets, served}
use ad_guard_dns.RateLimit.Counted.{Good, Counted, has_hit_rate_limit-Counted}

module _ ⦃R : Rings⦄ ⦃C : Caches⦄ where
  -- A query of the subnet: the answer, and the subnets after it.
  record Judged (conf : BackoffConfig) (now : ℕ) (ip : Addr) (key : Prefix) (S : Prefix → Subnet)
      (l : Backoff) : Type 0 where
    answer :
        (limit_subnet now ip (some key) l).0
        ≡ answers (judged conf now (fresh_counter conf ip) (S key)).0 false
    after :
        Good conf
          (update key (judged conf now (fresh_counter conf ip) (S key)).1 S)
          (limit_subnet now ip (some key) l).1

  Good-same :
      {conf : BackoffConfig} {S S' : Prefix → Subnet} {l : Backoff}
      → ((k : Prefix) → S k ≡ S' k)
      → Good conf S l
      → Good conf S' l
  Good-same same v = record {
    counters = later-Inv (λ k. ap (λ s. s.counter) (same k)) (omega arith) v.counters;
    hits = later-Inv (λ k. ap (λ s. s.hits) (same k)) (omega arith) v.hits;
    conf_same = v.conf_same;
  }

  module _ (x : Expires C) {conf : BackoffConfig} (now : ℕ) (ip : Addr) (key : Prefix)
      {S : Prefix → Subnet} {l : Backoff} (pp : 0 < conf.period) (pd : 0 < conf.duration)
      (v : Good conf S l) where
    in_backoff-Good : is_backoff now key l ≡ in_backoff conf.duration conf.count now (S key).hits
    in_backoff-Good =
        is_backoff-Holds conf.duration now key (λ k. (S k).hits) l v.hits
        ∙ ap (λ c. in_backoff conf.duration c.count now (S key).hits) v.conf_same

    blocked-Judged : is_backoff now key l ≡ true → Judged conf now ip key S l
    unfolding limit_subnet
    blocked-Judged b =
        let e = sym in_backoff-Good ∙ b in
        record {
          answer = rw (limit_subnet, b, e) refl;
          after = rw (limit_subnet, b, e) (Good-same (λ k. ground (arith, ==_iff key k)) v);
        }

    counted4 :
        Counted conf now l.conf.ipv4_count l.conf.ipv4_interval
          (new_request_counter conf.ipv4_count conf.ipv4_interval)
          key
          S
          l
    counted4 =
        subst
          (λ c.
            Counted conf now l.conf.ipv4_count l.conf.ipv4_interval
              (new_request_counter c.ipv4_count c.ipv4_interval) key S l)
          v.conf_same
          (has_hit_rate_limit-Counted x now l.conf.ipv4_count l.conf.ipv4_interval key pp pd v)

    counted6 :
        Counted conf now l.conf.ipv6_count l.conf.ipv6_interval
          (new_request_counter conf.ipv6_count conf.ipv6_interval)
          key
          S
          l
    counted6 =
        subst
          (λ c.
            Counted conf now l.conf.ipv6_count l.conf.ipv6_interval
              (new_request_counter c.ipv6_count c.ipv6_interval) key S l)
          v.conf_same
          (has_hit_rate_limit-Counted x now l.conf.ipv6_count l.conf.ipv6_interval key pp pd v)

    open-Judged : is_backoff now key l ≡ false → Judged conf now ip key S l
    unfolding limit_subnet
    open-Judged b =
        let e = sym in_backoff-Good ∙ b in
        elim (Bool-cases (is_6 ip)) [
          | inl i ↦
              let c = counted6 in
              record {
                answer = rw (limit_subnet, b, e, i) (ap (λ d. answers d false) c.above);
                after = rw (limit_subnet, b, e, i) c.after;
              }
          | inr i ↦
              let c = counted4 in
              record {
                answer = rw (limit_subnet, b, e, i) (ap (λ d. answers d false) c.above);
                after = rw (limit_subnet, b, e, i) c.after;
              }
        ]

    limit_subnet-Judged : Judged conf now ip key S l
    limit_subnet-Judged = elim (Bool-cases (is_backoff now key l)) [
      | inl b ↦ blocked-Judged b
      | inr b ↦ open-Judged b
    ]

  -- A query: the answer, and the subnets after it.
  record Decided (conf : BackoffConfig) (q : Query) (S : Prefix → Subnet) (l : Backoff)
      : Type 0 where
    answer : (is_rate_limited q.allowlist q.time q.q_type q.ip l).0 ≡ (decided conf q S).0
    after : Good conf (decided conf q S).1 (is_rate_limited q.allowlist q.time q.q_type q.ip l).1

  module _ (x : Expires C) (conf : BackoffConfig) (pp : 0 < conf.period)
      (pd : 0 < conf.duration) where
    module _ (q : Query) {S : Prefix → Subnet} {l : Backoff} (v : Good conf S l) where
      any_same :
          (b : Bool)
          → (conf.refuse_any && eqb q.q_type type_any) ≡ b
          → (l.conf.refuse_any && eqb q.q_type type_any) ≡ b
      any_same b h = ap (λ c. c.refuse_any && eqb q.q_type type_any) v.conf_same ∙ h

      key_same : (k : Option Prefix) → subnet_key q.ip conf ≡ k → subnet_key q.ip l.conf ≡ k
      key_same k h = ap (subnet_key q.ip) v.conf_same ∙ h

      limited-Decided :
          is_valid q.ip ≡ true
          → (conf.refuse_any && eqb q.q_type type_any) ≡ false
          → q.allowlist q.ip ≡ some false
          → Decided conf q S l
      unfolding is_rate_limited limit_subnet
      limited-Decided i r e = elim (Option-cases (subnet_key q.ip conf)) [
        | inl k ↦ record {
          answer = rw (is_rate_limited, i, r, any_same false r, e, k, key_same none k) refl;
          after = rw (is_rate_limited, i, r, any_same false r, e, k, key_same none k) v;
        }
        | inr (key, k) ↦
            let j = limit_subnet-Judged x q.time q.ip key pp pd v in
            record {
              answer =
                  rw (is_rate_limited, i, r, any_same false r, e, k, key_same (some key) k)
                    j.answer;
              after =
                  rw (is_rate_limited, i, r, any_same false r, e, k, key_same (some key) k) j.after;
            }
      ]

      allowed-Decided :
          is_valid q.ip ≡ true
          → (conf.refuse_any && eqb q.q_type type_any) ≡ false
          → Decided conf q S l
      unfolding is_rate_limited
      allowed-Decided i r = elim (Option-cases (q.allowlist q.ip)) [
        | inl e ↦ record {
          answer = rw (is_rate_limited, i, r, any_same false r, e) refl;
          after = rw (is_rate_limited, i, r, any_same false r, e) v;
        }
        | inr (b, e) ↦ elim (Bool-cases b) [
          | inl t ↦
              let e' = e ∙ ap (λ b. some b) t in
              record {
                answer = rw (is_rate_limited, i, r, any_same false r, e') refl;
                after = rw (is_rate_limited, i, r, any_same false r, e') v;
              }
          | inr t ↦ limited-Decided i r (e ∙ ap (λ b. some b) t)
        ]
      ]

      is_rate_limited-Decided : Decided conf q S l
      unfolding is_rate_limited
      is_rate_limited-Decided = elim (Bool-cases (is_valid q.ip)) [
        | inr i ↦ record {
          answer = rw (is_rate_limited, i) refl;
          after = rw (is_rate_limited, i) v;
        }
        | inl i ↦ elim (Bool-cases (conf.refuse_any && eqb q.q_type type_any)) [
          | inl r ↦ record {
            answer = rw (is_rate_limited, i, r, any_same true r) refl;
            after = rw (is_rate_limited, i, r, any_same true r) v;
          }
          | inr r ↦ allowed-Decided i r
        ]
      ]

    served-Good : (qs : List Query) → Good conf (subnets conf qs) (served qs (new_backoff conf))
    unfolding new_backoff
    served-Good [] = record {
      counters = new-Inv x conf.period 0 pp;
      hits = new-Holds x conf pd;
      conf_same = refl;
    }
    served-Good (q ∷ qs) = (is_rate_limited-Decided q (served-Good qs)).after

    -- Where the caches keep their values as they say for a positive duration, and the period and the
    -- duration of the configuration are positive, the limiter answers a query, after any queries at
    -- any times and with any allowlists, as the limiter does that keeps a request counter and a
    -- window of hits for each subnet. That one fails for an invalid address, then drops a query of
    -- the type ANY where these are refused, then fails or passes as the allowlist does, and panics
    -- where the length of the subnet's key is out of range. Otherwise, it drops a query of a subnet
    -- in the backoff state without counting it; and it counts any other query in the subnet's counter,
    -- a fresh one if the period since the last one was made is over, drops it if it is above the
    -- limit of the counter, and adds it then to the subnet's window of hits.
    pub is_rate_limited-decided :
        (qs : List Query) (q : Query)
        → (is_rate_limited q.allowlist q.time q.q_type q.ip (served qs (new_backoff conf))).0
          ≡ (decided conf q (subnets conf qs)).0
    is_rate_limited-decided qs q = (is_rate_limited-Decided q (served-Good qs)).answer
