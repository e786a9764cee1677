-- ===== src/RateLimit/Counted.antt =====
-- internal/dnsserver/ratelimit/backoff.go: hasHitRateLimit against the counters of the subnets.
use ad_guard_dns.Base.{
  ℕ, ◌+◌, ◌<◌, ◌≤◌, ◌≡◌, ◌∙◌, refl, sym, inl, inr, Option-cases, ap, Bool, true, false, Option,
  some, none, if◌then◌else◌, arith, nat_eq, ==_iff,
}
use ad_guard_dns.Base.Map.{insert}
use ad_guard_dns.Net.{Prefix, prefix_eq}
use ad_guard_dns.RateLimit.{Rings, RequestCounter, new_request_counter, add}
use ad_guard_dns.RateLimit.Pointers.{
  Entry, at_pointer, at_pointer-some, update, Inv, value-Inv, starts-Inv, later-Inv,
}
use ad_guard_dns.RateLimit.Backoff.{
  Caches, Expires, Backoff, BackoffConfig, inc_backoff, req_counter, has_hit_rate_limit,
}
use ad_guard_dns.RateLimit.Hits.{hit, Holds, inc_backoff-Holds}
use ad_guard_dns.RateLimit.Subnets.{Subnet, current, counted}

module _ ⦃R : Rings⦄ ⦃C : Caches⦄ where
  abbrev pub Counts : ℕ → (Prefix → Option (Entry RequestCounter)) → Backoff → Type 0
  Counts d W l = Inv d W l.req_counters l.requests l.next

  -- The limiter holds what the subnets say.
  pub record Good (conf : BackoffConfig) (S : Prefix → Subnet) (l : Backoff) : Type 0 where
    pub counters : Counts conf.period (λ k. (S k).counter) l
    pub hits : Holds conf.duration (λ k. (S k).hits) l
    pub conf_same : l.conf ≡ conf

  inc_backoff-Counts :
      (d t : ℕ) (j : Prefix) (W : Prefix → Option (Entry RequestCounter)) (l : Backoff)
      → Counts d W l
      → Counts d W (inc_backoff t j l)
  unfolding inc_backoff
  inc_backoff-Counts d t j W l v = elim (Option-cases (C.get t j l.hit_counters)) [
    | inl g ↦ rw (inc_backoff, g) (later-Inv (λ k. refl) (omega arith) v)
    | inr (p, g) ↦ rw (inc_backoff, g) v
  ]

  inc_backoff-conf : (t : ℕ) (j : Prefix) (l : Backoff) → (inc_backoff t j l).conf ≡ l.conf
  unfolding inc_backoff
  inc_backoff-conf t j l = ground arith

  -- The limiter after its request counter: where the query is above the limit, it is a hit.
  hit-Good :
      Expires C
      → (conf : BackoffConfig) (now : ℕ) (key : Prefix) (S : Prefix → Subnet)
        (e : Entry RequestCounter) (above : Bool) (l : Backoff)
      → 0 < conf.duration
      → Counts conf.period (update key (some e) (λ k. (S k).counter)) l
      → Holds conf.duration (λ k. (S k).hits) l
      → l.conf ≡ conf
      → Good conf
          (update key
            (record {
              counter = some e;
              hits = if above then hit conf.duration now (S key).hits else (S key).hits;
            })
            S)
          (if above then inc_backoff now key l else l)
  hit-Good x conf now key S e true l pos v w c = record {
    counters =
        later-Inv (λ k. ground arith) (omega arith)
          (inc_backoff-Counts conf.period now key (update key (some e) (λ k. (S k).counter)) l v);
    hits =
        later-Inv (λ k. ground (arith, ==_iff key k)) (omega arith)
          (inc_backoff-Holds x conf.duration now key (λ k. (S k).hits) l pos w);
    conf_same = inc_backoff-conf now key l ∙ c;
  }
  hit-Good x conf now key S e false l pos v w c = record {
    counters = later-Inv (λ k. ground arith) (omega arith) v;
    hits = later-Inv (λ k. ground (arith, ==_iff key k)) (omega arith) w;
    conf_same = c;
  }

  current-dead :
      (d t p : ℕ) (fresh : RequestCounter) (o : Option (Entry RequestCounter))
      → at_pointer d t p o ≡ none
      → current d t fresh o ≡ record { start = t; value = fresh }
  current-dead d t p fresh none h = refl
  current-dead d t p fresh (some w) h = ground arith

  current-live :
      (d t : ℕ) (fresh : RequestCounter) (w : Entry RequestCounter)
      → t ≤ w.start + d
      → current d t fresh (some w) ≡ w
  current-live d t fresh w h = ground arith

  -- What the request counter of a subnet does at one query, where `fresh` stands for a fresh one.
  pub record Counted (conf : BackoffConfig) (now num ivl : ℕ) (fresh : RequestCounter)
      (key : Prefix) (S : Prefix → Subnet) (l : Backoff) : Type 0 where
    pub above : (has_hit_rate_limit now key num ivl l).0 ≡ (counted conf now fresh (S key)).0
    pub after :
        Good conf
          (update key (counted conf now fresh (S key)).1 S)
          (has_hit_rate_limit now key num ivl l).1

  module _ (x : Expires C) {conf : BackoffConfig} (now num ivl : ℕ) (key : Prefix)
      {S : Prefix → Subnet} {l : Backoff} (pp : 0 < conf.period) (pd : 0 < conf.duration)
      (v : Good conf S l) where
    absent-Counted :
        C.get now key l.req_counters ≡ none
        → Counted conf now num ivl (new_request_counter num ivl) key S l
    unfolding has_hit_rate_limit req_counter
    absent-Counted g =
        let fresh = new_request_counter num ivl in
        let (above, r) = add now fresh in
        let e =
          current-dead conf.period now (v.counters.ptr key) fresh (S key).counter
            (sym (v.counters.found now key) ∙ g) in
        record {
          above = rw (has_hit_rate_limit, req_counter, g, e) refl;
          after =
              rw (has_hit_rate_limit, req_counter, g, e)
                (hit-Good x conf now key S (record { start = now; value = r }) above
                  (record l {
                    req_counters = C.set_default now key l.next l.req_counters;
                    requests = insert l.next r l.requests;
                    next = l.next + 1;
                  })
                  pd (starts-Inv x conf.period now key r pp v.counters)
                  (later-Inv (λ k. refl) (omega arith) v.hits) v.conf_same);
        }

    present-Counted :
        (w : Entry RequestCounter)
        → (S key).counter ≡ some w
        → now ≤ w.start + conf.period
        → C.get now key l.req_counters ≡ some (v.counters.ptr key)
        → Counted conf now num ivl (new_request_counter num ivl) key S l
    unfolding has_hit_rate_limit req_counter
    present-Counted w e h g =
        let c = current-live conf.period now (new_request_counter num ivl) w h in
        let (above, r) = add now w.value in
        record {
          above = rw (has_hit_rate_limit, req_counter, g, v.counters.value key w e, e, c) refl;
          after =
              rw (has_hit_rate_limit, req_counter, g, v.counters.value key w e, e, c)
                (hit-Good x conf now key S (record w { value = r }) above
                  (record l { requests = insert (v.counters.ptr key) r l.requests }) pd
                  (value-Inv conf.period key v.counters w r e) v.hits v.conf_same);
        }

    pub has_hit_rate_limit-Counted : Counted conf now num ivl (new_request_counter num ivl) key S l
    has_hit_rate_limit-Counted = elim (Option-cases (C.get now key l.req_counters)) [
      | inl g ↦ absent-Counted g
      | inr (p, g) ↦
          let (w, e, h, q) =
            at_pointer-some conf.period now (v.counters.ptr key) p (S key).counter
              (sym (v.counters.found now key) ∙ g) in
          present-Counted w e h (g ∙ ap (λ i. some i) (sym q))
    ]
