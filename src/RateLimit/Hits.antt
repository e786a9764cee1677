-- ===== src/RateLimit/Hits.antt =====
-- internal/dnsserver/ratelimit/backoff.go: when a subnet is in the backoff state, and what the
-- limiter does of a request on every branch.
use ad_guard_dns.Base.{
  ℕ, ◌+◌, ◌%◌, ◌^◌, ◌<◌, ◌≡◌, ◌≢◌, ◌∙◌, refl, sym, inl, inr, Option-cases, Bool-cases, ap, Bool,
  true, false, ◌&&◌, List, [], ◌∷◌, Option, some, none, leb, if◌then◌else◌, arith, nat_eq, ◌==◌,
  ==_iff,
}
use ad_guard_dns.Net.{Addr, Prefix, prefix_eq}
use ad_guard_dns.RateLimit.{Rings}
use ad_guard_dns.RateLimit.Pointers.{
  Entry, at_pointer, at_pointer-some, update, Inv, value-Inv, starts-Inv, later-Inv, new-Inv,
}
use ad_guard_dns.RateLimit.Backoff.{
  Caches, Expires, Backoff, BackoffConfig, new_backoff, hit_value, inc_backoff, is_backoff, answers,
  subnet_key, limit_subnet, is_rate_limited,
}

-- A window of time of a subnet: when it started, and the requests above the limit since then.
abbrev pub Window : Type 0
Window = Entry ℕ

abbrev pub hit : ℕ → ℕ → Option Window → Option Window
hit d t none = some (record { start = t; value = 1 })
hit d t (some w) =
    if leb t (w.start + d)
    then some (record w { value = (w.value + 1) % 2 ^ 64 })
    else some (record { start = t; value = 1 })

-- The window of a subnet after requests above the limit at the times and from the subnets of a
-- list, the newest one first: it starts with the first, lasts for `d` whatever comes, and the next
-- one after its end starts another.
abbrev pub window : ℕ → Prefix → List (ℕ × Prefix) → Option Window
window d k [] = none
window d k ((t, j) ∷ es) = let w = window d k es in if j == k then hit d t w else w

-- Whether a subnet with the window is in the backoff state.
abbrev pub in_backoff : ℕ → ℕ → ℕ → Option Window → Bool
in_backoff d count now none = false
in_backoff d count now (some w) = leb now (w.start + d) && leb count w.value

module _ ⦃R : Rings⦄ ⦃C : Caches⦄ where
  abbrev pub incremented : List (ℕ × Prefix) → Backoff → Backoff
  incremented [] l = l
  incremented ((t, k) ∷ es) l = inc_backoff t k (incremented es l)

  abbrev pub hit_one : ℕ → ℕ → Prefix → (Prefix → Option Window) → Prefix → Option Window
  hit_one d t j W k = if j == k then hit d t (W k) else W k

  abbrev pub Holds : ℕ → (Prefix → Option Window) → Backoff → Type 0
  Holds d W l = Inv d W l.hit_counters l.hits l.next

  hit-dead :
      (d t p : ℕ) (o : Option Window)
      → at_pointer d t p o ≡ none
      → hit d t o ≡ some (record { start = t; value = 1 })
  hit-dead d t p none h = refl
  hit-dead d t p (some w) h = ground arith

  update-hit_one :
      (d t : ℕ) (j : Prefix) (W : Prefix → Option Window) (o : Option Window)
      → hit d t (W j) ≡ o
      → (k : Prefix) → update j o W k ≡ hit_one d t j W k
  update-hit_one d t j W o h k = ground (arith, ==_iff j k)

  pub inc_backoff-Holds :
      Expires C
      → (d t : ℕ) (j : Prefix) (W : Prefix → Option Window) (l : Backoff) → 0 < d
      → Holds d W l
      → Holds d (hit_one d t j W) (inc_backoff t j l)
  unfolding inc_backoff hit_value
  inc_backoff-Holds x d t j W l pos v = elim (Option-cases (C.get t j l.hit_counters)) [
    | inl g ↦
        let dead = hit-dead d t (v.ptr j) (W j) (sym (v.found t j) ∙ g) in
        rw (inc_backoff, g)
          (later-Inv (update-hit_one d t j W (some (record { start = t; value = 1 })) dead)
            (omega arith) (starts-Inv x d t j 1 pos v))
    | inr (p, g) ↦
        let (w, e, h, q) = at_pointer-some d t (v.ptr j) p (W j) (sym (v.found t j) ∙ g) in
        let next = (w.value + 1) % 2 ^ 64 in
        rw (inc_backoff, g, ← q, hit_value, v.value j w e)
          (later-Inv (update-hit_one d t j W (some (record w { value = next })) (ground arith))
            (omega arith) (value-Inv d j v w next e))
  ]

  pub new-Holds :
      Expires C
      → (conf : BackoffConfig) → 0 < conf.duration
      → Holds conf.duration (λ k. none) (new_backoff conf)
  unfolding new_backoff
  new-Holds x conf pos = new-Inv x conf.duration 0 pos

  incremented-Holds :
      Expires C
      → (conf : BackoffConfig) (es : List (ℕ × Prefix)) → 0 < conf.duration
      → Holds conf.duration (λ k. window conf.duration k es) (incremented es (new_backoff conf))
  incremented-Holds x conf [] pos = new-Holds x conf pos
  incremented-Holds x conf ((t, k) ∷ es) pos =
      inc_backoff-Holds x conf.duration t k (λ j. window conf.duration j es)
        (incremented es (new_backoff conf)) pos (incremented-Holds x conf es pos)

  incremented-conf :
      (conf : BackoffConfig) (es : List (ℕ × Prefix))
      → (incremented es (new_backoff conf)).conf ≡ conf
  unfolding new_backoff inc_backoff
  incremented-conf conf [] = refl
  incremented-conf conf ((t, k) ∷ es) = ground (arith, incremented-conf conf es)

  pub is_backoff-Holds :
      (d now : ℕ) (k : Prefix) (W : Prefix → Option Window) (l : Backoff)
      → Holds d W l
      → is_backoff now k l ≡ in_backoff d l.conf.count now (W k)
  unfolding is_backoff hit_value
  is_backoff-Holds d now k W l v = elim (Option-cases (W k)) [
    | inl e ↦ ground (arith, v.found now k)
    | inr (w, e) ↦ ground (arith, v.found now k, v.value k w e)
  ]

  -- Where the cache keeps its values as it says for a positive duration, and the duration of the
  -- configuration is positive, after any requests above the limit, a subnet is in the backoff state
  -- at a time exactly where its window is not over at that time and has counted at least the number
  -- of the configuration. A window lasts for the duration of the configuration from the first
  -- request that it counts; the period of the configuration has no part in it.
  pub is_backoff-window :
      Expires C
      → (conf : BackoffConfig) (es : List (ℕ × Prefix)) (now : ℕ) (k : Prefix) → 0 < conf.duration
      → is_backoff now k (incremented es (new_backoff conf))
        ≡ in_backoff conf.duration conf.count now (window conf.duration k es)
  is_backoff-window x conf es now k pos =
      is_backoff-Holds conf.duration now k (λ j. window conf.duration j es)
        (incremented es (new_backoff conf)) (incremented-Holds x conf es pos)
      ∙ ap (λ c. in_backoff conf.duration c.count now (window conf.duration k es))
          (incremented-conf conf es)

  limit_subnet-flag :
      (now : ℕ) (ip : Addr) (key : Option Prefix) (l : Backoff) (drop : Bool)
      → (limit_subnet now ip key l).0 ≢ answers drop true
  unfolding limit_subnet
  limit_subnet-flag now ip none l drop h = ground arith
  limit_subnet-flag now ip (some key) l drop h = elim (Bool-cases (is_backoff now key l)) [
    | inl e ↦ ground arith
    | inr e ↦ ground arith
  ]

  -- A request that is said to be on the allowlist is on it, is not dropped and changes no counter.
  is_rate_limited-allowlisted :
      (allowed : Addr → Option Bool) (now q_type : ℕ) (ip : Addr) (l : Backoff) (drop : Bool)
      → (is_rate_limited allowed now q_type ip l).0 ≡ answers drop true
      → (allowed ip ≡ some true)
        × (drop ≡ false)
        × ((is_rate_limited allowed now q_type ip l).1 ≡ l)
  unfolding is_rate_limited
  is_rate_limited-allowlisted allowed now q_type ip l drop h =
      ground (arith, limit_subnet-flag now ip (subnet_key ip l.conf) l drop)
