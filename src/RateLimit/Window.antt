-- ===== src/RateLimit/Window.antt =====
-- internal/dnsserver/ratelimit/counter.go: the counter answers for the requests of a window of time.
use ad_guard_dns.Base.{
  ℕ, zero, suc, ◌+◌, ◌-◌, ◌<◌, ◌≤◌, ◌≡◌, ◌∙◌, ◌↔◌, refl, ap, true, ◌&&◌, List, [], ◌∷◌, get_or, ltb,
  leb, if◌then◌else◌, arith,
}
use ad_guard_dns.RateLimit.{Rings, pushed, KeepsOldest, RequestCounter, new_request_counter, add}

-- the counter after requests at the times, the newest one first
abbrev pub added : ⦃R : Rings⦄ → ℕ → ℕ → List ℕ → RequestCounter
added num ivl [] = new_request_counter num ivl
added num ivl (t ∷ ts) = (add t (added num ivl ts)).1

-- the number of times within `ivl` before `now`
abbrev pub recent : ℕ → ℕ → List ℕ → ℕ
recent now ivl [] = 0
recent now ivl (t ∷ ts) = (if leb (now - t) ivl then 1 else 0) + recent now ivl ts

-- The clock does not go back: each time is at most those before it in the list, and above 0.
abbrev pub Ordered : ℕ → List ℕ → Type 0
Ordered now [] = Unit
Ordered now (t ∷ ts) = (t ≤ now) × (0 < t) × Ordered t ts

recent-old : (now ivl t : ℕ) (ts : List ℕ) → Ordered t ts → ivl < now - t → recent now ivl ts ≡ 0
recent-old now ivl t [] o h = refl
recent-old now ivl t (x ∷ xs) (a, p, o) h = ground (arith, recent-old now ivl x xs o (omega arith))

recent-get_or :
    (now ivl m : ℕ) (n : ℕ) (ts : List ℕ)
    → Ordered m ts
    → m ≤ now
    → ((ltb 0 (get_or ts n 0) && leb (now - get_or ts n 0) ivl) ≡ true) ↔ (n < recent now ivl ts)
recent-get_or now ivl m n [] o h = ground arith
recent-get_or now ivl m zero (t ∷ ts) (a, p, o) h = ground (arith, recent-old now ivl t ts o)
recent-get_or now ivl m (suc n) (t ∷ ts) (a, p, o) h =
    ground (arith, recent-get_or now ivl t n ts o, recent-old now ivl t ts o)

module _ ⦃R : Rings⦄ where
  ring-added :
      (num ivl : ℕ) (ts : List ℕ)
      → ((added num ivl ts).ring ≡ pushed R (num + 1) ts) × ((added num ivl ts).ivl ≡ ivl)
  unfolding add new_request_counter
  ring-added num ivl [] = (refl, refl)
  ring-added num ivl (t ∷ ts) = let (a, b) = ring-added num ivl ts in (ap (R.push t) a, b)

  current-added :
      KeepsOldest R
      → (num ivl now : ℕ) (ts : List ℕ)
      → R.current (R.push now (added num ivl ts).ring) ≡ get_or (now ∷ ts) num 0
  current-added keeps num ivl now ts =
      ap (λ r. R.current (R.push now r)) (ring-added num ivl ts).0
      ∙ ap (λ n. R.current (pushed R n (now ∷ ts))) (omega arith)
      ∙ keeps num (now ∷ ts)

  -- After requests at times that do not go back, a counter of `num` requests in `ivl` says that
  -- the next request is above the limit exactly where, with this one, more than `num` requests
  -- were made within `ivl` before now.
  pub add-recent :
      KeepsOldest R
      → (num ivl now : ℕ) (ts : List ℕ) → Ordered now (now ∷ ts)
      → ((add now (added num ivl ts)).0 ≡ true) ↔ (num < recent now ivl (now ∷ ts))
  unfolding add
  add-recent keeps num ivl now ts o =
      rw (current-added keeps num ivl now ts, (ring-added num ivl ts).1)
        (recent-get_or now ivl now num (now ∷ ts) o (omega arith))
