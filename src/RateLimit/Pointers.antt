-- ===== src/RateLimit/Pointers.antt =====
-- internal/dnsserver/ratelimit/backoff.go: a go-cache of pointers and the values that they point to,
-- as one value with a start for each subnet.
use ad_guard_dns.Base.{
  ℕ, ◌+◌, ◌<◌, ◌≤◌, ◌≡◌, ◌∙◌, refl, [], Option, some, none, leb, if◌then◌else◌, arith, nat_eq, ◌==◌,
  ==_iff,
}
use ad_guard_dns.Base.Map.{Map, lookup, insert, lookup-insert}
use ad_guard_dns.Net.{Prefix, prefix_eq}
use ad_guard_dns.RateLimit.Backoff.{Caches, Expires}

-- A value, and when it was stored.
pub record Entry {ℓ} (V : Type ℓ) : Type ℓ where
  pub start : ℕ
  pub value : V

abbrev pub at_pointer {ℓ} : {V : Type ℓ} → ℕ → ℕ → ℕ → Option (Entry V) → Option ℕ
at_pointer d t p none = none
at_pointer d t p (some w) = if leb t (w.start + d) then some p else none

pub at_pointer-some {ℓ} :
    {V : Type ℓ} (d t p q : ℕ) (o : Option (Entry V))
    → at_pointer d t p o ≡ some q
    → (w : Entry V) × (o ≡ some w) × (t ≤ w.start + d) × (p ≡ q)
at_pointer-some d t p q none h = ground arith
at_pointer-some d t p q (some w) h = (w, refl, ground arith, ground arith)

abbrev pub update {ℓ} : {A : Type ℓ} → Prefix → A → (Prefix → A) → Prefix → A
update j x W k = if j == k then x else W k

module _ {ℓ} ⦃C : Caches⦄ {V : Type ℓ} where
  -- Each entry has a value of its own, at `ptr`.
  pub record Inv (d : ℕ) (W : Prefix → Option (Entry V)) (c : C.Cache) (m : Map ℕ V) (next : ℕ)
      : Type ℓ where
    pub ptr : Prefix → ℕ
    pub found : (t : ℕ) (k : Prefix) → C.get t k c ≡ at_pointer d t (ptr k) (W k)
    pub value : (k : Prefix) (w : Entry V) → W k ≡ some w → lookup (ptr k) m ≡ some w.value
    pub below : (k : Prefix) (w : Entry V) → W k ≡ some w → ptr k < next
    pub apart : (k j : Prefix) (w v : Entry V) → W k ≡ some w → W j ≡ some v → ptr k ≡ ptr j → k ≡ j
    pub lasts : C.duration c ≡ d

  pub value-Inv :
      (d : ℕ) (j : Prefix) {W : Prefix → Option (Entry V)} {c : C.Cache} {m : Map ℕ V} {next : ℕ}
      (v : Inv d W c m next) (w : Entry V) (x : V)
      → W j ≡ some w
      → Inv d (update j (some (record w { value = x })) W) c (insert (v.ptr j) x m) next
  value-Inv d j {W} {c} {m} v w x e = record {
    ptr = v.ptr;
    found = λ s k. ground (arith, ==_iff j k, v.found s k);
    value = λ k u a. ground (
      arith,
      ==_iff j k,
      v.value k u,
      lookup-insert (v.ptr j) (v.ptr k) x m,
      ==_iff (v.ptr j) (v.ptr k),
      v.apart j k w u e,
    );
    below = λ k u a. ground (arith, ==_iff j k, v.below k u, v.below j w e);
    apart = λ k i u y a b p.
        ground (arith, ==_iff j k, ==_iff j i, v.apart k i u y, v.apart j i w y e, v.apart k j u w);
    lasts = v.lasts;
  }

  pub starts-Inv :
      Expires C
      → (d t : ℕ) (j : Prefix) (x : V) {W : Prefix → Option (Entry V)} {c : C.Cache} {m : Map ℕ V}
        {next : ℕ}
      → 0 < d
      → Inv d W c m next
      → Inv d
          (update j (some (record { start = t; value = x })) W)
          (C.set_default t j next c)
          (insert next x m)
          (next + 1)
  starts-Inv e d t j x {W} {c} {m} {next} pos v = record {
    ptr = λ k. if j == k then next else v.ptr k;
    found =
        λ s k. ground (arith, ==_iff j k, v.found s k, v.lasts, e.get-set_default t s next j k c);
    value = λ k u a. ground (
      arith,
      ==_iff j k,
      v.value k u,
      lookup-insert next (v.ptr k) x m,
      lookup-insert next next x m,
      ==_iff next (v.ptr k),
      ==_iff next next,
      v.below k u,
    );
    below = λ k u a. ground (arith, ==_iff j k, v.below k u);
    apart = λ k i u y a b p.
        ground (arith, ==_iff j k, ==_iff j i, v.apart k i u y, v.below k u, v.below i y);
    lasts = e.duration-set_default t next j c ∙ v.lasts;
  }

  -- A later pointer, and another way to say the same entries.
  pub later-Inv :
      {d : ℕ} {W W' : Prefix → Option (Entry V)} {c : C.Cache} {m : Map ℕ V} {next next' : ℕ}
      → ((k : Prefix) → W k ≡ W' k)
      → next ≤ next'
      → Inv d W c m next
      → Inv d W' c m next'
  later-Inv same h v = record {
    ptr = v.ptr;
    found = λ t k. ground (arith, v.found t k, same k);
    value = λ k w e. v.value k w (same k ∙ e);
    below = λ k w e. ground (arith, v.below k w (same k ∙ e));
    apart = λ k j w u a b. v.apart k j w u (same k ∙ a) (same j ∙ b);
    lasts = v.lasts;
  }

  pub new-Inv : Expires C → (d next : ℕ) → 0 < d → Inv d (λ k. none) (C.new d) [] next
  new-Inv e d next pos = record {
    ptr = λ k. 0;
    found = λ t k. e.get-new t d k;
    value = λ k w a. ground arith;
    below = λ k w a. ground arith;
    apart = λ k j w u a. ground arith;
    lasts = e.duration-new d pos;
  }
