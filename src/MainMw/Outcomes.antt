-- ===== src/MainMw/Outcomes.antt =====
-- internal/dnssvc/internal/mainmw/mainmw.go: what holds of every query that the handler does not panic on.
use ad_guard_dns.Base.{◌≡◌, ◌≢◌, refl, subst, List, [], ◌∷◌, ◌++◌, All}
use ad_guard_dns.Filter.{Outcome, done, panicked}
use ad_guard_dns.Filter.Composite.{◌>>=◌}

module _ {ℓ κ} {A : Type ℓ} where
  -- a predicate of the value, if there is one
  abbrev pub OnDone : (A → Type κ) → Outcome A → Type κ
  OnDone P (done a) = P a
  OnDone P panicked = Unit

  pub done-OnDone : (P : A → Type κ) (o : Outcome A) (a : A) → OnDone P o → o ≡ done a → P a
  done-OnDone P o a h e = subst (OnDone P) e h

  pub All-snoc : (P : A → Type κ) (xs : List A) (y : A) → All P xs → P y → All P (xs ++ y ∷ [])
  All-snoc P [] y h p = (p, tt)
  All-snoc P (x ∷ xs) y h p = (h.0, All-snoc P xs y h.1 p)

module _ {ℓ κ μ ν} {A : Type ℓ} {B : Type κ} where
  pub bind-OnDone :
      (P : A → Type μ) (Q : B → Type ν) (o : Outcome A) (f : A → Outcome B)
      → OnDone P o
      → ((a : A) → P a → OnDone Q (f a))
      → OnDone Q (o >>= f)
  bind-OnDone P Q (done a) f h k = k a h
  bind-OnDone P Q panicked f h k = tt

module _ {ℓ κ ν} {A : Type ℓ} {B : Type κ} where
  -- where every value will do
  pub bind-always :
      (Q : B → Type ν) (o : Outcome A) (f : A → Outcome B)
      → ((a : A) → OnDone Q (f a))
      → OnDone Q (o >>= f)
  bind-always Q (done a) f k = k a
  bind-always Q panicked f k = tt

module _ {ℓ κ μ} {A : Type ℓ} where
  pub both-OnDone :
      (P : A → Type κ) (Q : A → Type μ) (o : Outcome A)
      → OnDone P o
      → OnDone Q o
      → OnDone (λ a. P a × Q a) o
  both-OnDone P Q (done a) h k = (h, k)
  both-OnDone P Q panicked h k = tt

module _ {ℓ} {A : Type ℓ} where
  -- there is a value, and the predicate holds of it
  abbrev pub DoneWith : (A → Type 0) → Outcome A → Type 0
  DoneWith P (done a) = P a
  DoneWith P panicked = ⊥

  pub done-DoneWith : (P : A → Type 0) (o : Outcome A) → o ≢ panicked → OnDone P o → DoneWith P o
  done-DoneWith P (done a) n h = h
  done-DoneWith P panicked n h = absurd (n refl)

  pub DoneWith-ne : (P : A → Type 0) (o : Outcome A) → DoneWith P o → o ≢ panicked
  DoneWith-ne P (done a) h = λ p. cc
  DoneWith-ne P panicked h = absurd h

module _ {ℓ κ} {A : Type ℓ} {B : Type κ} where
  pub bind-DoneWith :
      (P : A → Type 0) (Q : B → Type 0) (o : Outcome A) (f : A → Outcome B)
      → DoneWith P o
      → ((a : A) → P a → DoneWith Q (f a))
      → DoneWith Q (o >>= f)
  bind-DoneWith P Q (done a) f h k = k a h
  bind-DoneWith P Q panicked f h k = h
