-- ===== src/Base/Equality.antt =====
-- Go's comparable types: a Boolean equality that decides the paths.
use Prim.Native.Nat.{ℕ}
use Prim.Native.String.{String}
use mathlib.Core.Path.{◌≡◌, refl}
use mathlib.Core.Logic.{◌↔◌}
use mathlib.Core.Bool.{Bool, true, false, ◌||◌}
use mathlib.Core.List.{List, [], ◌∷◌}
use text.Mathlib.TextEquality.{eq_iff as string_equal_iff}
use text.Mathlib.Text.{◌==◌ as string_equal}
use ad_guard_dns.Base.Tests.{eqb, eqb_iff}

pub record Comparable {ℓ} (K : Type ℓ) : Type ℓ where
  pub is_equal : K → K → Bool
  pub is_equal_iff : (x y : K) → (is_equal x y ≡ true) ↔ (x ≡ y)

instance abbrev pub nat_eq : Comparable ℕ
nat_eq = record { is_equal = eqb; is_equal_iff = eqb_iff }

instance abbrev pub string_eq : Comparable String
string_eq = record { is_equal = string_equal; is_equal_iff = string_equal_iff }

infix 50 ◌==◌
abbrev pub ◌==◌ {ℓ} : {K : Type ℓ} ⦃c : Comparable K⦄ → K → K → Bool
◌==◌ ⦃c⦄ x y = c.is_equal x y

pub ==_iff {ℓ} : {K : Type ℓ} ⦃c : Comparable K⦄ (x y : K) → ((x == y) ≡ true) ↔ (x ≡ y)
==_iff ⦃c⦄ = c.is_equal_iff

module _ {ℓ} {K : Type ℓ} ⦃c : Comparable K⦄ where
  pub ==_refl : (x : K) → (x == x) ≡ true
  ==_refl x = (==_iff x x).1 refl

  -- slices.Contains
  abbrev pub contains : List K → K → Bool
  contains [] key = false
  contains (x ∷ xs) key = x == key || contains xs key
