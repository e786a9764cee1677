-- ===== src/Base/Map.antt =====
-- Go's maps, as association lists with one entry for each key.
use mathlib.Core.Path.{◌≡◌, refl}
use mathlib.Core.Option.{Option, none, some}
use mathlib.Core.List.{List, [], ◌∷◌}
use native.Mathlib.Omega.{arith}
use ad_guard_dns.Base.Tests.{if◌then◌else◌}
use ad_guard_dns.Base.Equality.{Comparable, ◌==◌, ==_iff}

abbrev pub Map {ℓ κ} : Type ℓ → Type κ → Type (ℓ ⊔ κ)
Map K V = List (K × V)

module _ {ℓ κ} {K : Type ℓ} {V : Type κ} ⦃c : Comparable K⦄ where
  -- v, ok := m[k]
  unfoldable pub lookup : K → Map K V → Option V
  lookup key [] = none
  lookup key ((i, x) ∷ rest) = if i == key then some x else lookup key rest

  -- m[k] = v
  unfoldable pub insert : K → V → Map K V → Map K V
  insert key val [] = (key, val) ∷ []
  insert key val ((i, x) ∷ rest) =
      if i == key then (key, val) ∷ rest else (i, x) ∷ insert key val rest

  -- delete(m, k)
  unfoldable pub delete : K → Map K V → Map K V
  delete key [] = []
  delete key ((i, x) ∷ rest) =
      let kept = delete key rest in if i == key then kept else (i, x) ∷ kept

  pub lookup-insert :
      (key other : K) (val : V) (map : Map K V)
      → lookup other (insert key val map) ≡ (if key == other then some val else lookup other map)
  unfolding lookup insert
  lookup-insert key other val [] = refl
  lookup-insert key other val ((i, x) ∷ rest) =
      ground
        (arith, lookup-insert key other val rest, ==_iff i other, ==_iff i key, ==_iff key other)

  pub lookup-delete :
      (key other : K) (map : Map K V)
      → lookup other (delete key map) ≡ (if key == other then none else lookup other map)
  unfolding lookup delete
  lookup-delete key other [] = ground arith
  lookup-delete key other ((i, x) ∷ rest) =
      ground (arith, lookup-delete key other rest, ==_iff i other, ==_iff i key, ==_iff key other)

  pub lookup-insert_self :
      (key : K) (val : V) (map : Map K V) → lookup key (insert key val map) ≡ some val
  lookup-insert_self key val map = ground (arith, lookup-insert key key val map, ==_iff key key)
