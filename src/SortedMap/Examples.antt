-- ===== src/SortedMap/Examples.antt =====
-- internal/tlsconfig/sortedmap.go: the theorems at a map of two keys.
use ad_guard_dns.Base.{ℕ, ◌≡◌, refl, false, [], ◌∷◌, some, eqb, if◌then◌else◌, nat_eq}
use ad_guard_dns.Base.Map.{lookup, insert}
use ad_guard_dns.SortedMap.{
  SortedMap, new_sorted_map, set, get, range_fn, range_loop, search, insert_at, set_at,
}
use ad_guard_dns.SortedMap.Ordered.{IsOrdered, set-IsOrdered}

abbrev two : SortedMap ℕ
two = set 3 30 (set 7 70 new_sorted_map)

set_keys : (set 5 50 two).keys ≡ 3 ∷ 5 ∷ 7 ∷ []
unfolding set search insert_at set_at insert
set_keys = refl

range_fn_stops : range_fn (λ k. false) (some two) ≡ (3, some 30) ∷ []
unfolding range_fn range_loop lookup set search insert insert_at set_at
range_fn_stops = refl

new_sorted_map-IsOrdered : IsOrdered {V = ℕ} new_sorted_map
unfolding lookup
new_sorted_map-IsOrdered = record { ordered = refl; same_keys = λ other. refl }

two-IsOrdered : IsOrdered two
two-IsOrdered =
    (set-IsOrdered 3 30 (set 7 70 new_sorted_map)
      (set-IsOrdered 7 70 new_sorted_map new_sorted_map-IsOrdered).0).0

set-IsOrdered_example :
    IsOrdered (set 5 50 two)
    × ((other : ℕ)
        → get other (some (set 5 50 two)) ≡ (if eqb 5 other then some 50 else get other (some two)))
set-IsOrdered_example = set-IsOrdered 5 50 two two-IsOrdered
