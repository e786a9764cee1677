-- ===== src/SortedMap.antt =====
-- internal/tlsconfig/sortedmap.go: the map that keeps its keys in order. A key is a number here.
mod Ordered
mod Examples
use ad_guard_dns.Base.{
  ℕ, zero, suc, Bool, true, false, List, [], ◌∷◌, Option, some, none, length, ltb, eqb,
  if◌then◌else◌, nat_eq,
}
use ad_guard_dns.Base.Map.{Map, lookup, insert, delete}

pub record SortedMap (V : Type 0) : Type 0 where
  pub vals : Map ℕ V
  pub keys : List ℕ

abbrev pub new_sorted_map : {V : Type 0} → SortedMap V
new_sorted_map = record { vals = []; keys = [] }

-- slices.BinarySearch on a sorted slice: the first place whose key is not smaller, and whether it
-- holds the key
unfoldable pub search : ℕ → List ℕ → ℕ × Bool
search key [] = (0, false)
search key (k ∷ ks) =
    let (i, has) = search key ks in if ltb k key then (suc i, has) else (0, eqb k key)

-- slices.Insert, slices.Delete of one element, and keys[i] = key
unfoldable pub insert_at : ℕ → ℕ → List ℕ → List ℕ
insert_at zero key ks = key ∷ ks
insert_at (suc i) key [] = key ∷ []
insert_at (suc i) key (k ∷ ks) = k ∷ insert_at i key ks

unfoldable pub delete_at : ℕ → List ℕ → List ℕ
delete_at i [] = []
delete_at zero (k ∷ ks) = ks
delete_at (suc i) (k ∷ ks) = k ∷ delete_at i ks

unfoldable pub set_at : ℕ → ℕ → List ℕ → List ℕ
set_at i key [] = []
set_at zero key (k ∷ ks) = key ∷ ks
set_at (suc i) key (k ∷ ks) = k ∷ set_at i key ks

module _ {V : Type 0} where
  unfoldable pub set : ℕ → V → SortedMap V → SortedMap V
  unfolding search insert_at set_at
  set key val m =
      let (i, has) = search key m.keys in
      record {
        vals = insert key val m.vals;
        keys = if has then set_at i key m.keys else insert_at i key m.keys;
      }

  unfoldable pub get : ℕ → Option (SortedMap V) → Option V
  get key none = none
  get key (some m) = lookup key m.vals

  unfoldable pub del_key : ℕ → Option V → SortedMap V → SortedMap V
  unfolding search delete_at
  del_key key none m = m
  del_key key (some v) m = record {
    vals = delete key m.vals;
    keys = delete_at (search key m.keys).0 m.keys;
  }

  -- none is a nil map
  unfoldable pub del : ℕ → Option (SortedMap V) → Option (SortedMap V)
  unfolding del_key
  del key none = none
  del key (some m) = some (del_key key (lookup key m.vals) m)

  unfoldable pub clear : Option (SortedMap V) → Option (SortedMap V)
  clear none = none
  clear (some m) = some new_sorted_map

  -- The keys and values that `rangeFn` hands to a function, which answers whether to go on. A key
  -- without a value comes with the zero value, here none.
  unfoldable pub range_loop : (ℕ → Bool) → List ℕ → Map ℕ V → List (ℕ × Option V)
  range_loop cont [] vals = []
  range_loop cont (k ∷ ks) vals =
      let rest = range_loop cont ks vals in (k, lookup k vals) ∷ (if cont k then rest else [])

  unfoldable pub range_fn : (ℕ → Bool) → Option (SortedMap V) → List (ℕ × Option V)
  unfolding range_loop
  range_fn cont none = []
  range_fn cont (some m) = range_loop cont m.keys m.vals

  unfoldable pub len : Option (SortedMap V) → ℕ
  len none = 0
  len (some m) = length m.vals
