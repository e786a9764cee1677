-- ===== src/SortedMap/Ordered.antt =====
-- internal/tlsconfig/sortedmap.go: the keys are sorted, and they are those that have a value.
use ad_guard_dns.Base.{
  ℕ, ◌<◌, ◌≤◌, ◌≡◌, refl, Bool, true, false, not, ◌&&◌, ◌||◌, List, [], ◌∷◌, Option, some, none,
  ltb, eqb, contains, if◌then◌else◌, arith, nat_eq, ==_iff, Option-cases, inl, inr,
}
use ad_guard_dns.Base.Map.{lookup, lookup-insert, lookup-delete}
use ad_guard_dns.SortedMap.{SortedMap, search, insert_at, delete_at, set_at, set, get, del, del_key}

-- strictly increasing, above a bound
abbrev pub is_above : ℕ → List ℕ → Bool
is_above b [] = true
is_above b (k ∷ ks) = ltb b k && is_above k ks

abbrev pub is_sorted : List ℕ → Bool
is_sorted [] = true
is_sorted (k ∷ ks) = is_above k ks

abbrev placed : ℕ → List ℕ → List ℕ
placed key ks =
    if (search key ks).1
    then set_at (search key ks).0 key ks
    else insert_at (search key ks).0 key ks

above-placed :
    (b key : ℕ) (ks : List ℕ) → b < key → is_above b ks ≡ true → is_above b (placed key ks) ≡ true
unfolding search set_at insert_at
above-placed b key [] h s = ground arith
above-placed b key (k ∷ ks) h s = ground (arith, above-placed k key ks)

contains-placed :
    (key other : ℕ) (ks : List ℕ)
    → contains (placed key ks) other ≡ (eqb key other || contains ks other)
unfolding search set_at insert_at
contains-placed key other [] = ground arith
contains-placed key other (k ∷ ks) = ground (arith, contains-placed key other ks)

abbrev taken : ℕ → List ℕ → List ℕ
taken key ks = delete_at (search key ks).0 ks

above-contains :
    (b key : ℕ) (ks : List ℕ) → is_above b ks ≡ true → key ≤ b → contains ks key ≡ false
above-contains b key [] s h = refl
above-contains b key (k ∷ ks) s h = ground (arith, above-contains k key ks)

above_weaken : (b c : ℕ) (ks : List ℕ) → b ≤ c → is_above c ks ≡ true → is_above b ks ≡ true
above_weaken b c [] h s = refl
above_weaken b c (k ∷ ks) h s = ground arith

above-taken :
    (b key : ℕ) (ks : List ℕ)
    → is_above b ks ≡ true
    → contains ks key ≡ true
    → is_above b (taken key ks) ≡ true
unfolding search delete_at
above-taken b key [] s c = ground arith
above-taken b key (k ∷ ks) s c =
    ground (arith, above-taken k key ks, above-contains k key ks, above_weaken b k ks)

contains-taken :
    (b key other : ℕ) (ks : List ℕ)
    → is_above b ks ≡ true
    → contains ks key ≡ true
    → contains (taken key ks) other ≡ (not (eqb key other) && contains ks other)
unfolding search delete_at
contains-taken b key other [] s c = ground arith
contains-taken b key other (k ∷ ks) s c =
    ground (arith, contains-taken k key other ks, above-contains k key ks)

sorted-placed : (key : ℕ) (ks : List ℕ) → is_sorted ks ≡ true → is_sorted (placed key ks) ≡ true
unfolding search set_at insert_at
sorted-placed key [] s = ground arith
sorted-placed key (k ∷ ks) s = ground (arith, above-placed k key ks)

sorted-taken :
    (key : ℕ) (ks : List ℕ)
    → is_sorted ks ≡ true
    → contains ks key ≡ true
    → is_sorted (taken key ks) ≡ true
unfolding search delete_at
sorted-taken key [] s c = ground arith
sorted-taken key (k ∷ []) s c = ground arith
sorted-taken key (k ∷ j ∷ ks) s c =
    ground (arith, above-taken k key (j ∷ ks), above-contains k key (j ∷ ks))

sorted-contains-taken :
    (key other : ℕ) (ks : List ℕ)
    → is_sorted ks ≡ true
    → contains ks key ≡ true
    → contains (taken key ks) other ≡ (not (eqb key other) && contains ks other)
unfolding search delete_at
sorted-contains-taken key other [] s c = ground arith
sorted-contains-taken key other (k ∷ ks) s c =
    ground (arith, contains-taken k key other ks, above-contains k key ks)

abbrev has_value : {V : Type 0} → Option V → Bool
has_value none = false
has_value (some v) = true

module _ {V : Type 0} where
  -- the keys are in order without a repetition, and they are the keys of the values
  pub record IsOrdered (m : SortedMap V) : Type 0 where
    pub ordered : is_sorted m.keys ≡ true
    pub same_keys : (other : ℕ) → contains m.keys other ≡ has_value (lookup other m.vals)

  -- Setting a key of an ordered map leaves it ordered, and then the key has the value and every
  -- other key has what it had.
  pub set-IsOrdered :
      (key : ℕ) (val : V) (m : SortedMap V)
      → IsOrdered m
      → IsOrdered (set key val m)
        × ((other : ℕ)
            → get other (some (set key val m))
              ≡ (if eqb key other then some val else get other (some m)))
  unfolding set get
  set-IsOrdered key val m inv = (
    record {
      ordered = sorted-placed key m.keys inv.ordered;
      same_keys = λ other. ground (
        arith,
        contains-placed key other m.keys,
        lookup-insert key other val m.vals,
        inv.same_keys other,
        ==_iff key other,
      );
    },
    λ other. lookup-insert key other val m.vals,
  )

  del_key-IsOrdered :
      (key : ℕ) (v : V) (m : SortedMap V)
      → IsOrdered m
      → lookup key m.vals ≡ some v
      → IsOrdered (del_key key (some v) m)
        × ((other : ℕ)
            → lookup other (del_key key (some v) m).vals
              ≡ (if eqb key other then none else lookup other m.vals))
  unfolding del_key
  del_key-IsOrdered key v m inv found =
      let has : contains m.keys key ≡ true = ground (arith, inv.same_keys key) in
      (
        record {
          ordered = sorted-taken key m.keys inv.ordered has;
          same_keys = λ other. ground (
            arith,
            sorted-contains-taken key other m.keys inv.ordered has,
            lookup-delete key other m.vals,
            inv.same_keys other,
          );
        },
        λ other. lookup-delete key other m.vals,
      )

  -- what holds of a map that is nil or ordered
  abbrev pub IsOrderedOrNil : Option (SortedMap V) → Type 0
  IsOrderedOrNil none = Unit
  IsOrderedOrNil (some m) = IsOrdered m

  -- Deleting a key of a map that is ordered or nil, whether the key is in it or not, leaves it ordered
  -- or nil, and then the key has no value and every other key has what it had.
  del-IsOrdered :
      (key : ℕ) (m : Option (SortedMap V))
      → IsOrderedOrNil m
      → IsOrderedOrNil (del key m)
        × ((other : ℕ) → get other (del key m) ≡ (if eqb key other then none else get other m))
  unfolding del get del_key
  del-IsOrdered key none inv = (tt, λ other. ground arith)
  del-IsOrdered key (some m) inv = elim (Option-cases (lookup key m.vals)) [
    | inl absent ↦ rw absent (inv, λ other. ground (arith, ==_iff key other))
    | inr (v, found) ↦ rw found (del_key-IsOrdered key v m inv found)
  ]
