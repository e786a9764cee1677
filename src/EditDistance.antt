-- ===== src/EditDistance.antt =====
-- internal/agdalg/levenshtein.go: the edit distance of two ASCII texts, which are lists of their
-- bytes. Recurrence is its reference definition, and Rows and Quick compare the code with it.
mod Recurrence
mod Rows
mod Quick
mod Examples
use ad_guard_dns.Base.{
  ℕ, zero, suc, ◌+◌, ◌-◌, min, Bool, true, false, not, ◌&&◌, List, [], ◌∷◌, Option, some, none,
  length, get_or, ltb, eqb, if◌then◌else◌,
}

abbrev pub set_elem : List ℕ → ℕ → ℕ → List ℕ
set_elem [] i v = []
set_elem (x ∷ xs) zero v = v ∷ xs
set_elem (x ∷ xs) (suc i) v = x ∷ set_elem xs i v

abbrev pub byte_at : List ℕ → ℕ → ℕ
byte_at s i = get_or s i 0

-- a == b
abbrev pub same : List ℕ → List ℕ → Bool
same [] [] = true
same (x ∷ xs) (y ∷ ys) = eqb x y && same xs ys
same _ _ = false

-- strings.HasPrefix and strings.Contains
abbrev pub has_prefix : List ℕ → List ℕ → Bool
has_prefix xs [] = true
has_prefix [] (y ∷ ys) = false
has_prefix (x ∷ xs) (y ∷ ys) = eqb x y && has_prefix xs ys

unfoldable pub contains_text : List ℕ → List ℕ → Bool
contains_text [] t = has_prefix [] t
contains_text (x ∷ xs) t =
    let rest = contains_text xs t in if has_prefix (x ∷ xs) t then true else rest

unfoldable pub has_transposition : List ℕ → List ℕ → ℕ → ℕ → Bool
has_transposition a b i j =
    ltb 0 i
    && ltb 0 j
    && eqb (byte_at a i) (byte_at b (j - 1))
    && eqb (byte_at a (i - 1)) (byte_at b j)

abbrev pub substitution : List ℕ → List ℕ → ℕ → ℕ → ℕ
substitution a b i j = if eqb (byte_at a i) (byte_at b j) then 0 else 1

module _ (a b : List ℕ) where
  -- the body of the inner loop: the value of `curr[j+1]`
  unfoldable pub cell : (i j : ℕ) (prev_prev prev curr : List ℕ) → ℕ
  cell i j prev_prev prev curr =
      let cost_del = get_or prev (j + 1) 0 + 1 in
      let cost_ins = get_or curr j 0 + 1 in
      let sub = substitution a b i j in
      let cost_sub = get_or prev j 0 + sub in
      let cost_trans =
        if has_transposition a b i j then get_or prev_prev (j - 1) 0 + sub else cost_sub in
      min (min cost_del cost_ins) (min cost_sub cost_trans)

  -- the inner loop, with the number of rounds that are left
  unfoldable pub fill_row : (rounds i j : ℕ) (prev_prev prev curr : List ℕ) → List ℕ
  fill_row zero i j prev_prev prev curr = curr
  fill_row (suc n) i j prev_prev prev curr =
      fill_row n i (suc j) prev_prev prev (set_elem curr (suc j) (cell i j prev_prev prev curr))

  -- the outer loop: the rows after it are the last one, and the two that are reused
  unfoldable pub fill_rows : (rounds i : ℕ) (prev_prev prev curr : List ℕ) → List ℕ
  fill_rows zero i prev_prev prev curr = prev
  fill_rows (suc n) i prev_prev prev curr =
      fill_rows n (suc i) prev (fill_row (length b) i 0 prev_prev prev (set_elem curr 0 (suc i)))
        prev_prev

-- `for i := range prev { prev[i] = uint(i) }`, from an index on
unfoldable pub count_up : ℕ → List ℕ → List ℕ
count_up i [] = []
count_up i (x ∷ xs) = i ∷ count_up (suc i) xs

-- none where `ok` is false
unfoldable pub handle_quick : List ℕ → List ℕ → Option ℕ
handle_quick a b =
    if same a b
    then some 0
    else if eqb (length a) 0
    then some (length b)
    else if eqb (length b) 0
    then some (length a)
    else if contains_text a b
    then some (length a - length b)
    else if contains_text b a
    then some (length b - length a)
    else none

-- `row_0`, `row_1` and `row_2` are the rows from the pool, of any contents.
unfoldable pub by_rows : (a b row_0 row_1 row_2 : List ℕ) → ℕ
by_rows a b curr prev prev_prev =
    get_or (fill_rows a b (length a) 0 prev_prev (count_up 0 prev) curr) (length b) 0

after_quick : (a b row_0 row_1 row_2 : List ℕ) → Option ℕ → ℕ
unfolding by_rows
after_quick a b curr prev prev_prev (some d) = d
after_quick a b curr prev prev_prev none = by_rows a b curr prev prev_prev

unfoldable pub distance : (a b row_0 row_1 row_2 : List ℕ) → ℕ
unfolding after_quick
distance a b row_0 row_1 row_2 = after_quick a b row_0 row_1 row_2 (handle_quick a b)
