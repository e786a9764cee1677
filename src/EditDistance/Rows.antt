-- ===== src/EditDistance/Rows.antt =====
-- internal/agdalg/levenshtein.go: the rows hold the distances of the prefixes.
use ad_guard_dns.Base.{
  ℕ, zero, suc, ◌+◌, ◌-◌, ◌≤◌, ◌<◌, min, ◌≡◌, refl, ◌∙◌, ap, List, [], ◌∷◌, length, get_or, eqb,
  arith, Bool, true, false, lt→ltb, if◌then◌else◌,
}
use ad_guard_dns.EditDistance.{
  set_elem, cell, fill_row, fill_rows, count_up, has_transposition, by_rows,
}
use ad_guard_dns.EditDistance.Recurrence.{dist, dist-from_zero}

length-set_elem : (xs : List ℕ) (i v : ℕ) → length (set_elem xs i v) ≡ length xs
length-set_elem [] i v = refl
length-set_elem (x ∷ xs) zero v = refl
length-set_elem (x ∷ xs) (suc i) v = ap suc (length-set_elem xs i v)

get_or-set_elem :
    (xs : List ℕ) (i j v : ℕ)
    → i < length xs
    → get_or (set_elem xs i v) j 0 ≡ (if eqb i j then v else get_or xs j 0)
get_or-set_elem [] i j v h = absurd (omega arith)
get_or-set_elem (x ∷ xs) zero zero v h = ground arith
get_or-set_elem (x ∷ xs) zero (suc j) v h = ground arith
get_or-set_elem (x ∷ xs) (suc i) zero v h = ground arith
get_or-set_elem (x ∷ xs) (suc i) (suc j) v h = ground (arith, get_or-set_elem xs i j v)

length-count_up : (i : ℕ) (xs : List ℕ) → length (count_up i xs) ≡ length xs
unfolding count_up
length-count_up i [] = refl
length-count_up i (x ∷ xs) = ap suc (length-count_up (suc i) xs)

get_or-count_up : (i k : ℕ) (xs : List ℕ) → k < length xs → get_or (count_up i xs) k 0 ≡ i + k
unfolding count_up
get_or-count_up i k [] h = absurd (omega arith)
get_or-count_up i zero (x ∷ xs) h = omega arith
get_or-count_up i (suc k) (x ∷ xs) h = omega (arith, get_or-count_up (suc i) k xs)

min_if :
    (t : Bool) (x y z w : ℕ)
    → min (min x y) (min z (if t then w else z))
      ≡ (if t then min (min (min x y) z) w else min (min x y) z)
min_if true x y z w = omega arith
min_if false x y z w = omega arith

module _ (a b : List ℕ) where
  -- the row holds the distances from the first `i` bytes, up to the place `m`
  record IsFilled (i m : ℕ) (row : List ℕ) : Type 0 where
    size : length row ≡ length b + 1
    filled : (k : ℕ) → k ≤ m → get_or row k 0 ≡ dist a b i k

  -- the row before the last one, which is only of the right length in the first round
  abbrev IsBefore : ℕ → List ℕ → Type 0
  IsBefore zero row = length row ≡ length b + 1
  IsBefore (suc i) row = IsFilled i (length b) row

  IsBefore-size : (i : ℕ) (row : List ℕ) → IsBefore i row → length row ≡ length b + 1
  IsBefore-size zero row h = h
  IsBefore-size (suc i) row h = h.size

  cell-dist :
      (i j : ℕ) (prev_prev prev curr : List ℕ)
      → j < length b
      → IsBefore i prev_prev
      → IsFilled i (length b) prev
      → IsFilled (suc i) j curr
      → cell a b i j prev_prev prev curr ≡ dist a b (suc i) (suc j)
  unfolding cell dist has_transposition
  cell-dist zero j pp p c lt before pf cf =
      ground (arith, pf.filled (j + 1), pf.filled j, cf.filled j)
  cell-dist (suc i) zero pp p c lt before pf cf =
      ground (arith, pf.filled 1, pf.filled 0, cf.filled 0)
  cell-dist (suc i) (suc j) pp p c lt before pf cf =
      let e : suc j - 1 ≡ j = omega arith in
      let f : suc i - 1 ≡ i = omega arith in
      let g : suc j + 1 ≡ suc (suc j) = omega arith in
      rw
        (
          cell,
          e,
          f,
          g,
          lt→ltb 0 (suc i) (omega arith),
          lt→ltb 0 (suc j) (omega arith),
          pf.filled (suc (suc j)) (omega arith),
          pf.filled (suc j) (omega arith),
          cf.filled (suc j) (omega arith),
          before.filled j (omega arith),
        )
        (min_if _ _ _ _ _)

  fill_row-IsFilled :
      (n i j : ℕ) (prev_prev prev curr : List ℕ)
      → j + n ≡ length b
      → IsBefore i prev_prev
      → IsFilled i (length b) prev
      → IsFilled (suc i) j curr
      → IsFilled (suc i) (length b) (fill_row a b n i j prev_prev prev curr)
  unfolding fill_row
  fill_row-IsFilled zero i j pp p c e before pf cf = record {
    size = cf.size;
    filled = λ k h. cf.filled k (omega arith);
  }
  fill_row-IsFilled (suc n) i j pp p c e before pf cf =
      fill_row-IsFilled n i (suc j) pp p _ (omega arith) before pf (record {
        size = length-set_elem c (suc j) _ ∙ cf.size;
        filled = λ k h. ground (
          arith,
          get_or-set_elem c (suc j) k (cell a b i j pp p c),
          cell-dist i j pp p c (omega arith) before pf cf,
          cf.filled k,
          cf.size,
        );
      })

  first_value :
      (i k : ℕ) (c : List ℕ)
      → length c ≡ length b + 1
      → k ≤ 0
      → get_or (set_elem c 0 (suc i)) k 0 ≡ dist a b (suc i) k
  unfolding dist
  first_value i zero c size h = ground (arith, get_or-set_elem c 0 0 (suc i))
  first_value i (suc k) c size h = absurd (omega arith)

  first_cell :
      (i : ℕ) (c : List ℕ) → length c ≡ length b + 1 → IsFilled (suc i) 0 (set_elem c 0 (suc i))
  first_cell i c size = record {
    size = length-set_elem c 0 (suc i) ∙ size;
    filled = λ k h. first_value i k c size h;
  }

  fill_rows-dist :
      (n i : ℕ) (prev_prev prev curr : List ℕ)
      → i + n ≡ length a
      → IsBefore i prev_prev
      → IsFilled i (length b) prev
      → length curr ≡ length b + 1
      → get_or (fill_rows a b n i prev_prev prev curr) (length b) 0 ≡ dist a b (length a) (length b)
  unfolding fill_rows
  fill_rows-dist zero i pp p c e before pf size =
      let same : i ≡ length a = omega arith in rw (← same) (pf.filled (length b) (omega arith))
  fill_rows-dist (suc n) i pp p c e before pf size =
      fill_rows-dist n (suc i) p _ pp (omega arith) pf
        (fill_row-IsFilled (length b) i 0 pp p _ (omega arith) before pf (first_cell i c size))
        (IsBefore-size i pp before)

  -- With rows from the pool of the right length, whatever they hold, the loops compute the distance.
  pub by_rows-dist :
      (curr prev prev_prev : List ℕ)
      → length curr ≡ length b + 1
      → length prev ≡ length b + 1
      → length prev_prev ≡ length b + 1
      → by_rows a b curr prev prev_prev ≡ dist a b (length a) (length b)
  unfolding by_rows
  by_rows-dist curr prev prev_prev h0 h1 h2 =
      fill_rows-dist (length a) 0 prev_prev (count_up 0 prev) curr (omega arith) h2
        (record { size = length-count_up 0 prev ∙ h1; filled = λ k h. counted k h }) h0
    where
      counted : (k : ℕ) → k ≤ length b → get_or (count_up 0 prev) k 0 ≡ dist a b 0 k
      counted k h = omega (arith, get_or-count_up 0 k prev, dist-from_zero a b k)
