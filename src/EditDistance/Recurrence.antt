-- ===== src/EditDistance/Recurrence.antt =====
-- internal/agdalg/levenshtein.go: the recurrence of the distance, and its bounds.
use ad_guard_dns.Base.{
  ℕ, zero, suc, ◌+◌, ◌≤◌, min, ◌≡◌, refl, List, eqb, ◌&&◌, arith, if◌then◌else◌,
}
use ad_guard_dns.EditDistance.{byte_at, substitution}

module _ (a b : List ℕ) where
  -- The distance of the first `i` bytes of one text and the first `j` bytes of the other, by single
  -- deletions, insertions, substitutions and transpositions of neighbours that are not edited again.
  unfoldable pub dist : (i j : ℕ) → ℕ
  dist zero j = j
  dist (suc i) zero = suc i
  dist (suc zero) (suc j) =
      min (min (dist zero (suc j) + 1) (dist (suc zero) j + 1))
        (dist zero j + substitution a b zero j)
  dist (suc (suc i)) (suc zero) =
      min (min (dist (suc i) (suc zero) + 1) (dist (suc (suc i)) zero + 1))
        (dist (suc i) zero + substitution a b (suc i) zero)
  dist (suc (suc i)) (suc (suc j)) =
      let transposed = dist i j + substitution a b (suc i) (suc j) in
      let others =
        min (min (dist (suc i) (suc (suc j)) + 1) (dist (suc (suc i)) (suc j) + 1))
          (dist (suc i) (suc j) + substitution a b (suc i) (suc j)) in
      if eqb (byte_at a (suc i)) (byte_at b j) && eqb (byte_at a i) (byte_at b (suc j))
      then min others transposed
      else others

  pub dist-zero : (i : ℕ) → dist i zero ≡ i
  unfolding dist
  dist-zero zero = refl
  dist-zero (suc i) = refl

  pub dist-from_zero : (j : ℕ) → dist zero j ≡ j
  unfolding dist
  dist-from_zero j = refl

  pub dist-insert : (i j : ℕ) → dist i (suc j) ≤ dist i j + 1
  unfolding dist
  dist-insert zero j = omega arith
  dist-insert (suc zero) zero = omega arith
  dist-insert (suc (suc i)) zero = omega arith
  dist-insert (suc zero) (suc j) = omega arith
  dist-insert (suc (suc i)) (suc j) = ground arith

  pub dist-delete : (i j : ℕ) → dist (suc i) j ≤ dist i j + 1
  unfolding dist
  dist-delete zero zero = omega arith
  dist-delete (suc i) zero = omega arith
  dist-delete zero (suc j) = omega arith
  dist-delete (suc i) (suc zero) = omega arith
  dist-delete (suc i) (suc (suc j)) = ground arith

  pub dist-substitute : (i j : ℕ) → dist (suc i) (suc j) ≤ dist i j + substitution a b i j
  unfolding dist
  dist-substitute zero j = omega arith
  dist-substitute (suc i) zero = omega arith
  dist-substitute (suc i) (suc j) = ground arith

  -- the distance is at least the difference of the lengths
  pub le-dist : (i j : ℕ) → (i ≤ dist i j + j) × (j ≤ dist i j + i)
  unfolding dist
  le-dist zero j = omega arith
  le-dist (suc i) zero = omega arith
  le-dist (suc zero) (suc j) =
      ground (arith, le-dist zero (suc j), le-dist (suc zero) j, le-dist zero j)
  le-dist (suc (suc i)) (suc zero) =
      ground (arith, le-dist (suc i) (suc zero), le-dist (suc (suc i)) zero, le-dist (suc i) zero)
  le-dist (suc (suc i)) (suc (suc j)) = ground (
    arith,
    le-dist (suc i) (suc (suc j)),
    le-dist (suc (suc i)) (suc j),
    le-dist (suc i) (suc j),
    le-dist i j,
  )
