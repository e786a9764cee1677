-- ===== src/EditDistance/Quick.antt =====
-- internal/agdalg/levenshtein.go: the quick answers, and the distance as a whole.
use ad_guard_dns.Base.{
  ℕ, zero, suc, ◌+◌, ◌-◌, ◌≤◌, ◌<◌, ◌≡◌, refl, true, Bool-cases, Option-cases, sym, inl, inr, List,
  [], ◌∷◌, length, arith, some, subst,
}
use ad_guard_dns.EditDistance.{byte_at, same, has_prefix, contains_text, handle_quick, distance}
use ad_guard_dns.EditDistance.Recurrence.{
  dist, dist-zero, dist-from_zero, dist-delete, dist-insert, dist-substitute, le-dist,
}
use ad_guard_dns.EditDistance.Rows.{by_rows-dist}

-- `t` stands in `a` from the place `k` on
record StandsAt (a t : List ℕ) (k : ℕ) : Type 0 where
  fits : k + length t ≤ length a
  bytes : (j : ℕ) → j < length t → byte_at a (k + j) ≡ byte_at t j

cons_bytes :
    (x y : ℕ) (xs ys : List ℕ)
    → x ≡ y
    → StandsAt xs ys 0
    → (j : ℕ) → j < length (y ∷ ys)
    → byte_at (x ∷ xs) (0 + j) ≡ byte_at (y ∷ ys) j
cons_bytes x y xs ys e s zero p = e
cons_bytes x y xs ys e s (suc j) p =
    let f : 0 + suc j ≡ suc j = omega arith in
    let g : 0 + j ≡ j = omega arith in rw f (rw g at (s.bytes j (omega arith)))

prefix-StandsAt : (a t : List ℕ) → has_prefix a t ≡ true → StandsAt a t 0
prefix-StandsAt a [] h = record { fits = omega arith; bytes = λ j p. absurd (omega arith) }
prefix-StandsAt [] (y ∷ ys) h = cc
prefix-StandsAt (x ∷ xs) (y ∷ ys) h =
    let s : StandsAt xs ys 0 = prefix-StandsAt xs ys (ground arith) in
    record { fits = ground (arith, s.fits); bytes = cons_bytes x y xs ys (ground arith) s }

contains-StandsAt : (a t : List ℕ) → contains_text a t ≡ true → (k : ℕ) × StandsAt a t k
unfolding contains_text
contains-StandsAt [] t h = (0, prefix-StandsAt [] t h)
contains-StandsAt (x ∷ xs) t h = elim (Bool-cases (has_prefix (x ∷ xs) t)) [
  | inl e ↦ (0, prefix-StandsAt (x ∷ xs) t e)
  | inr e ↦
      let (k, s) = contains-StandsAt xs t (ground arith) in
      (
        suc k,
        record {
          fits = ground (arith, s.fits);
          bytes = λ j p. let f : suc k + j ≡ suc (k + j) = omega arith in rw f (s.bytes j p);
        },
      )
]

same-bytes : (a b : List ℕ) → same a b ≡ true → a ≡ b
same-bytes [] [] h = refl
same-bytes [] (y ∷ b) h = cc
same-bytes (x ∷ a) [] h = cc
same-bytes (x ∷ a) (y ∷ b) h = ground (arith, same-bytes a b)

-- bytes that are the same cost nothing
dist-diagonal :
    (a b : List ℕ) (i j : ℕ) → byte_at a i ≡ byte_at b j → dist a b (suc i) (suc j) ≤ dist a b i j
dist-diagonal a b i j h = ground (arith, dist-substitute a b i j)

dist_self : (a : List ℕ) (i : ℕ) → dist a a i i ≡ 0
dist_self a zero = dist-from_zero a a 0
dist_self a (suc i) = omega (arith, dist-diagonal a a i i refl, dist_self a i)

module _ (a t : List ℕ) (k : ℕ) (s : StandsAt a t k) where
  dist-inside : (j : ℕ) → j ≤ length t → dist a t (k + j) j ≤ k
  dist-inside zero h = let e : k + 0 ≡ k = omega arith in rw e (omega (arith, dist-zero a t k))
  dist-inside (suc j) h =
      let e : k + suc j ≡ suc (k + j) = omega arith in
      rw e (
        omega (
          arith,
          dist-diagonal a t (k + j) j (s.bytes j (omega arith)),
          dist-inside j (omega arith),
        ))

  dist-after : (m : ℕ) → dist a t (k + length t + m) (length t) ≤ k + m
  dist-after zero =
      let e : k + length t + 0 ≡ k + length t = omega arith in
      rw e (omega (arith, dist-inside (length t) (omega arith)))
  dist-after (suc m) =
      let e : k + length t + suc m ≡ suc (k + length t + m) = omega arith in
      rw e (omega (arith, dist-delete a t (k + length t + m) (length t), dist-after m))

  dist-contains : dist a t (length a) (length t) ≡ length a - length t
  dist-contains =
      let m = length a - (k + length t) in
      let e : k + length t + m ≡ length a = omega (arith, s.fits) in
      let h : dist a t (length a) (length t) ≤ k + m = rw e at (dist-after m) in
      omega (arith, le-dist a t (length a) (length t), s.fits)

  dist-inside_other : (j : ℕ) → j ≤ length t → dist t a j (k + j) ≤ k
  dist-inside_other zero h =
      let e : k + 0 ≡ k = omega arith in rw e (omega (arith, dist-from_zero t a k))
  dist-inside_other (suc j) h =
      let e : k + suc j ≡ suc (k + j) = omega arith in
      rw e (
        omega (
          arith,
          dist-diagonal t a j (k + j) (sym (s.bytes j (omega arith))),
          dist-inside_other j (omega arith),
        ))

  dist-after_other : (m : ℕ) → dist t a (length t) (k + length t + m) ≤ k + m
  dist-after_other zero =
      let e : k + length t + 0 ≡ k + length t = omega arith in
      rw e (omega (arith, dist-inside_other (length t) (omega arith)))
  dist-after_other (suc m) =
      let e : k + length t + suc m ≡ suc (k + length t + m) = omega arith in
      rw e (omega (arith, dist-insert t a (length t) (k + length t + m), dist-after_other m))

  dist-contained : dist t a (length t) (length a) ≡ length a - length t
  dist-contained =
      let m = length a - (k + length t) in
      let e : k + length t + m ≡ length a = omega (arith, s.fits) in
      let h : dist t a (length t) (length a) ≤ k + m = rw e at (dist-after_other m) in
      omega (arith, le-dist t a (length t) (length a), s.fits)

contains-dist :
    (a t : List ℕ) → contains_text a t ≡ true → dist a t (length a) (length t) ≡ length a - length t
contains-dist a t h = let (k, s) = contains-StandsAt a t h in dist-contains a t k s

contained-dist :
    (a t : List ℕ) → contains_text t a ≡ true → dist a t (length a) (length t) ≡ length t - length a
contained-dist a t h = let (k, s) = contains-StandsAt t a h in dist-contained t a k s

same-dist : (a b : List ℕ) → same a b ≡ true → dist a b (length a) (length b) ≡ 0
same-dist a b h =
    let e = same-bytes a b h in
    subst (λ c. dist a c (length a) (length c) ≡ 0) e (dist_self a (length a))

first_empty : (a b : List ℕ) → length a ≡ 0 → dist a b (length a) (length b) ≡ length b
first_empty a b h = rw h (dist-from_zero a b (length b))

second_empty : (a b : List ℕ) → length b ≡ 0 → dist a b (length a) (length b) ≡ length a
second_empty a b h = rw h (dist-zero a b (length a))

handle_quick-dist :
    (a b : List ℕ) (d : ℕ) → handle_quick a b ≡ some d → d ≡ dist a b (length a) (length b)
unfolding handle_quick
handle_quick-dist a b d h =
    ground (
      arith,
      same-dist a b,
      first_empty a b,
      second_empty a b,
      contains-dist a b,
      contained-dist a b,
    )

-- The code computes the recurrence, by its quick answers and by its rows, whatever the rows from the
-- pool hold, if they have the length that the code gives them.
pub distance-dist :
    (a b row_0 row_1 row_2 : List ℕ)
    → length row_0 ≡ length b + 1
    → length row_1 ≡ length b + 1
    → length row_2 ≡ length b + 1
    → distance a b row_0 row_1 row_2 ≡ dist a b (length a) (length b)
unfolding distance
distance-dist a b row_0 row_1 row_2 h0 h1 h2 = elim (Option-cases (handle_quick a b)) [
  | inl e ↦ rw e (by_rows-dist a b row_0 row_1 row_2 h0 h1 h2)
  | inr (d, e) ↦ rw e (handle_quick-dist a b d e)
]
