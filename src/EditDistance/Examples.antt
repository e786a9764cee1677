-- ===== src/EditDistance/Examples.antt =====
-- internal/agdalg/levenshtein.go: the theorem at two texts, and a pair of which the distance differs
-- from the Damerau–Levenshtein distance.
use ad_guard_dns.Base.{ℕ, ◌≡◌, refl, List, [], ◌∷◌, length}
use ad_guard_dns.Agd.Ids.{codes}
use ad_guard_dns.EditDistance.{
  distance, handle_quick, contains_text, by_rows, fill_rows, fill_row, cell, has_transposition,
  count_up,
}
use ad_guard_dns.EditDistance.Recurrence.{dist}
use ad_guard_dns.EditDistance.Quick.{distance-dist}

abbrev row : List ℕ
row = 9 ∷ 9 ∷ 9 ∷ 9 ∷ []

neighbours : distance (codes "abcd") (codes "acb") row row row ≡ 2
unfolding distance handle_quick contains_text by_rows fill_rows fill_row cell has_transposition
    count_up
neighbours = refl

-- "ca" becomes "abc" by a transposition and an insertion between the two, which the recurrence leaves
-- out
restricted : distance (codes "ca") (codes "abc") row row row ≡ 3
unfolding distance handle_quick contains_text by_rows fill_rows fill_row cell has_transposition
    count_up
restricted = refl

distance-dist_example :
    distance (codes "ca") (codes "abc") row row row
    ≡ dist (codes "ca") (codes "abc") (length (codes "ca")) (length (codes "abc"))
distance-dist_example = distance-dist (codes "ca") (codes "abc") row row row refl refl refl
