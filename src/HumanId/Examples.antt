-- ===== src/HumanId/Examples.antt =====
-- internal/agd/humanid.go: the theorem at a text that is normalized.
use ad_guard_dns.Base.{ℕ, ◌≡◌, ap, refl, Bool, true, ◌&&◌, ◌||◌, List, [], ◌∷◌, some, leb, arith}
use ad_guard_dns.HumanId.{
  Names, inner, new_human_id, parse_normalized, has_three, next_all, next, dispatch, next_initial,
  next_valid, next_invalid, write, result, drop_newest, trim, truncate_hyphens, normalized_id,
}
use ad_guard_dns.HumanId.Valid.{is_label, AcceptsLabels, AsciiOuter, last_outer, all_inner}
use ad_guard_dns.HumanId.Parse.{parse_normalized-new_human_id}

-- the digits and the small letters
abbrev is_outer : ℕ → Bool
is_outer r = (leb 48 r && leb r 57) || (leb 97 r && leb r 122)

abbrev outer_only : Names
outer_only = record { is_valid_host_outer_rune = is_outer; validate_hostname_label = λ s. true }

instance abbrev names : Names
names = record {
  is_valid_host_outer_rune = is_outer;
  validate_hostname_label = is_label outer_only;
}

last_outer-names : (s : List ℕ) → last_outer names s ≡ last_outer outer_only s
last_outer-names [] = refl
last_outer-names (r ∷ []) = refl
last_outer-names (r ∷ t ∷ s) = last_outer-names (t ∷ s)

all_inner-names : (s : List ℕ) → all_inner names s ≡ all_inner outer_only s
all_inner-names [] = refl
all_inner-names (r ∷ s) = ap (λ b. inner outer_only r && b) (all_inner-names s)

names-AcceptsLabels : AcceptsLabels names
names-AcceptsLabels s h = rw (← last_outer-names s, ← all_inner-names s) h

names-AsciiOuter : AsciiOuter names
names-AsciiOuter r h = (ground arith, λ e. ground arith)

-- "a---b!c"
abbrev text : List ℕ
text = 97 ∷ 45 ∷ 45 ∷ 45 ∷ 98 ∷ 33 ∷ 99 ∷ []

-- "a-b-c"
parse_run : parse_normalized text ≡ some (97 ∷ 45 ∷ 98 ∷ 45 ∷ 99 ∷ [])
unfolding parse_normalized new_human_id has_three next_all next dispatch next_initial next_valid
    next_invalid write result drop_newest trim truncate_hyphens normalized_id
parse_run = refl

parse_normalized-new_human_id_example :
    (id : List ℕ) × (parse_normalized text ≡ some id) × (new_human_id id ≡ some id)
parse_normalized-new_human_id_example =
    parse_normalized-new_human_id names-AsciiOuter names-AcceptsLabels text (omega arith) refl
