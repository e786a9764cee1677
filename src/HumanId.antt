-- ===== src/HumanId.antt =====
-- internal/agd/humanid.go: the identifiers of devices for people, and the normalizer that makes one
-- from any text. A text is the list of its runes.
mod Valid
mod Parse
mod Examples
use ad_guard_dns.Base.{
  ℕ, zero, suc, ◌+◌, ◌-◌, min, Bool, true, false, not, ◌&&◌, ◌||◌, List, [], ◌∷◌, ◌++◌, Option,
  some, none, length, take, eqb, ltb, leb, if◌then◌else◌,
}

abbrev pub hyphen : ℕ
hyphen = 45

abbrev pub rune_error : ℕ
rune_error = 65533

abbrev pub max_human_id_len : ℕ
max_human_id_len = 63

abbrev pub max_domain_name_len : ℕ
max_domain_name_len = 253

-- What the code calls of the netutil package of the golibs module.
pub record Names : Type 0 where
  pub is_valid_host_outer_rune : ℕ → Bool
  pub validate_hostname_label : List ℕ → Bool

-- the runes of the valid labels: outer ones first and last, with hyphens between them
abbrev pub inner : Names → ℕ → Bool
inner N r = eqb r hyphen || N.is_valid_host_outer_rune r

-- strings.Index(s, "---") >= 0
unfoldable pub has_three : List ℕ → Bool
has_three (a ∷ b ∷ c ∷ s) =
    let rest = has_three (b ∷ c ∷ s) in (eqb a hyphen && eqb b hyphen && eqb c hyphen) || rest
has_three _ = false

-- The number of bytes of a rune in UTF-8.
abbrev pub rune_len : ℕ → ℕ
rune_len r = if ltb r 128 then 1 else if ltb r 2048 then 2 else if ltb r 65536 then 3 else 4

abbrev pub byte_len : List ℕ → ℕ
byte_len [] = 0
byte_len (r ∷ s) = rune_len r + byte_len s

module _ ⦃N : Names⦄ where
  -- `newHumanID`: the identifier, or none for each of its errors
  unfoldable pub new_human_id : List ℕ → Option (List ℕ)
  unfolding has_three
  new_human_id s =
      if ltb (byte_len s) 1 || ltb max_human_id_len (byte_len s)
      then none
      else if not (N.validate_hostname_label s)
      then none
      else if has_three s
      then none
      else some s

pub data State : Type 0 where
  initial invalid valid : State

-- The buffer holds the newest rune first.
pub record Normalizer : Type 0 where
  pub buf : List ℕ
  pub state : State
  pub prev_rune : ℕ
  pub prev_prev_rune : ℕ

abbrev pub new_normalizer : Normalizer
new_normalizer = record { buf = []; state = initial; prev_rune = 0; prev_prev_rune = 0 }

unfoldable pub write : ℕ → Normalizer → Normalizer
write r p = record p { buf = r ∷ p.buf; prev_prev_rune = p.prev_rune; prev_rune = r }

-- `Truncate(Len() - n)`
unfoldable pub drop_newest : ℕ → List ℕ → List ℕ
drop_newest zero b = b
drop_newest (suc n) [] = []
drop_newest (suc n) (r ∷ b) = drop_newest n b

unfoldable pub truncate_hyphens : Normalizer → Normalizer
unfolding drop_newest
truncate_hyphens p =
    if not (eqb p.prev_rune hyphen)
    then p
    else if eqb p.prev_prev_rune hyphen
    then record p { buf = drop_newest 2 p.buf; prev_prev_rune = rune_error; prev_rune = rune_error }
    else record p { buf = drop_newest 1 p.buf; prev_rune = rune_error }

module _ ⦃N : Names⦄ where
  unfoldable pub next_initial : ℕ → Normalizer → Normalizer
  unfolding write
  next_initial r p =
      if not (N.is_valid_host_outer_rune r) then p else write r (record p { state = valid })

  unfoldable pub next_valid : ℕ → Normalizer → Normalizer
  unfolding write truncate_hyphens drop_newest
  next_valid r p =
      if eqb r hyphen
      then (if eqb p.prev_prev_rune hyphen && eqb p.prev_rune hyphen
          then record p {
            buf = drop_newest 2 p.buf;
            prev_prev_rune = rune_error;
            prev_rune = rune_error;
            state = invalid;
          }
          else write r p)
      else if not (N.is_valid_host_outer_rune r)
      then record (truncate_hyphens p) { state = invalid }
      else write r p

  unfoldable pub next_invalid : ℕ → Normalizer → Normalizer
  unfolding write
  next_invalid r p =
      if not (N.is_valid_host_outer_rune r)
      then p
      else if not (eqb p.prev_rune hyphen)
      then write r (write hyphen (record p { state = valid }))
      else write r (record p { state = valid })

  unfoldable pub dispatch : State → ℕ → Normalizer → Normalizer
  unfolding next_initial next_valid next_invalid
  dispatch initial r p = next_initial r p
  dispatch valid r p = next_valid r p
  dispatch invalid r p = next_invalid r p

  unfoldable pub next : ℕ → Normalizer → Normalizer
  unfolding dispatch
  next r p = dispatch p.state r p

  unfoldable pub next_all : List ℕ → Normalizer → Normalizer
  next_all [] p = p
  next_all (r ∷ s) p = next_all s (next r p)

-- bytes.TrimRight(b, "-") on a buffer with the newest rune first
unfoldable pub trim : List ℕ → List ℕ
trim [] = []
trim (r ∷ b) = let rest = trim b in if eqb r hyphen then rest else r ∷ b

abbrev pub reversed : List ℕ → List ℕ
reversed [] = []
reversed (r ∷ b) = reversed b ++ r ∷ []

-- `result`: the first 63 bytes, without the hyphens at the end. The runes that are written are
-- ASCII, a byte each.
unfoldable pub result : Normalizer → List ℕ
unfolding drop_newest trim
result p = reversed (trim (drop_newest (length p.buf - max_human_id_len) p.buf))

module _ ⦃N : Names⦄ where
  -- the end of `ParseNormalized`, from the result of the normalizer
  unfoldable pub normalized_id : List ℕ → Option (List ℕ)
  unfolding new_human_id
  normalized_id [] = none
  normalized_id (r ∷ []) = if eqb r hyphen then none else new_human_id (r ∷ [])
  normalized_id s = new_human_id s

  -- `ParseNormalized`
  unfoldable pub parse_normalized : List ℕ → Option (List ℕ)
  unfolding new_human_id next_all result normalized_id
  parse_normalized s = elim (new_human_id s) [
    | some id ↦ some id
    | none ↦
        (if ltb (byte_len s) 1 || ltb max_domain_name_len (byte_len s)
          then none
          else normalized_id (result (next_all s new_normalizer)))
  ]
