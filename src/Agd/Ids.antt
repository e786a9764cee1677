-- ===== src/Agd/Ids.antt =====
-- internal/agd/account.go, profile.go, device.go and devicetype.go, with internal/agdvalidate: the
-- identifiers that are made from texts. A text is looked at as the list of its code points, where
-- those that are not ASCII are refused by each check.
use Prim.Native.Char.{code}
use ad_guard_dns.Base.{
  ℕ, ◌+◌, ◌-◌, ◌*◌, ◌^◌, Bool, ◌&&◌, String, List, [], ◌∷◌, Option, some, none, ltb, leb, eqb,
  if◌then◌else◌,
}

abbrev pub codes : String → List ℕ
codes String.[] = []
codes (String.◌∷◌ c s) = code c ∷ codes s

-- an `int32`, as its bits, that is above zero
abbrev pub is_positive_int32 : ℕ → Bool
is_positive_int32 i = ltb 0 i && ltb i (2 ^ 31)

-- none for the error of `validate.Positive`
unfoldable pub new_account_id : ℕ → Option ℕ
new_account_id i = if is_positive_int32 i then some i else none

abbrev is_digit : ℕ → Bool
is_digit c = leb b'0' c && leb c b'9'

-- the digits of `strconv.ParseInt` in base 10, none for a syntax error
unfoldable pub parse_digits : ℕ → List ℕ → Option ℕ
parse_digits n [] = some n
parse_digits n (c ∷ cs) =
    let rest = parse_digits (n * 10 + (c - b'0')) cs in if is_digit c then rest else none

-- a number that is out of range is an error of ParseInt, or of the check that follows
positive : Option ℕ → Option ℕ
unfolding new_account_id
positive none = none
positive (some n) = new_account_id n

-- No text with a minus stands for a positive number.
account_id_of_codes : List ℕ → Option ℕ
unfolding positive
account_id_of_codes [] = none
account_id_of_codes (c ∷ []) = positive (parse_digits 0 (c ∷ []))
account_id_of_codes (c ∷ d ∷ cs) =
    positive (parse_digits 0 (if eqb c b'+' then d ∷ cs else c ∷ d ∷ cs))

unfoldable pub new_account_id_from_string : String → Option ℕ
unfolding account_id_of_codes
new_account_id_from_string s = account_id_of_codes (codes s)
