-- ===== src/HashPrefix.antt =====
-- internal/filter/hashprefix/storage.go: the storage of the hashes of host names. A host is the list
-- of its bytes, and so is a hash.
mod Matches
mod Encoded
mod Examples
use ad_guard_dns.Base.{
  ℕ, zero, suc, ◌≡◌, ◌+◌, ◌/◌, ◌%◌, Bool, true, false, ◌||◌, List, [], ◌∷◌, ◌++◌, Option, some,
  none, eqb, ltb, length, take, if◌then◌else◌, ◌==◌,
}
use ad_guard_dns.Base.Map.{Map, lookup, insert}
use ad_guard_dns.CustomDomains.{Name, name_eq}

abbrev pub prefix_len : ℕ
prefix_len = 2

abbrev pub hash_len : ℕ
hash_len = 32

abbrev pub drop : ℕ → List ℕ → List ℕ
drop zero l = l
drop (suc n) [] = []
drop (suc n) (a ∷ l) = drop n l

-- crypto/sha256
pub record Sha256 : Type 0 where
  pub sum : Name → Name

-- what the package says of its sums
abbrev pub Has32Bytes : Sha256 → Type 0
Has32Bytes H = (host : Name) → length (H.sum host) ≡ 32

abbrev pub SuffixMap : Type 0
SuffixMap = Map Name (List Name)

-- hashSuffixes[pref], where a missing entry is the empty list
unfoldable pub suffixes : Name → SuffixMap → List Name
suffixes pref m = elim (lookup pref m) [ none ↦ [] | some l ↦ l ]

-- The lines that the scanner yields, and whether it stops with an error. A line is skipped where it
-- is empty or a comment.
abbrev pub is_skipped : Name → Bool
is_skipped [] = true
is_skipped (c ∷ s) = eqb c 35

module _ ⦃H : Sha256⦄ where
  unfoldable pub scan : List Name → SuffixMap → ℕ → ℕ × SuffixMap
  unfolding suffixes
  scan [] next n = (n, next)
  scan (host ∷ lines) next n =
      if is_skipped host
      then scan lines next n
      else (let pref = take prefix_len (H.sum host) in
          let suf = drop prefix_len (H.sum host) in
          scan lines (insert pref (suffixes pref next ++ suf ∷ []) next) (n + 1))

  -- `Reset`: the number of the rules, none where the scanner failed, and the storage
  unfoldable pub reset : List Name → Bool → SuffixMap → Option ℕ × SuffixMap
  unfolding scan
  reset lines fails s =
      let (n, next) = scan lines [] 0 in if fails then (none, s) else (some n, next)

  -- the loop of `Matches`
  unfoldable pub any_suffix : Name → Name → List Name → Bool
  any_suffix sum pref [] = false
  any_suffix sum pref (suf ∷ l) = (pref ++ suf) == sum || any_suffix sum pref l

  unfoldable pub matches : Name → SuffixMap → Bool
  unfolding any_suffix
  matches host s =
      let pref = take prefix_len (H.sum host) in
      elim (lookup pref s) [ none ↦ false | some sufs ↦ any_suffix (H.sum host) pref sufs ]

-- hex.Encode
abbrev pub digit : ℕ → ℕ
digit n = if ltb n 10 then n + 48 else n + 87

unfoldable pub encode : Name → Name
encode [] = []
encode (b ∷ s) = digit (b / 16) ∷ digit (b % 16) ∷ encode s

-- what the loop over the prefixes writes into the buffer
unfoldable pub write_suffixes : Name → List Name → Name
unfolding encode
write_suffixes pref [] = []
write_suffixes pref (suf ∷ l) = encode pref ++ encode suf ++ write_suffixes pref l

unfoldable pub write_all : List Name → SuffixMap → Name
unfolding suffixes write_suffixes
write_all [] s = []
write_all (pref ∷ ps) s = write_suffixes pref (suffixes pref s) ++ write_all ps s

unfoldable pub count_all : List Name → SuffixMap → ℕ
unfolding suffixes
count_all [] s = 0
count_all (pref ∷ ps) s = length (suffixes pref s) + count_all ps s

-- the buffer in `n` pieces of 64 bytes
unfoldable pub pieces : ℕ → Name → List Name
pieces zero str = []
pieces (suc n) str = take 64 str ∷ pieces n (drop 64 str)

unfoldable pub hashes : List Name → SuffixMap → List Name
unfolding pieces count_all write_all
hashes prefs s = pieces (count_all prefs s) (write_all prefs s)
