-- ===== src/HashPrefix/Encoded.antt =====
-- internal/filter/hashprefix/storage.go: the pieces of the buffer are the encoded hashes.
use ad_guard_dns.Base.{
  ℕ, zero, suc, ◌+◌, ◌≡◌, ◌∙◌, ap, sym, refl, List, [], ◌∷◌, ◌++◌, All, length, length-append, take,
  arith,
}
use ad_guard_dns.CustomDomains.{Name}
use ad_guard_dns.HashPrefix.{
  drop, SuffixMap, suffixes, encode, write_suffixes, write_all, count_all, pieces, hashes,
}

length-encode : (s : Name) → length (encode s) ≡ length s + length s
unfolding encode
length-encode [] = omega arith
length-encode (b ∷ s) = omega (arith, length-encode s)

-- The pairs of a prefix and a suffix, in the order in which they are written.
abbrev pub with_prefix : Name → List Name → List (Name × Name)
with_prefix pref [] = []
with_prefix pref (suf ∷ l) = (pref, suf) ∷ with_prefix pref l

unfoldable pub pairs : List Name → SuffixMap → List (Name × Name)
pairs [] s = []
pairs (pref ∷ ps) s = with_prefix pref (suffixes pref s) ++ pairs ps s

abbrev pub encoded : List (Name × Name) → List Name
encoded [] = []
encoded ((p, q) ∷ l) = (encode p ++ encode q) ∷ encoded l

abbrev joined : List Name → Name
joined [] = []
joined (s ∷ l) = s ++ joined l

append_assoc : (xs ys zs : Name) → (xs ++ ys) ++ zs ≡ xs ++ (ys ++ zs)
append_assoc [] ys zs = refl
append_assoc (x ∷ xs) ys zs = ap (λ t. x ∷ t) (append_assoc xs ys zs)

take-append : (n : ℕ) (s t : Name) → length s ≡ n → take n (s ++ t) ≡ s
take-append zero [] t h = refl
take-append zero (a ∷ s) t h = ground arith
take-append (suc n) [] t h = ground arith
take-append (suc n) (a ∷ s) t h = ap (λ r. a ∷ r) (take-append n s t (omega (arith, h)))

drop-append : (n : ℕ) (s t : Name) → length s ≡ n → drop n (s ++ t) ≡ t
drop-append zero [] t h = refl
drop-append zero (a ∷ s) t h = ground arith
drop-append (suc n) [] t h = ground arith
drop-append (suc n) (a ∷ s) t h = drop-append n s t (omega (arith, h))

pieces-joined : (l : List Name) → All (λ s. length s ≡ 64) l → pieces (length l) (joined l) ≡ l
unfolding pieces
pieces-joined [] h = refl
pieces-joined (s ∷ l) (h, hs) =
    rw (take-append 64 s (joined l) h, drop-append 64 s (joined l) h)
      (ap (λ t. s ∷ t) (pieces-joined l hs))

-- a hash has 32 bytes
abbrev pub Fits : Name × Name → Type 0
Fits (p, q) = length p + length q ≡ 32

encoded-lengths : (l : List (Name × Name)) → All Fits l → All (λ s. length s ≡ 64) (encoded l)
encoded-lengths [] h = h
encoded-lengths ((p, q) ∷ l) (h, hs) = (
  omega (arith, length-append (encode p) (encode q), length-encode p, length-encode q),
  encoded-lengths l hs,
)

length-encoded : (l : List (Name × Name)) → length (encoded l) ≡ length l
length-encoded [] = refl
length-encoded ((p, q) ∷ l) = omega (arith, length-encoded l)

joined-with_prefix :
    (pref : Name) (l : List Name) (rest : List (Name × Name))
    → joined (encoded (with_prefix pref l ++ rest)) ≡ write_suffixes pref l ++ joined (encoded rest)
unfolding write_suffixes
joined-with_prefix pref [] rest = refl
joined-with_prefix pref (suf ∷ l) rest =
    ap (λ t. (encode pref ++ encode suf) ++ t) (joined-with_prefix pref l rest)
    ∙ sym (append_assoc (encode pref ++ encode suf) (write_suffixes pref l) (joined (encoded rest)))

write_all-joined : (ps : List Name) (s : SuffixMap) → write_all ps s ≡ joined (encoded (pairs ps s))
unfolding write_all pairs
write_all-joined [] s = refl
write_all-joined (pref ∷ ps) s =
    ap (λ t. write_suffixes pref (suffixes pref s) ++ t) (write_all-joined ps s)
    ∙ sym (joined-with_prefix pref (suffixes pref s) (pairs ps s))

length-with_prefix :
    (pref : Name) (l : List Name) (rest : List (Name × Name))
    → length (with_prefix pref l ++ rest) ≡ length l + length rest
length-with_prefix pref [] rest = omega arith
length-with_prefix pref (suf ∷ l) rest = omega (arith, length-with_prefix pref l rest)

count_all-length : (ps : List Name) (s : SuffixMap) → count_all ps s ≡ length (pairs ps s)
unfolding count_all pairs
count_all-length [] s = refl
count_all-length (pref ∷ ps) s =
    omega (arith, count_all-length ps s, length-with_prefix pref (suffixes pref s) (pairs ps s))

-- Where the prefixes and the suffixes stored under them have 32 bytes together, the answer is the
-- encoding of each prefix with each of its suffixes, in their order, each a text of its own.
pub hashes-encoded :
    (prefs : List Name) (s : SuffixMap)
    → All Fits (pairs prefs s)
    → hashes prefs s ≡ encoded (pairs prefs s)
unfolding hashes
hashes-encoded prefs s h =
    let l = encoded (pairs prefs s) in
    ap (λ n. pieces n (write_all prefs s))
      (count_all-length prefs s ∙ sym (length-encoded (pairs prefs s)))
    ∙ ap (pieces (length l)) (write_all-joined prefs s)
    ∙ pieces-joined l (encoded-lengths (pairs prefs s) h)
