-- ===== src/CustomDomains/Matching.antt =====
-- internal/tlsconfig/customdomainindex.go: which profiles a server name is matched to.
use ad_guard_dns.Base.{
  ℕ, ◌≡◌, sym, ◌∙◌, ◌⊎◌, inl, inr, refl, Bool, true, false, not, ◌&&◌, ◌||◌, String, List, [], ◌∷◌,
  some, Option-cases, Bool-cases, ◌==◌, ==_iff, ltb, length, any, contains, arith, if◌then◌else◌,
  string_eq,
}
use ad_guard_dns.CustomDomains.{
  Name, name_eq, Item, Index, wildcard, after_dot, match_item, items, matched, match,
}

-- an item of a profile that is valid at the time and whose domain is the name
abbrev pub is_exact : String → Name → ℕ → Item → Bool
is_exact prof name now i =
    not (ltb i.not_after now)
    && not (ltb now i.not_before)
    && i.domain == name
    && i.profile_id == prof

-- the text of a wildcard of a name
abbrev pub star : Name → Name
star name = 42 ∷ 46 ∷ name

-- an item of a profile that is valid at the time and whose domain is "*." and the name
abbrev pub is_star : String → Name → ℕ → Item → Bool
is_star prof name now i =
    not (ltb i.not_after now)
    && not (ltb now i.not_before)
    && i.domain == star name
    && i.profile_id == prof

wildcard-star : (d name : Name) → wildcard d ≡ some name → d ≡ star name
unfolding wildcard
wildcard-star [] name h = ground arith
wildcard-star (a ∷ []) name h = ground arith
wildcard-star (a ∷ b ∷ s) name h = ground arith

star-wildcard : (d name : Name) → d ≡ star name → wildcard d ≡ some name
unfolding wildcard
star-wildcard d name h = rw h refl

match_item-exact :
    (prof : String) (name : Name) (now : ℕ) (i : Item)
    → ((match_item name now i).0 && not (match_item name now i).1 && i.profile_id == prof)
      ≡ is_exact prof name now i
unfolding match_item
match_item-exact prof name now i = ground arith

match_item-star :
    (prof : String) (name : Name) (now : ℕ) (i : Item)
    → ((match_item name now i).0 && (match_item name now i).1 && i.profile_id == prof) ≡ true
    → is_star prof name now i ≡ true
unfolding match_item
match_item-star prof name now i h = elim (Option-cases (wildcard i.domain)) [
  | inl e ↦ ground arith
  | inr (suf, e) ↦
      ground (arith, ==_iff suf name, wildcard-star i.domain suf e, ==_iff i.domain (star name))
]

contains-kept :
    (b c : Bool) (p prof : String) (l : List String)
    → contains (if b && c then p ∷ l else l) prof ≡ ((b && c && p == prof) || contains l prof)
contains-kept b c p prof l = ground arith

matched-exact :
    (prof : String) (name : Name) (now : ℕ) (l : List Item)
    → contains (matched false name now l) prof ≡ any (is_exact prof name now) l
unfolding matched
matched-exact prof name now [] = refl
matched-exact prof name now (i ∷ l) = ground (
  arith,
  contains-kept (match_item name now i).0 (not (match_item name now i).1) i.profile_id prof
      (matched false name now l),
  match_item-exact prof name now i,
  matched-exact prof name now l,
)

or_map :
    (m c s a : Bool)
    → (m ≡ true → s ≡ true)
    → (c ≡ true → a ≡ true)
    → (m || c) ≡ true
    → (s || a) ≡ true
or_map true c s a f g h = rw (f refl) refl
or_map false c s a f g h = ground (arith, g h)

empty-length : (l : List String) → ltb 0 (length l) ≡ false → l ≡ []
empty-length [] h = refl
empty-length (p ∷ l) h = ground arith

matched-star :
    (prof : String) (name : Name) (now : ℕ) (l : List Item)
    → contains (matched true name now l) prof ≡ true
    → any (is_star prof name now) l ≡ true
unfolding matched
matched-star prof name now [] h = h
matched-star prof name now (i ∷ l) h =
    let m = match_item name now i in
    or_map (m.0 && m.1 && i.profile_id == prof) (contains (matched true name now l) prof)
      (is_star prof name now i) (any (is_star prof name now) l) (match_item-star prof name now i)
      (matched-star prof name now l)
      (sym (contains-kept m.0 m.1 i.profile_id prof (matched true name now l)) ∙ h)

-- Each profile that `match` returns for a name has, among the items of the name, one of that very
-- domain; or, where no profile has one, among the items of what follows the first dot of the name,
-- one of the wildcard of that. The item's certificate is valid at the time, its ends included.
pub match-valid :
    (name : Name) (now : ℕ) (idx : Index) (prof : String)
    → contains (match name now idx).1 prof ≡ true
    → (any (is_exact prof name now) (items name idx) ≡ true)
      ⊎ ((suf : Name) × (after_dot name ≡ some suf)
          × (any (is_star prof suf now) (items suf idx) ≡ true)
          × (matched false name now (items name idx) ≡ []))
unfolding match
match-valid name now idx prof h =
    let exact = matched false name now (items name idx) in
    elim (Bool-cases (ltb 0 (length exact))) [
      | inl e ↦ inl (sym (matched-exact prof name now (items name idx)) ∙ ground (arith, h))
      | inr e ↦ elim (Option-cases (after_dot name)) [
        | inl n ↦ ground (arith, h)
        | inr (suf, n) ↦ inr (
          suf,
          n,
          matched-star prof suf now (items suf idx) (ground (arith, h)),
          empty-length exact e,
        )
      ]
    ]
