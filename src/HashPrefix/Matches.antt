-- ===== src/HashPrefix/Matches.antt =====
-- internal/filter/hashprefix/storage.go: a host matches where its hash is that of a line.
use ad_guard_dns.Base.{
  ℕ, zero, suc, ◌+◌, ◌≡◌, ap, refl, Bool, true, false, not, ◌&&◌, ◌||◌, List, [], ◌∷◌, ◌++◌, any,
  take, if◌then◌else◌, ◌==◌, ==_iff, arith, Bool-cases, inl, inr,
}
use ad_guard_dns.Base.Map.{lookup, insert, lookup-insert}
use ad_guard_dns.CustomDomains.{Name, name_eq}
use ad_guard_dns.HashPrefix.{
  prefix_len, drop, Sha256, SuffixMap, suffixes, is_skipped, scan, reset, any_suffix, matches,
}

take-drop : (n : ℕ) (l : List ℕ) → take n l ++ drop n l ≡ l
take-drop zero l = refl
take-drop (suc n) [] = refl
take-drop (suc n) (a ∷ l) = ap (λ t. a ∷ t) (take-drop n l)

suffixes-insert :
    (p q : Name) (l : List Name) (m : SuffixMap)
    → suffixes q (insert p l m) ≡ (if p == q then l else suffixes q m)
unfolding suffixes
suffixes-insert p q l m = ground (arith, lookup-insert p q l m)

module _ ⦃H : Sha256⦄ where
  -- a line that is neither empty nor a comment and has the hash of the host
  abbrev pub is_hit : Name → Name → Bool
  is_hit host line = not (is_skipped line) && H.sum line == H.sum host

  any_suffix-append :
      (sum pref suf : Name) (l : List Name)
      → any_suffix sum pref (l ++ suf ∷ []) ≡ (any_suffix sum pref l || (pref ++ suf) == sum)
  unfolding any_suffix
  any_suffix-append sum pref suf [] = ground arith
  any_suffix-append sum pref suf (x ∷ l) = ground (arith, any_suffix-append sum pref suf l)

  matches-suffixes :
      (host : Name) (m : SuffixMap)
      → matches host m
        ≡ any_suffix
            (H.sum host)
            (take prefix_len (H.sum host))
            (suffixes (take prefix_len (H.sum host)) m)
  unfolding matches suffixes any_suffix
  matches-suffixes host m = ground arith

  matches-insert :
      (host line : Name) (m : SuffixMap)
      → let pref = take prefix_len (H.sum line) in
        matches host (insert pref (suffixes pref m ++ drop prefix_len (H.sum line) ∷ []) m)
        ≡ (matches host m || H.sum line == H.sum host)
  matches-insert host line m =
      let p = take prefix_len (H.sum line) in
      let q = take prefix_len (H.sum host) in
      let suf = drop prefix_len (H.sum line) in
      let l = suffixes p m ++ suf ∷ [] in
      ground (
        arith,
        matches-suffixes host (insert p l m),
        matches-suffixes host m,
        suffixes-insert p q l m,
        any_suffix-append (H.sum host) q suf (suffixes p m),
        take-drop prefix_len (H.sum line),
        ==_iff (q ++ suf) (H.sum host),
        ==_iff (H.sum line) (H.sum host),
        ==_iff p q,
      )

  matches-scan :
      (host : Name) (lines : List Name) (m : SuffixMap) (n : ℕ)
      → matches host (scan lines m n).1 ≡ (matches host m || any (is_hit host) lines)
  unfolding scan
  matches-scan host [] m n = ground arith
  matches-scan host (line ∷ lines) m n =
      let p = take prefix_len (H.sum line) in
      let m' = insert p (suffixes p m ++ drop prefix_len (H.sum line) ∷ []) m in
      elim (Bool-cases (is_skipped line)) [
        | inl e ↦ ground (arith, matches-scan host lines m n)
        | inr e ↦ ground (arith, matches-scan host lines m' (n + 1), matches-insert host line m)
      ]

  -- After a reset that does not fail, a host matches exactly where its hash is that of one of the
  -- lines that are neither empty nor comments; after one that fails, where it matched before.
  pub matches-reset :
      (host : Name) (lines : List Name) (fails : Bool) (m : SuffixMap)
      → matches host (reset lines fails m).1
        ≡ (if fails then matches host m else any (is_hit host) lines)
  unfolding reset matches lookup
  matches-reset host lines true m = refl
  matches-reset host lines false m = matches-scan host lines [] 0
