-- ===== src/HumanId/Parse.antt =====
-- internal/agd/humanid.go: the normalizer makes an identifier of each text that has one.
use ad_guard_dns.Base.{
  ℕ, zero, suc, ◌-◌, ◌<◌, ◌≤◌, ◌≡◌, ◌≢◌, ◌∙◌, refl, sym, ap, true, false, ◌&&◌, ◌||◌, List, [], ◌∷◌,
  ◌++◌, some, length, get_or, any, eqb, arith, Option-cases, inl, inr, length-append,
}
use ad_guard_dns.HumanId.{
  Names, hyphen, inner, max_human_id_len, max_domain_name_len, has_three, byte_len, new_human_id,
  new_normalizer, drop_newest, next_all, trim, reversed, result, normalized_id, parse_normalized,
}
use ad_guard_dns.HumanId.Valid.{
  wf, last_outer, all_inner, AcceptsLabels, AsciiOuter, new-Inv, next_all-Inv, next_all-outer,
}

length-drop_newest : (n : ℕ) (b : List ℕ) → length (drop_newest n b) ≡ length b - n
unfolding drop_newest
length-drop_newest zero b = omega arith
length-drop_newest (suc n) [] = omega arith
length-drop_newest (suc n) (r ∷ b) = omega (arith, length-drop_newest n b)

length-trim : (b : List ℕ) → length (trim b) ≤ length b
unfolding trim
length-trim [] = omega arith
length-trim (r ∷ b) = ground (arith, length-trim b)

length-reversed : (b : List ℕ) → length (reversed b) ≡ length b
length-reversed [] = refl
length-reversed (r ∷ b) = omega (arith, length-append (reversed b) (r ∷ []), length-reversed b)

get_or-append : (xs : List ℕ) (r : ℕ) → 0 < length xs → get_or (xs ++ r ∷ []) 0 0 ≡ get_or xs 0 0
get_or-append [] r h = ground arith
get_or-append (x ∷ xs) r h = refl

three-append :
    (xs : List ℕ) (c b a : ℕ)
    → has_three ((xs ++ c ∷ b ∷ []) ++ a ∷ [])
      ≡ (has_three (xs ++ c ∷ b ∷ []) || (eqb c hyphen && eqb b hyphen && eqb a hyphen))
unfolding has_three
three-append [] c b a = ground arith
three-append (x ∷ []) c b a = ground arith
three-append (x ∷ y ∷ []) c b a = ground arith
three-append (x ∷ y ∷ z ∷ xs) c b a = ground (arith, three-append (y ∷ z ∷ xs) c b a)

append-two : (xs : List ℕ) (c b : ℕ) → (xs ++ c ∷ []) ++ b ∷ [] ≡ xs ++ c ∷ b ∷ []
append-two [] c b = refl
append-two (x ∷ xs) c b = ap (λ ys. x ∷ ys) (append-two xs c b)

module _ ⦃N : Names⦄ where
  wf-drop_newest :
      (n : ℕ) (b : List ℕ) → wf N b ≡ true → n < length b → wf N (drop_newest n b) ≡ true
  unfolding drop_newest wf
  wf-drop_newest zero b w h = w
  wf-drop_newest (suc n) [] w h = ground arith
  wf-drop_newest (suc n) (r ∷ []) w h = ground arith
  wf-drop_newest (suc n) (r ∷ s ∷ b) w h =
      wf-drop_newest n (s ∷ b) (ground (arith, w)) (omega arith)

  wf-trim :
      AsciiOuter N
      → (b : List ℕ) → wf N b ≡ true
      → (wf N (trim b) ≡ true) × (get_or (trim b) 0 0 ≢ hyphen)
  unfolding trim wf
  wf-trim o [] w = ground (arith, w)
  wf-trim o (r ∷ []) w = ground (arith, o r, w)
  wf-trim o (r ∷ s ∷ b) w = ground (arith, w, wf-trim o (s ∷ b))

  all_inner-append :
      (xs : List ℕ) (r : ℕ) → all_inner N (xs ++ r ∷ []) ≡ (all_inner N xs && inner N r)
  all_inner-append [] r = ground arith
  all_inner-append (x ∷ xs) r = ground (arith, all_inner-append xs r)

  last_outer-append :
      (xs : List ℕ) (r : ℕ) → last_outer N (xs ++ r ∷ []) ≡ N.is_valid_host_outer_rune r
  last_outer-append [] r = refl
  last_outer-append (x ∷ []) r = refl
  last_outer-append (x ∷ y ∷ xs) r = last_outer-append (y ∷ xs) r

  wf-all_inner : (b : List ℕ) → wf N b ≡ true → all_inner N (reversed b) ≡ true
  unfolding wf
  wf-all_inner [] w = ground (arith, w)
  wf-all_inner (r ∷ []) w = ground (arith, w)
  wf-all_inner (r ∷ s ∷ b) w =
      ground (arith, w, wf-all_inner (s ∷ b), all_inner-append (reversed (s ∷ b)) r)

  wf-first :
      (b : List ℕ) → wf N b ≡ true → N.is_valid_host_outer_rune (get_or (reversed b) 0 0) ≡ true
  unfolding wf
  wf-first [] w = ground (arith, w)
  wf-first (r ∷ []) w = w
  wf-first (r ∷ s ∷ b) w =
      ground
        (arith, w, wf-first (s ∷ b), get_or-append (reversed (s ∷ b)) r, length-reversed (s ∷ b))

  wf-has_three : (b : List ℕ) → wf N b ≡ true → has_three (reversed b) ≡ false
  unfolding wf has_three
  wf-has_three [] w = ground (arith, w)
  wf-has_three (r ∷ []) w = refl
  wf-has_three (r ∷ s ∷ []) w = refl
  wf-has_three (r ∷ s ∷ t ∷ b) w =
      let e = append-two (reversed b) t s in
      ap (λ q. has_three (q ++ r ∷ [])) e
      ∙ three-append (reversed b) t s r
      ∙ ground (arith, w, ap has_three (sym e) ∙ wf-has_three (s ∷ t ∷ b) (ground (arith, w)))

  all_inner-byte_len : AsciiOuter N → (s : List ℕ) → all_inner N s ≡ true → byte_len s ≡ length s
  all_inner-byte_len o [] h = refl
  all_inner-byte_len o (r ∷ s) h = ground (arith, h, o r, all_inner-byte_len o s)

  wf-last : (b : List ℕ) → wf N b ≡ true → get_or b 0 0 ≢ hyphen → last_outer N (reversed b) ≡ true
  unfolding wf
  wf-last [] w h = ground (arith, w)
  wf-last (r ∷ []) w h = w
  wf-last (r ∷ s ∷ b) w h = ground (arith, w, last_outer-append (reversed (s ∷ b)) r)

  wf-length : (b : List ℕ) → wf N b ≡ true → 0 < length b
  unfolding wf
  wf-length [] w = ground (arith, w)
  wf-length (r ∷ b) w = omega arith

  -- the result of a buffer that is not empty is an identifier
  wf-new_human_id :
      AsciiOuter N
      → AcceptsLabels N
      → (b : List ℕ) → wf N b ≡ true
      → get_or b 0 0 ≢ hyphen
      → length b ≤ 63
      → new_human_id (reversed b) ≡ some (reversed b)
  unfolding new_human_id
  wf-new_human_id o a b w t h = ground (
    arith,
    a (reversed b),
    length-reversed b,
    wf-length b w,
    wf-first b w,
    wf-last b w t,
    wf-all_inner b w,
    wf-has_three b w,
    all_inner-byte_len o (reversed b),
  )

  normalized_id-new_human_id :
      (s : List ℕ) → new_human_id s ≡ some s → get_or s 0 0 ≢ hyphen → normalized_id s ≡ some s
  unfolding normalized_id new_human_id
  normalized_id-new_human_id [] e h = ground (arith, e)
  normalized_id-new_human_id (r ∷ []) e h = ground (arith, e, h)
  normalized_id-new_human_id (r ∷ s ∷ b) e h = e

  buffer-new_human_id :
      AsciiOuter N
      → AcceptsLabels N
      → (b : List ℕ) → wf N b ≡ true
      → let s = reversed (trim (drop_newest (length b - max_human_id_len) b)) in
        (new_human_id s ≡ some s) × (get_or s 0 0 ≢ hyphen)
  buffer-new_human_id o a b w =
      let n = length b - max_human_id_len in
      let d = drop_newest n b in
      let (v, t) = wf-trim o d (wf-drop_newest n b w (omega (arith, wf-length b w))) in
      (
        wf-new_human_id o a (trim d) v t (omega (arith, length-trim d, length-drop_newest n b)),
        (o (get_or (reversed (trim d)) 0 0) (wf-first (trim d) v)).1,
      )

  result-new_human_id :
      AsciiOuter N
      → AcceptsLabels N
      → (s : List ℕ) → any N.is_valid_host_outer_rune s ≡ true
      → normalized_id (result (next_all s new_normalizer))
        ≡ some (result (next_all s new_normalizer))
  unfolding result
  result-new_human_id o a s h =
      let p = next_all s new_normalizer in
      let v = next_all-Inv o s new_normalizer new-Inv in
      let (e, t) = buffer-new_human_id o a p.buf (v.has_wf (next_all-outer s new_normalizer h)) in
      normalized_id-new_human_id (result p) e t

  normalized_id-same : (s id : List ℕ) → normalized_id s ≡ some id → new_human_id s ≡ some id
  unfolding normalized_id new_human_id
  normalized_id-same [] id e = ground (arith, e)
  normalized_id-same (r ∷ []) id e = ground (arith, e)
  normalized_id-same (r ∷ t ∷ s) id e = e

  any-byte_len : (s : List ℕ) → any N.is_valid_host_outer_rune s ≡ true → 0 < byte_len s
  any-byte_len [] h = ground arith
  any-byte_len (r ∷ s) h = ground arith

  new_human_id-same : (s id : List ℕ) → new_human_id s ≡ some id → s ≡ id
  unfolding new_human_id
  new_human_id-same s id h = ground arith

  -- Where outer runes are ASCII and no hyphens, and each label that the documentation describes is
  -- accepted, every text of at most 253 bytes with at least one outer rune is parsed, and what it
  -- is parsed to is an identifier that `newHumanID` accepts as it is.
  pub parse_normalized-new_human_id :
      AsciiOuter N
      → AcceptsLabels N
      → (s : List ℕ) → byte_len s ≤ max_domain_name_len
      → any N.is_valid_host_outer_rune s ≡ true
      → (id : List ℕ) × (parse_normalized s ≡ some id) × (new_human_id id ≡ some id)
  unfolding parse_normalized
  parse_normalized-new_human_id o a s b h = elim (Option-cases (new_human_id s)) [
    | inl e ↦ (
      result (next_all s new_normalizer),
      ground (arith, e, any-byte_len s h, result-new_human_id o a s h),
      normalized_id-same (result (next_all s new_normalizer)) (result (next_all s new_normalizer))
          (result-new_human_id o a s h),
    )
    | inr (id, e) ↦ (id, ground (arith, e), ap new_human_id (sym (new_human_id-same s id e)) ∙ e)
  ]
