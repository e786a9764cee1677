-- ===== src/HumanId/Valid.antt =====
-- internal/agd/humanid.go: what the normalizer leaves is a valid identifier.
use ad_guard_dns.Base.{
  ℕ, ◌<◌, ◌≡◌, ◌≢◌, refl, sym, subst, Bool, true, false, not, ◌&&◌, List, [], ◌∷◌, length, get_or,
  any, eqb, leb, arith, Bool-cases, inl, inr,
}
use ad_guard_dns.HumanId.{
  Names, hyphen, inner, State, initial, invalid, valid, Normalizer, new_normalizer, write,
  drop_newest, truncate_hyphens, next_initial, next_valid, next_invalid, dispatch, next, next_all,
}

-- A buffer, the newest rune first: the first rune that was written is an outer one, the others are
-- hyphens or outer ones, and no three hyphens follow each other.
unfoldable pub wf : Names → List ℕ → Bool
wf N [] = false
wf N (r ∷ []) = N.is_valid_host_outer_rune r
wf N (r ∷ s ∷ b) =
    let rest = wf N (s ∷ b) in
    inner N r && not (eqb r hyphen && eqb s hyphen && eqb (get_or b 0 0) hyphen) && rest

abbrev pub last_outer : Names → List ℕ → Bool
last_outer N [] = false
last_outer N (r ∷ []) = N.is_valid_host_outer_rune r
last_outer N (r ∷ s ∷ b) = last_outer N (s ∷ b)

abbrev pub all_inner : Names → List ℕ → Bool
all_inner N [] = true
all_inner N (r ∷ b) = inner N r && all_inner N b

-- what the documentation of netutil says of a label that it accepts
abbrev pub is_label : Names → List ℕ → Bool
is_label N s =
    leb 1 (length s)
    && leb (length s) 63
    && N.is_valid_host_outer_rune (get_or s 0 0)
    && last_outer N s
    && all_inner N s

abbrev pub AcceptsLabels : Names → Type 0
AcceptsLabels N = (s : List ℕ) → is_label N s ≡ true → N.validate_hostname_label s ≡ true

-- Outer runes are ASCII letters and digits.
abbrev pub AsciiOuter : Names → Type 0
AsciiOuter N = (r : ℕ) → N.is_valid_host_outer_rune r ≡ true → (r < 128) × (r ≢ hyphen)

pub record Inv (N : Names) (p : Normalizer) : Type 0 where
  pub starts : p.state ≡ initial → (p.buf ≡ []) × (p.prev_rune ≡ 0)
  pub has_wf : p.state ≢ initial → wf N p.buf ≡ true
  pub prev : p.state ≡ valid → p.prev_rune ≡ get_or p.buf 0 0
  pub prev_prev : p.state ≡ valid → p.prev_prev_rune ≡ get_or p.buf 1 0
  pub no_hyphen : p.state ≡ invalid → (p.prev_rune ≢ hyphen) × (get_or p.buf 0 0 ≢ hyphen)

module _ ⦃N : Names⦄ where
  -- a rune that may follow the newest one
  wf-write :
      AsciiOuter N
      → (r : ℕ) (b : List ℕ) → wf N b ≡ true
      → inner N r ≡ true
      → (r ≡ hyphen → get_or b 0 0 ≡ hyphen → get_or b 1 0 ≢ hyphen)
      → wf N (r ∷ b) ≡ true
  unfolding wf
  wf-write o r [] w h n = ground (arith, w)
  wf-write o r (s ∷ []) w h n = ground (arith, w, h, n)
  wf-write o r (s ∷ t ∷ b) w h n = ground (arith, w, h, n)

  wf-drop : AsciiOuter N → (r : ℕ) (b : List ℕ) → wf N (r ∷ b) ≡ true → r ≡ hyphen → wf N b ≡ true
  unfolding wf
  wf-drop o r [] w h = ground (arith, o r)
  wf-drop o r (s ∷ b) w h = ground (arith, w)

  no_three :
      AsciiOuter N
      → (b : List ℕ) → wf N b ≡ true
      → get_or b 0 0 ≡ hyphen
      → get_or b 1 0 ≡ hyphen
      → get_or b 2 0 ≢ hyphen
  unfolding wf
  no_three o [] w h k = ground (arith, w)
  no_three o (r ∷ []) w h k = ground arith
  no_three o (r ∷ s ∷ b) w h k = ground (arith, w)

  next_initial-Inv :
      AsciiOuter N
      → (r : ℕ) (p : Normalizer) → p.state ≡ initial
      → Inv N p
      → Inv N (next_initial r p)
  unfolding next_initial write wf
  next_initial-Inv o r p s v = ground (arith, v.starts s)

  next_invalid-Inv :
      AsciiOuter N
      → (r : ℕ) (p : Normalizer) → p.state ≡ invalid
      → Inv N p
      → Inv N (next_invalid r p)
  unfolding next_invalid write
  next_invalid-Inv o r p s v = ground (
    arith,
    v.no_hyphen s,
    v.has_wf (ground arith),
    o r,
    wf-write o hyphen p.buf,
    wf-write o r (hyphen ∷ p.buf),
    wf-write o r p.buf,
  )

  wf-drop_one :
      AsciiOuter N
      → (b : List ℕ) → wf N b ≡ true
      → get_or b 0 0 ≡ hyphen
      → (wf N (drop_newest 1 b) ≡ true) × (get_or (drop_newest 1 b) 0 0 ≡ get_or b 1 0)
  unfolding drop_newest wf
  wf-drop_one o [] w h = ground (arith, w)
  wf-drop_one o (r ∷ []) w h = ground (arith, w, o r)
  wf-drop_one o (r ∷ s ∷ b) w h = (wf-drop o r (s ∷ b) w h, refl)

  wf-drop_two :
      AsciiOuter N
      → (b : List ℕ) → wf N b ≡ true
      → get_or b 0 0 ≡ hyphen
      → get_or b 1 0 ≡ hyphen
      → (wf N (drop_newest 2 b) ≡ true) × (get_or (drop_newest 2 b) 0 0 ≢ hyphen)
  unfolding drop_newest
  wf-drop_two o [] w h k = ground arith
  wf-drop_two o (r ∷ []) w h k = ground arith
  wf-drop_two o (r ∷ s ∷ b) w h k =
      (wf-drop o s b (wf-drop o r (s ∷ b) w h) k, no_three o (r ∷ s ∷ b) w h k)

  next_valid-Inv :
      AsciiOuter N → (r : ℕ) (p : Normalizer) → p.state ≡ valid → Inv N p → Inv N (next_valid r p)
  unfolding next_valid write truncate_hyphens
  next_valid-Inv o r p s v =
      let w = v.has_wf (ground arith) in
      ground (
        arith,
        v.prev s,
        v.prev_prev s,
        w,
        wf-drop_two o p.buf w,
        wf-drop_one o p.buf w,
        wf-write o r p.buf w,
      )

  next-Inv : AsciiOuter N → (r : ℕ) (p : Normalizer) → Inv N p → Inv N (next r p)
  unfolding next dispatch
  next-Inv o r p v = by_state p.state refl
    where
      by_state : (s : State) → p.state ≡ s → Inv N (dispatch p.state r p)
      by_state initial e = subst (λ q. Inv N (dispatch q r p)) (sym e) (next_initial-Inv o r p e v)
      by_state invalid e = subst (λ q. Inv N (dispatch q r p)) (sym e) (next_invalid-Inv o r p e v)
      by_state valid e = subst (λ q. Inv N (dispatch q r p)) (sym e) (next_valid-Inv o r p e v)

  pub next_all-Inv : AsciiOuter N → (s : List ℕ) (p : Normalizer) → Inv N p → Inv N (next_all s p)
  unfolding next_all
  next_all-Inv o [] p v = v
  next_all-Inv o (r ∷ s) p v = next_all-Inv o s (next r p) (next-Inv o r p v)

  -- once the normalizer has left its initial state, it does not return to it
  next-starts : (r : ℕ) (p : Normalizer) → p.state ≢ initial → (next r p).state ≢ initial
  unfolding next dispatch next_initial next_valid next_invalid write truncate_hyphens
  next-starts r p h = ground arith

  next-outer :
      (r : ℕ) (p : Normalizer) → N.is_valid_host_outer_rune r ≡ true → (next r p).state ≢ initial
  unfolding next dispatch next_initial next_valid next_invalid write truncate_hyphens
  next-outer r p h = ground arith

  next_all-starts :
      (s : List ℕ) (p : Normalizer) → p.state ≢ initial → (next_all s p).state ≢ initial
  unfolding next_all
  next_all-starts [] p h = h
  next_all-starts (r ∷ s) p h = next_all-starts s (next r p) (next-starts r p h)

  pub next_all-outer :
      (s : List ℕ) (p : Normalizer)
      → any N.is_valid_host_outer_rune s ≡ true
      → (next_all s p).state ≢ initial
  unfolding next_all
  next_all-outer [] p h = ground arith
  next_all-outer (r ∷ s) p h = elim (Bool-cases (N.is_valid_host_outer_rune r)) [
    | inl e ↦ next_all-starts s (next r p) (next-outer r p e)
    | inr e ↦ next_all-outer s (next r p) (ground arith)
  ]

  pub new-Inv : Inv N new_normalizer
  new-Inv = record {
    starts = λ e. (refl, refl);
    has_wf = λ e. ground (arith, e);
    prev = λ e. ground (arith, e);
    prev_prev = λ e. ground (arith, e);
    no_hyphen = λ e. ground (arith, e);
  }
