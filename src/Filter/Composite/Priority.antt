-- ===== src/Filter/Composite/Priority.antt =====
-- internal/filter/internal/composite/composite.go: the order in which the filters decide.
use ad_guard_dns.Base.{
  ◌≡◌, refl, ap, sym, ◌∙◌, Bool, true, false, String, List, [], ◌∷◌, ◌++◌, Option, some, none,
  arith, All, ◌⊎◌, inl, inr, ◌↔◌, Bool-cases, subst,
}
use mathlib.Core.List.{append-nil, append_assoc}
use ad_guard_dns.Filter.{Result, allowed, Request, Rules, done}
use ad_guard_dns.Filter.Rewrite.{Answers}
use ad_guard_dns.Filter.Composite.{
  Filter, Config, RequestFilter, Checked, passed, matched, broken, append_all, append_if_not_nil,
  new, Filtered, result, failed, first_match, filter_req_with_rule_lists, filter_request,
}

-- the filters of a list that are there
abbrev pub present : List (Option RequestFilter) → List RequestFilter
present [] = []
present (none ∷ fs) = present fs
present (some f ∷ fs) = f ∷ present fs

append_all-present :
    (orig : List RequestFilter) (fs : List (Option RequestFilter))
    → append_all orig fs ≡ orig ++ present fs
unfolding append_all append_if_not_nil
append_all-present orig [] = sym (append-nil orig)
append_all-present orig (none ∷ fs) = append_all-present orig fs
append_all-present orig (some f ∷ fs) =
    append_all-present (orig ++ f ∷ []) fs ∙ append_assoc orig (f ∷ []) (present fs)

present-append :
    (xs ys : List (Option RequestFilter)) → present (xs ++ ys) ≡ present xs ++ present ys
present-append [] ys = refl
present-append (none ∷ xs) ys = present-append xs ys
present-append (some f ∷ xs) ys = ap (◌∷◌ f) (present-append xs ys)

append_if_not_nil-present :
    (orig : List RequestFilter) (f : Option RequestFilter)
    → append_if_not_nil orig f ≡ orig ++ present (f ∷ [])
unfolding append_if_not_nil
append_if_not_nil-present orig none = sym (append-nil orig)
append_if_not_nil-present orig (some f) = refl

-- The request filters of a configuration that are there, in their order: safe browsing, adult
-- content, general safe search, YouTube safe search, newly registered domains, the categories,
-- typosquatting.
abbrev pub ordered : Config → List RequestFilter
ordered c = present (
    c.safe_browsing
    ∷ c.adult_blocking
    ∷ c.general_safe_search
    ∷ c.you_tube_safe_search
    ∷ c.new_registered_domains
    ∷ (c.category_filters ++ c.typosquatting ∷ []))

req_filters-new : (c : Config) → (new c).req_filters ≡ ordered c
unfolding new
req_filters-new c = simp (append_if_not_nil-present, append_all-present) (simp (← present-append))

module _ (req : Request) where
  first_match-append :
      (pre fs : List RequestFilter) (r : Option Result)
      → All (λ f. f req ≡ passed) pre
      → first_match req (pre ++ fs) r ≡ first_match req fs r
  unfolding first_match
  first_match-append [] fs r h = refl
  first_match-append (f ∷ pre) fs r h = rw h.0 (first_match-append pre fs r h.1)

  -- How a list of request filters decides a request for which the rule lists give `r`: by the first
  -- filter that does not pass it, or by `r` where all filters pass it.
  pub data DecidedBy (fs : List RequestFilter) (r : Option Result) (out : Filtered) : Type 0 where
    by_match :
        (pre post : List RequestFilter) (f : RequestFilter) (m : Result)
        → fs ≡ pre ++ f ∷ post
        → All (λ g. g req ≡ passed) pre
        → f req ≡ matched m
        → out ≡ result (some m)
        → DecidedBy fs r out
    by_error :
        (pre post : List RequestFilter) (f : RequestFilter) (msg : String)
        → fs ≡ pre ++ f ∷ post
        → All (λ g. g req ≡ passed) pre
        → f req ≡ broken msg
        → out ≡ failed msg
        → DecidedBy fs r out
    by_rules : All (λ g. g req ≡ passed) fs → out ≡ result r → DecidedBy fs r out

  passed-DecidedBy :
      (f : RequestFilter) {fs : List RequestFilter} {r : Option Result} {out : Filtered}
      → f req ≡ passed
      → DecidedBy fs r out
      → DecidedBy (f ∷ fs) r out
  passed-DecidedBy f p (by_match pre post g m e h c o) =
      by_match (f ∷ pre) post g m (ap (◌∷◌ f) e) (p, h) c o
  passed-DecidedBy f p (by_error pre post g msg e h c o) =
      by_error (f ∷ pre) post g msg (ap (◌∷◌ f) e) (p, h) c o
  passed-DecidedBy f p (by_rules h o) = by_rules (p, h) o

  Checked-cases :
      (c : Checked)
      → (c ≡ passed) ⊎ (((m : Result) × (c ≡ matched m)) ⊎ ((msg : String) × (c ≡ broken msg)))
  Checked-cases passed = inl refl
  Checked-cases (matched m) = inr (inl (m, refl))
  Checked-cases (broken msg) = inr (inr (msg, refl))

  first_match-DecidedBy :
      (fs : List RequestFilter) (r : Option Result) → DecidedBy fs r (first_match req fs r)
  unfolding first_match
  first_match-DecidedBy [] r = by_rules tt refl
  first_match-DecidedBy (f ∷ fs) r = elim (Checked-cases (f req)) [
    | inl p ↦ rw (first_match, p) (passed-DecidedBy f p (first_match-DecidedBy fs r))
    | inr (inl (m, h)) ↦ rw (first_match, h) (by_match [] fs f m refl tt h refl)
    | inr (inr (msg, h)) ↦ rw (first_match, h) (by_error [] fs f msg refl tt h refl)
  ]

  first_match-passed :
      (fs : List RequestFilter) (r : Option Result)
      → All (λ f. f req ≡ passed) fs
      → first_match req fs r ≡ result r
  unfolding first_match
  first_match-passed [] r h = refl
  first_match-passed (f ∷ fs) r h = rw h.0 (first_match-passed fs r h.1)

  DecidedBy-first_match :
      {fs : List RequestFilter} {r : Option Result} {out : Filtered}
      → DecidedBy fs r out
      → first_match req fs r ≡ out
  unfolding first_match
  DecidedBy-first_match {fs} {r} {out} (by_match pre post f m e h c o) =
      rw (e, first_match-append pre (f ∷ post) r h) (rw (first_match, c, o))
  DecidedBy-first_match {fs} {r} {out} (by_error pre post f msg e h c o) =
      rw (e, first_match-append pre (f ∷ post) r h) (rw (first_match, c, o))
  DecidedBy-first_match {fs} {r} (by_rules h o) = first_match-passed fs r h ∙ sym o

-- Whether a result of the rule lists, from the custom rules or not, stands whatever the request
-- filters say.
abbrev pub is_final : Option Result → Bool → Bool
is_final none custom = false
is_final (some (allowed list text)) custom = custom
is_final (some r) custom = true

-- How a composite filter decides, from what its rule lists give.
pub data Decided (req : Request) (fs : List RequestFilter) (r : Option Result) (custom : Bool)
    (out : Filtered) : Type 0 where
  at_once : is_final r custom ≡ true → out ≡ result r → Decided req fs r custom out
  later : is_final r custom ≡ false → DecidedBy req fs r out → Decided req fs r custom out

module _ (e : Rules) (a : Answers) (f : Filter) (req : Request) where
  filter_request-final :
      (r : Option Result) (custom : Bool)
      → filter_req_with_rule_lists e a f req ≡ done (r, custom)
      → is_final r custom ≡ true
      → filter_request e a f req ≡ done (result r)
  unfolding filter_request
  filter_request-final none custom h t = ground arith
  filter_request-final (some (allowed l x)) true h t = rw (h)
  filter_request-final (some (allowed l x)) false h t = ground arith
  filter_request-final (some r) custom h t = rw (h)

  filter_request-later :
      (r : Option Result) (custom : Bool)
      → filter_req_with_rule_lists e a f req ≡ done (r, custom)
      → is_final r custom ≡ false
      → filter_request e a f req ≡ done (first_match req f.req_filters r)
  unfolding filter_request
  filter_request-later none custom h t = rw (h)
  filter_request-later (some (allowed l x)) false h t = rw (h)
  filter_request-later (some (allowed l x)) true h t = ground arith
  filter_request-later (some r) custom h t = ground arith

done_injective : {x y : Filtered} → done x ≡ done y → x ≡ y
done_injective h = ground arith

module _ (e : Rules) (a : Answers) (c : Config) (req : Request) where
  request-Decided :
      (r : Option Result) (custom : Bool) (out : Filtered)
      → filter_req_with_rule_lists e a (new c) req ≡ done (r, custom)
      → filter_request e a (new c) req ≡ done out
      → Decided req (ordered c) r custom out
  request-Decided r custom out h g = elim (Bool-cases (is_final r custom)) [
    | inl t ↦ at_once t (done_injective (sym g ∙ filter_request-final e a (new c) req r custom h t))
    | inr t ↦ later t (
        subst (λ fs. DecidedBy req fs r out) (req_filters-new c)
          (subst (DecidedBy req (new c).req_filters r)
            (done_injective (sym (filter_request-later e a (new c) req r custom h t) ∙ g))
            (first_match-DecidedBy req (new c).req_filters r)))
  ]

  Decided-request :
      (r : Option Result) (custom : Bool) (out : Filtered)
      → filter_req_with_rule_lists e a (new c) req ≡ done (r, custom)
      → Decided req (ordered c) r custom out
      → filter_request e a (new c) req ≡ done out
  Decided-request r custom out h (at_once t o) =
      filter_request-final e a (new c) req r custom h t ∙ ap (λ x. done x) (sym o)
  Decided-request r custom out h (later t d) =
      filter_request-later e a (new c) req r custom h t
      ∙ ap (λ fs. done (first_match req fs r)) (req_filters-new c)
      ∙ ap (λ x. done x) (DecidedBy-first_match req d)

  -- Where the rule lists of a new filter give `r`, from the custom rules or not, and do not panic,
  -- the filter answers with `out` exactly where one of these holds: `r` is final (it is there, and is
  -- from the custom rules or is not an allowed result) and `out` is `r`; or `r` is not final and, of
  -- the request filters of the configuration in their order, the first that does not pass the request
  -- gives `out`, a result or an error; or `r` is not final, all of them pass it, and `out` is `r`.
  pub filter_request-Decided :
      (r : Option Result) (custom : Bool) (out : Filtered)
      → filter_req_with_rule_lists e a (new c) req ≡ done (r, custom)
      → (filter_request e a (new c) req ≡ done out) ↔ Decided req (ordered c) r custom out
  filter_request-Decided r custom out h =
      (request-Decided r custom out h, Decided-request r custom out h)
