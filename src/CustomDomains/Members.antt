-- ===== src/CustomDomains/Members.antt =====
-- internal/tlsconfig/customdomainindex.go: the index is a set of certificate names, profiles and
-- domains.
use ad_guard_dns.Base.{
  ℕ, ◌≡◌, ◌∙◌, refl, ap, Bool, true, false, not, ◌&&◌, ◌||◌, String, List, [], ◌∷◌, ◌++◌, some,
  none, ◌==◌, ==_iff, nat_eq, string_eq, eqb, length, any, arith, if◌then◌else◌, contains,
  Bool-cases, inl, inr,
}
use ad_guard_dns.Base.Map.{lookup, lookup-insert}
use ad_guard_dns.CustomDomains.{
  Name, name_eq, Item, Index, State, item_of, item_id, same_id, trim_wildcard, items, add_item,
  add_loop, add, delete_same, remove_item, remove_loop, remove,
}
use ad_guard_dns.CustomDomains.SameId.{same_id_iff, any-append, any-same, any-delete_same, is_id}

-- Whether an item with the identifiers is in the index.
unfoldable pub has : String → String → Name → Index → Bool
has cert prof d idx = any (λ p. same_id p (item_id cert prof d)) (items (trim_wildcard d) idx)

is_id-domain :
    (cert prof : String) (d : Name) (item : Item) → is_id cert prof d item ≡ true → item.domain ≡ d
is_id-domain cert prof d item h = ((same_id_iff item (item_id cert prof d)).0 h).1

-- what `add_item` makes of the list of the items of a suffix
abbrev with_item : Item → List Item → List Item
with_item item l =
    if eqb (length l) 0
    then item ∷ []
    else if any (λ p. same_id p item) l
    then l
    else l ++ item ∷ []

items-add_item :
    (key : Name) (item : Item) (idx : Index)
    → items key (add_item item idx).1
      ≡ (if trim_wildcard item.domain == key then with_item item (items key idx) else items key idx)
unfolding items add_item
items-add_item key item idx =
    let suf = trim_wildcard item.domain in
    let prev = items suf idx in
    ground (
      arith,
      lookup-insert suf key (item ∷ []) idx.entries,
      lookup-insert suf key (prev ++ item ∷ []) idx.entries,
      ==_iff suf key,
    )

any-with_item :
    (cert prof : String) (d : Name) (item : Item) (l : List Item)
    → any (is_id cert prof d) (with_item item l)
      ≡ (is_id cert prof d item || any (is_id cert prof d) l)
any-with_item cert prof d item [] = ground arith
any-with_item cert prof d item (p ∷ l) = elim (Bool-cases (is_id cert prof d item)) [
  | inl e ↦
      ground
        (arith, any-same item cert prof d (p ∷ l) e, any-append (is_id cert prof d) (p ∷ l) item)
  | inr e ↦ ground (arith, any-append (is_id cert prof d) (p ∷ l) item)
]

has-add_item :
    (cert prof : String) (d : Name) (item : Item) (idx : Index)
    → has cert prof d (add_item item idx).1 ≡ (is_id cert prof d item || has cert prof d idx)
unfolding has
has-add_item cert prof d item idx = ground (
  arith,
  items-add_item (trim_wildcard d) item idx,
  any-with_item cert prof d item (items (trim_wildcard d) idx),
  is_id-domain cert prof d item,
  ==_iff (trim_wildcard item.domain) (trim_wildcard d),
)

delete_same-empty : (item : Item) (l : List Item) → length l ≡ 0 → delete_same item l ≡ l
unfolding delete_same
delete_same-empty item [] h = refl
delete_same-empty item (p ∷ l) h = ground arith

items-remove_item :
    (key : Name) (item : Item) (idx : Index)
    → items key (remove_item item idx) ≡ (
        if trim_wildcard item.domain == key
        then delete_same item (items key idx)
        else items key idx)
unfolding items remove_item delete_same
items-remove_item key item idx =
    let suf = trim_wildcard item.domain in
    ground (
      arith,
      lookup-insert suf key (delete_same item (items suf idx)) idx.entries,
      ==_iff suf key,
      delete_same-empty item (items suf idx),
    )

has-remove_item :
    (cert prof : String) (d : Name) (item : Item) (idx : Index)
    → has cert prof d (remove_item item idx) ≡ (has cert prof d idx && not (is_id cert prof d item))
unfolding has
has-remove_item cert prof d item idx = ground (
  arith,
  items-remove_item (trim_wildcard d) item idx,
  any-delete_same cert prof d item (items (trim_wildcard d) idx),
  is_id-domain cert prof d item,
  ==_iff (trim_wildcard item.domain) (trim_wildcard d),
)

is_id-item :
    (cert prof cert' prof' : String) (d d' : Name) (m n : ℕ)
    → is_id cert prof d (record {
      not_before = m;
      not_after = n;
      profile_id = prof';
      cert_name = cert';
      domain = d';
    })
      ≡ (cert' == cert && prof' == prof && d' == d)
unfolding same_id
is_id-item cert prof cert' prof' d d' m n = ground arith

add_loop-has :
    (cert prof prof' : String) (d : Name) (st : State) (ds : List Name) (b : Bool) (idx : Index)
    → has cert prof d (add_loop prof' st ds b idx).1
      ≡ ((st.cert_name == cert && prof' == prof && contains ds d) || has cert prof d idx)
unfolding add_loop
add_loop-has cert prof prof' d st [] b idx = ground arith
add_loop-has cert prof prof' d st (x ∷ ds) b idx =
    let item = item_of prof' st x in
    ground (
      arith,
      add_loop-has cert prof prof' d st ds (b || (add_item item idx).0) (add_item item idx).1,
      has-add_item cert prof d item idx,
      is_id-item cert prof st.cert_name prof' d x st.not_before st.not_after,
    )

add-entries :
    (prof : String) (ds : List Name) (st : State) (idx : Index)
    → (add prof ds st idx).entries ≡ (add_loop prof st ds false idx).1.entries
unfolding add
add-entries prof ds st idx = ground arith

-- After `add`, the index has an entry for exactly the identifiers that it had, and those of the
-- certificate, the profile and each of its domains.
pub has-add :
    (cert prof prof' : String) (d : Name) (ds : List Name) (st : State) (idx : Index)
    → has cert prof d (add prof' ds st idx)
      ≡ ((st.cert_name == cert && prof' == prof && contains ds d) || has cert prof d idx)
unfolding has items
has-add cert prof prof' d ds st idx =
    ap (λ m. any (is_id cert prof d) (elim (lookup (trim_wildcard d) m) [ none ↦ [] | some l ↦ l ]))
      (add-entries prof' ds st idx)
    ∙ add_loop-has cert prof prof' d st ds false idx

remove_loop-has :
    (cert prof cert' prof' : String) (d : Name) (ds : List Name) (idx : Index)
    → has cert prof d (remove_loop cert' prof' ds idx)
      ≡ (has cert prof d idx && not (cert' == cert && prof' == prof && contains ds d))
unfolding remove_loop
remove_loop-has cert prof cert' prof' d [] idx = ground arith
remove_loop-has cert prof cert' prof' d (x ∷ ds) idx =
    let item = item_id cert' prof' x in
    ground (
      arith,
      remove_loop-has cert prof cert' prof' d ds (remove_item item idx),
      has-remove_item cert prof d item idx,
      is_id-item cert prof cert' prof' d x 0 0,
    )

-- After `remove`, the index has an entry for exactly the identifiers that it had, less those of the
-- certificate, the profile and each of the domains.
pub has-remove :
    (cert prof cert' prof' : String) (d : Name) (ds : List Name) (idx : Index)
    → has cert prof d (remove cert' prof' ds idx)
      ≡ (has cert prof d idx && not (cert' == cert && prof' == prof && contains ds d))
unfolding remove has items
has-remove cert prof cert' prof' d ds idx = remove_loop-has cert prof cert' prof' d ds idx
