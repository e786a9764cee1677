-- ===== src/CustomDomains.antt =====
-- internal/tlsconfig/customdomainindex.go: the index of the custom domains of the profiles. A name is
-- the list of its bytes.
mod SameId
mod Members
mod Matching
mod Examples
use ad_guard_dns.Base.{
  ℕ, suc, ◌+◌, ◌≡◌, ◌↔◌, Bool, true, false, not, ◌&&◌, ◌||◌, String, List, [], ◌∷◌, ◌++◌, Option,
  some, none, Comparable, ◌==◌, ==_iff, nat_eq, string_eq, eqb, eqb_iff, ltb, length, any, arith,
  if◌then◌else◌,
}
use ad_guard_dns.Base.Map.{Map, lookup, insert, delete}

abbrev pub Name : Type 0
Name = List ℕ

abbrev pub name_beq : Name → Name → Bool
name_beq [] [] = true
name_beq (a ∷ s) (b ∷ t) = eqb a b && name_beq s t
name_beq _ _ = false

pub name_beq_iff : (s t : Name) → (name_beq s t ≡ true) ↔ (s ≡ t)
name_beq_iff [] [] = ground arith
name_beq_iff [] (b ∷ t) = ground arith
name_beq_iff (a ∷ s) [] = ground arith
name_beq_iff (a ∷ s) (b ∷ t) = ground (arith, eqb_iff a b, name_beq_iff s t)

instance abbrev pub name_eq : Comparable Name
name_eq = record { is_equal = name_beq; is_equal_iff = name_beq_iff }

-- What follows the prefix "*.", where there is one.
unfoldable pub wildcard : Name → Option Name
wildcard (a ∷ b ∷ s) = if eqb a 42 && eqb b 46 then some s else none
wildcard _ = none

-- strings.TrimPrefix(s, "*.")
unfoldable pub trim_wildcard : Name → Name
unfolding wildcard
trim_wildcard s = elim (wildcard s) [ none ↦ s | some t ↦ t ]

-- what strings.Cut(s, ".") leaves after the dot
unfoldable pub after_dot : Name → Option Name
after_dot [] = none
after_dot (a ∷ s) = let rest = after_dot s in if eqb a 46 then some s else rest

pub record Item : Type 0 where
  pub not_before : ℕ
  pub not_after : ℕ
  pub profile_id : String
  pub cert_name : String
  pub domain : Name

-- `changed` is the membership of the set; a retry is known here by its time.
pub record Index : Type 0 where
  pub changed : String → Bool
  pub retries : Map String ℕ
  pub entries : Map Name (List Item)

abbrev pub new_index : Index
new_index = record { changed = λ c. false; retries = []; entries = [] }

-- `customDomainIndexItem.match`: whether it matches, and whether as a wildcard
unfoldable pub match_item : Name → ℕ → Item → Bool × Bool
unfolding wildcard
match_item name now item =
    if ltb item.not_after now || ltb now item.not_before
    then (false, false)
    else if item.domain == name
    then (true, false)
    else elim (wildcard item.domain) [
      | none ↦ (false, false)
      | some suf ↦ (if suf == name then (true, true) else (false, false))
    ]

unfoldable pub same_id : Item → Item → Bool
same_id a b = a.cert_name == b.cert_name && a.domain == b.domain && a.profile_id == b.profile_id

-- idx.data[suffix], where a missing entry is the empty list
unfoldable pub items : Name → Index → List Item
items suf idx = elim (lookup suf idx.entries) [ none ↦ [] | some l ↦ l ]

unfoldable pub add_item : Item → Index → Bool × Index
unfolding items trim_wildcard same_id
add_item item idx =
    let suf = trim_wildcard item.domain in
    let prev = items suf idx in
    if eqb (length prev) 0
    then (true, record idx { entries = insert suf (item ∷ []) idx.entries })
    else if any (λ p. same_id p item) prev
    then (false, idx)
    else (true, record idx { entries = insert suf (prev ++ item ∷ []) idx.entries })

-- The certificate whose domains `add` saves.
pub record State : Type 0 where
  pub cert_name : String
  pub not_before : ℕ
  pub not_after : ℕ

abbrev pub item_of : String → State → Name → Item
item_of prof st domain = record {
  not_before = st.not_before;
  not_after = st.not_after;
  profile_id = prof;
  cert_name = st.cert_name;
  domain = domain;
}

unfoldable pub add_loop : String → State → List Name → Bool → Index → Bool × Index
unfolding add_item
add_loop prof st [] changed idx = (changed, idx)
add_loop prof st (d ∷ ds) changed idx =
    let (added, idx') = add_item (item_of prof st d) idx in
    add_loop prof st ds (changed || added) idx'

unfoldable pub add : String → List Name → State → Index → Index
unfolding add_loop
add prof domains st idx =
    let (changed, idx') = add_loop prof st domains false idx in
    if changed then record idx' { changed = λ c. c == st.cert_name || idx'.changed c } else idx'

-- slices.DeleteFunc(prev, item.sameID)
unfoldable pub delete_same : Item → List Item → List Item
unfolding same_id
delete_same item [] = []
delete_same item (p ∷ ps) =
    let rest = delete_same item ps in if same_id item p then rest else p ∷ rest

-- An item with the identifiers alone.
abbrev pub item_id : String → String → Name → Item
item_id cert prof d = record {
  not_before = 0;
  not_after = 0;
  profile_id = prof;
  cert_name = cert;
  domain = d;
}

-- one round of the loop of `remove`
unfoldable pub remove_item : Item → Index → Index
unfolding items trim_wildcard delete_same
remove_item item idx =
    let suf = trim_wildcard item.domain in
    let prev = items suf idx in
    if eqb (length prev) 0
    then idx
    else record idx { entries = insert suf (delete_same item prev) idx.entries }

unfoldable pub remove_loop : String → String → List Name → Index → Index
unfolding remove_item
remove_loop cert prof [] idx = idx
remove_loop cert prof (d ∷ ds) idx =
    remove_loop cert prof ds (remove_item (item_id cert prof d) idx)

unfoldable pub remove : String → String → List Name → Index → Index
unfolding remove_loop
remove cert prof domains idx =
    let idx' = remove_loop cert prof domains idx in
    record idx' {
      changed = λ c. not (c == cert) && idx'.changed c;
      retries = delete cert idx'.retries;
    }

-- the profiles of the items that match, as wildcards or not
unfoldable pub matched : Bool → Name → ℕ → List Item → List String
unfolding match_item
matched wc name now [] = []
matched wc name now (item ∷ l) =
    let rest = matched wc name now l in
    let (matches, is_wc) = match_item name now item in
    if matches && (if wc then is_wc else not is_wc) then item.profile_id ∷ rest else rest

-- the domain of the last item that matches as a wildcard, "" where there is none
unfoldable pub last_wildcard : Name → ℕ → List Item → Name → Name
unfolding match_item
last_wildcard name now [] d = d
last_wildcard name now (item ∷ l) d =
    let (matches, is_wc) = match_item name now item in
    last_wildcard name now l (if matches && is_wc then item.domain else d)

unfoldable pub match : Name → ℕ → Index → Name × List String
unfolding matched items last_wildcard after_dot
match name now idx =
    let exact = matched false name now (items name idx) in
    if ltb 0 (length exact) then (name, exact) else elim (after_dot name) [
      | none ↦ ([], [])
      | some suf ↦ (last_wildcard suf now (items suf idx) [], matched true suf now (items suf idx))
    ]
