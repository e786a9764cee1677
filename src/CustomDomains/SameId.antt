-- ===== src/CustomDomains/SameId.antt =====
-- internal/tlsconfig/customdomainindex.go: the items with the same identifiers in a list.
use ad_guard_dns.Base.{
  ◌≡◌, ◌∙◌, ◌↔◌, refl, ap, sym, Bool, true, false, not, ◌&&◌, ◌||◌, String, List, [], ◌∷◌, ◌++◌,
  ==_iff, nat_eq, string_eq, any, arith, if◌then◌else◌,
}
use ad_guard_dns.CustomDomains.{Name, name_eq, Item, item_id, same_id, delete_same}

pub same_id_iff :
    (a b : Item)
    → (same_id a b ≡ true)
      ↔ ((a.cert_name ≡ b.cert_name) × (a.domain ≡ b.domain) × (a.profile_id ≡ b.profile_id))
unfolding same_id
same_id_iff a b = ground (
  arith,
  ==_iff a.cert_name b.cert_name,
  ==_iff a.domain b.domain,
  ==_iff a.profile_id b.profile_id,
)

pub any-append :
    (f : Item → Bool) (xs : List Item) (y : Item) → any f (xs ++ y ∷ []) ≡ (any f xs || f y)
any-append f [] y = ground arith
any-append f (x ∷ xs) y = ground (arith, any-append f xs y)

-- the identifiers that an item has, for the items that are looked for
abbrev pub is_id : String → String → Name → Item → Bool
is_id cert prof d p = same_id p (item_id cert prof d)

pub same_id-is_id :
    (cert prof : String) (d : Name) (a b : Item)
    → same_id a b ≡ true
    → is_id cert prof d a ≡ is_id cert prof d b
same_id-is_id cert prof d a b h = ground (
  arith,
  same_id_iff a b,
  same_id_iff a (item_id cert prof d),
  same_id_iff b (item_id cert prof d),
)

pub is_id-same_id :
    (cert prof : String) (d : Name) (a b : Item)
    → is_id cert prof d b ≡ true
    → same_id a b ≡ is_id cert prof d a
is_id-same_id cert prof d a b h = ground (
  arith,
  same_id_iff a b,
  same_id_iff a (item_id cert prof d),
  same_id_iff b (item_id cert prof d),
)

pub any-same :
    (item : Item) (cert prof : String) (d : Name) (l : List Item)
    → is_id cert prof d item ≡ true
    → any (λ p. same_id p item) l ≡ any (is_id cert prof d) l
any-same item cert prof d [] h = refl
any-same item cert prof d (p ∷ l) h =
    rw (is_id-same_id cert prof d p item h, any-same item cert prof d l h) refl

pub dropped_same : (i a : Bool) → (a && not i) ≡ ((i || a) && not i)
dropped_same i a = ground arith

pub dropped_other :
    (i p a : Bool)
    → (p ≡ true → i ≡ true → true ≡ false)
    → (p || (a && not i)) ≡ ((p || a) && not i)
dropped_other true true a h = ground (arith, h)
dropped_other true false a h = refl
dropped_other false true a h = ground arith
dropped_other false false a h = ground arith

pub any-deleted :
    (cert prof : String) (d : Name) (item p : Item) (l rest : List Item) (b : Bool)
    → any (is_id cert prof d) rest ≡ (any (is_id cert prof d) l && not (is_id cert prof d item))
    → same_id item p ≡ b
    → any (is_id cert prof d) (if b then rest else p ∷ rest)
      ≡ ((is_id cert prof d p || any (is_id cert prof d) l) && not (is_id cert prof d item))
any-deleted cert prof d item p l rest true h e =
    h
    ∙ dropped_same (is_id cert prof d item) (any (is_id cert prof d) l)
    ∙ ap (λ q. (q || any (is_id cert prof d) l) && not (is_id cert prof d item))
        (same_id-is_id cert prof d item p e)
any-deleted cert prof d item p l rest false h e =
    ap (λ q. is_id cert prof d p || q) h
    ∙ dropped_other (is_id cert prof d item) (is_id cert prof d p) (any (is_id cert prof d) l)
        (λ hp hi. sym hi ∙ sym (is_id-same_id cert prof d item p hp) ∙ e)

pub any-delete_same :
    (cert prof : String) (d : Name) (item : Item) (l : List Item)
    → any (is_id cert prof d) (delete_same item l)
      ≡ (any (is_id cert prof d) l && not (is_id cert prof d item))
unfolding delete_same
any-delete_same cert prof d item [] = refl
any-delete_same cert prof d item (p ∷ l) =
    any-deleted cert prof d item p l (delete_same item l) (same_id item p)
      (any-delete_same cert prof d item l) refl
