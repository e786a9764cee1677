-- ===== src/CustomDomains/Examples.antt =====
-- internal/tlsconfig/customdomainindex.go: the theorems at an index with a domain and a wildcard.
use ad_guard_dns.Base.{
  ◌≡◌, ◌⊎◌, refl, true, false, not, ◌&&◌, ◌||◌, String, [], ◌∷◌, some, any, contains, ◌==◌,
  string_eq,
}
use ad_guard_dns.Base.Map.{lookup, insert}
use ad_guard_dns.CustomDomains.{
  Name, name_eq, Index, State, new_index, add, add_loop, add_item, same_id, trim_wildcard, wildcard,
  remove, match, match_item, matched, last_wildcard, items, after_dot,
}
use ad_guard_dns.CustomDomains.Members.{has, has-add, has-remove}
use ad_guard_dns.CustomDomains.Matching.{is_exact, is_star, match-valid}

-- "a.b", "*.b" and "b"
abbrev name : Name
name = 97 ∷ 46 ∷ 98 ∷ []

abbrev star_name : Name
star_name = 42 ∷ 46 ∷ 98 ∷ []

abbrev home : String
home = "prof1234"

abbrev cert_id : String
cert_id = "cert"

abbrev cert : State
cert = record { cert_name = cert_id; not_before = 10; not_after = 20 }

abbrev index : Index
index = add home (star_name ∷ []) cert new_index

has-add_example : has cert_id home star_name (add home (name ∷ star_name ∷ []) cert new_index) ≡ (
    (cert.cert_name == cert_id
      && home == home
      && contains {K = Name} (name ∷ star_name ∷ []) star_name)
    || has cert_id home star_name new_index)
has-add_example = has-add cert_id home home star_name (name ∷ star_name ∷ []) cert new_index

has-remove_example : has cert_id home star_name (remove cert_id home (star_name ∷ []) index) ≡ (
    has cert_id home star_name index
    && not (cert_id == cert_id && home == home && contains {K = Name} (star_name ∷ []) star_name))
has-remove_example = has-remove cert_id home cert_id home star_name (star_name ∷ []) index

match_run : match name 20 index ≡ (star_name, home ∷ [])
unfolding match add add_loop add_item items lookup insert same_id trim_wildcard wildcard match_item
    matched last_wildcard after_dot
match_run = refl

match-valid_example :
    (any (is_exact home name 20) (items name index) ≡ true)
    ⊎ ((suf : Name) × (after_dot name ≡ some suf)
        × (any (is_star home suf 20) (items suf index) ≡ true)
        × (matched false name 20 (items name index) ≡ []))
unfolding match add add_loop add_item items lookup insert same_id trim_wildcard wildcard match_item
    matched last_wildcard after_dot
match-valid_example = match-valid name 20 index home refl
