-- ===== src/Filter/Samples.antt =====
-- internal/filter: a filter with a common list, a blocked service and a safe-browsing
-- filter.
use ad_guard_dns.Base.{
  ℕ, ◌≡◌, Bool, true, false, String, List, [], ◌∷◌, Option, some, none, any, eqb, arith, ==_iff,
  string_eq, ◌==◌, if◌then◌else◌,
}
use ad_guard_dns.Filter.{blocked, NetworkRule, UfResult, Rules, id_blocked_service}
use ad_guard_dns.Filter.Rewrite.{Answers}
use ad_guard_dns.Filter.Composite.{RuleList, RequestFilter, matched, passed, Filter}
use ad_guard_dns.Filter.Composite.Safe.{IsWellNamed}

-- the first rule wins
abbrev pub first_rule : List NetworkRule → Option NetworkRule
first_rule [] = none
first_rule (r ∷ rs) = some r

pub first_rule-any :
    (rs : List NetworkRule) (r : NetworkRule)
    → first_rule rs ≡ some r
    → any (λ x. eqb x.ptr r.ptr) rs ≡ true
first_rule-any [] r h = ground arith
first_rule-any (x ∷ rs) r h = ground arith

abbrev pub rules : Rules
rules = record { basic_rule = first_rule; basic_rule-any = first_rule-any }

abbrev pub answers : Answers
answers = record { equal_fold = λ a b. a == b; fqdn = λ s. s; make = λ t v. some (some v) }

abbrev pub tube : String
tube = "tube"

abbrev pub id_common : String
id_common = "common"

abbrev pub rule : ℕ → Bool → NetworkRule
rule ptr allows = record { ptr = ptr; text = "||example.com^"; whitelist = allows }

abbrev pub found_rule : ℕ → Bool → UfResult
found_rule ptr allows = record {
  network_rules = rule ptr allows ∷ [];
  host_rules4 = [];
  host_rules6 = [];
  dns_rewrites = [];
}

abbrev pub list_of : ℕ → String → String → Bool → RuleList
list_of ptr id svc allows = record {
  id = id;
  svc_id = svc;
  set_url_filter_result =
      λ q. if q.hostname == "example.com" then some (found_rule ptr allows) else none;
}

abbrev pub safe_browsing : RequestFilter
safe_browsing req = matched (blocked "safe_browsing" req.host)

abbrev pub pass_all : RequestFilter
pass_all req = passed

abbrev pub filter : Bool → Filter
filter allows = record {
  custom = none;
  rule_lists = list_of 1 "common" "" allows ∷ [];
  custom_rule_lists = [];
  svc_lists = list_of 2 id_blocked_service tube false ∷ [];
  req_filters = pass_all ∷ safe_browsing ∷ [];
}

common_ne : id_common ≡ id_blocked_service → ⊥
common_ne e = ground (arith, ==_iff id_common id_blocked_service)

tube_ne : tube ≡ "" → ⊥
tube_ne e = ground (arith, ==_iff tube "")

pub well_named : IsWellNamed (filter false)
well_named = record { common = (common_ne, tt); custom_lists = tt; services = (λ e. tube_ne, tt) }
