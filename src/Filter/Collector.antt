-- ===== src/Filter/Collector.antt =====
-- internal/filter/internal/composite/result.go: the collector of the rules that match.
pub mod Known
use ad_guard_dns.Base.{
  ℕ, Bool, true, false, not, ◌&&◌, String, List, [], ◌∷◌, ◌++◌, Option, some, none, ◌==◌, string_eq,
  nat_eq, eqb, if◌then◌else◌,
}
use ad_guard_dns.Base.Map.{Map, lookup, insert}
use ad_guard_dns.Filter.{
  Result, allowed, blocked, NetworkRule, HostRule, UfResult, Rules, Outcome, done, panicked,
  id_blocked_service, type_a, type_aaaa,
}

pub record Collector : Type 0 where
  pub net_rule_ids : Map ℕ String
  pub host_rule_ids : Map ℕ String
  pub net_rule_svc_ids : Map ℕ String
  pub host_rule_svc_ids : Map ℕ String
  pub network_rules : List NetworkRule
  pub host_rules4 : List HostRule
  pub host_rules6 : List HostRule

abbrev pub new_collector : Collector
new_collector = record {
  net_rule_ids = [];
  host_rule_ids = [];
  net_rule_svc_ids = [];
  host_rule_svc_ids = [];
  network_rules = [];
  host_rules4 = [];
  host_rules6 = [];
}

abbrev pub set_svc : ℕ → String → Map ℕ String → Map ℕ String
set_svc ptr svc m = if svc == "" then m else insert ptr svc m

unfoldable pub add_network_rules : String → String → List NetworkRule → Collector → Collector
add_network_rules id svc [] c = c
add_network_rules id svc (r ∷ rs) c = add_network_rules id svc rs (record c {
  network_rules = c.network_rules ++ r ∷ [];
  net_rule_ids = insert r.ptr id c.net_rule_ids;
  net_rule_svc_ids = set_svc r.ptr svc c.net_rule_svc_ids;
})

unfoldable pub add_host_rules4 : String → String → List HostRule → Collector → Collector
add_host_rules4 id svc [] c = c
add_host_rules4 id svc (r ∷ rs) c = add_host_rules4 id svc rs (record c {
  host_rules4 = c.host_rules4 ++ r ∷ [];
  host_rule_ids = insert r.ptr id c.host_rule_ids;
  host_rule_svc_ids = set_svc r.ptr svc c.host_rule_svc_ids;
})

unfoldable pub add_host_rules6 : String → String → List HostRule → Collector → Collector
add_host_rules6 id svc [] c = c
add_host_rules6 id svc (r ∷ rs) c = add_host_rules6 id svc rs (record c {
  host_rules6 = c.host_rules6 ++ r ∷ [];
  host_rule_ids = insert r.ptr id c.host_rule_ids;
  host_rule_svc_ids = set_svc r.ptr svc c.host_rule_svc_ids;
})

unfoldable pub add : String → String → UfResult → Collector → Collector
unfolding add_network_rules add_host_rules4 add_host_rules6
add id svc dr c =
    add_host_rules6 id svc dr.host_rules6
      (add_host_rules4 id svc dr.host_rules4 (add_network_rules id svc dr.network_rules c))

-- The text of the result: the service's ID for the lists of blocked services.
abbrev rule_text : String → Option String → String → Outcome String
rule_text id svc text =
    if id == id_blocked_service then elim svc [ none ↦ panicked | some s ↦ done s ] else done text

abbrev to_result : Bool → String → Outcome String → Outcome (Option Result)
to_result white id panicked = panicked
to_result white id (done text) = done (some (if white then allowed id text else blocked id text))

rule_data_to_result : Bool → Option String → Option String → String → Outcome (Option Result)
rule_data_to_result white none svc text = panicked
rule_data_to_result white (some id) svc text = to_result white id (rule_text id svc text)

unfoldable pub net_rule_data_to_result : Collector → NetworkRule → Outcome (Option Result)
unfolding rule_data_to_result
net_rule_data_to_result c r =
    rule_data_to_result r.whitelist (lookup r.ptr c.net_rule_ids) (lookup r.ptr c.net_rule_svc_ids)
      r.text

unfoldable pub host_rule_data_to_result : Collector → HostRule → Outcome (Option Result)
unfolding rule_data_to_result
host_rule_data_to_result c r =
    rule_data_to_result false (lookup r.ptr c.host_rule_ids) (lookup r.ptr c.host_rule_svc_ids)
      r.text

-- The rule that `hostsRulesToResult` takes of the rules for IPv4 and for IPv6.
unfoldable pub first_host_rule : ℕ → List HostRule → List HostRule → Option HostRule
first_host_rule rr [] [] = none
first_host_rule rr [] (r6 ∷ rs6) = some r6
first_host_rule rr (r4 ∷ rs4) [] = some r4
first_host_rule rr (r4 ∷ rs4) (r6 ∷ rs6) =
    if eqb rr type_a then some r4 else if eqb rr type_aaaa then some r6 else some r4

host_outcome : Collector → Option HostRule → Outcome (Option Result)
unfolding host_rule_data_to_result
host_outcome c none = done none
host_outcome c (some r) = host_rule_data_to_result c r

unfoldable pub hosts_rules_to_result : Collector → ℕ → Outcome (Option Result)
unfolding host_outcome
hosts_rules_to_result c rr = host_outcome c (first_host_rule rr c.host_rules4 c.host_rules6)

net_outcome : Collector → ℕ → Option NetworkRule → Outcome (Option Result)
net_outcome c rr none = hosts_rules_to_result c rr
net_outcome c rr (some r) = net_rule_data_to_result c r

unfoldable pub to_internal : Rules → Collector → ℕ → Outcome (Option Result)
unfolding net_outcome
to_internal e c rr = net_outcome c rr (e.basic_rule c.network_rules)
