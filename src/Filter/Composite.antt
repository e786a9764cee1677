-- ===== src/Filter/Composite.antt =====
-- internal/filter/internal/composite/composite.go: the composite filter of requests and responses.
pub mod Priority
pub mod Safe
pub mod Responses
pub mod Private
use ad_guard_dns.Base.{
  ℕ, Bool, true, false, not, ◌&&◌, String, List, [], ◌∷◌, ◌++◌, Option, some, none, ◌==◌, string_eq,
  eqb, if◌then◌else◌, contains,
}
use ad_guard_dns.Net.{Addr}
use ad_guard_dns.Filter.{
  Result, allowed, blocked, modified_request, modified_response, Request, NetworkRule, HostRule,
  UfRequest, UfResult, Rules, Outcome, done, panicked, id_custom, type_a, type_aaaa, type_https,
  type_cname,
}
use ad_guard_dns.Filter.Rewrite.{Answers, process_dns_rewrites}
use ad_guard_dns.Filter.Collector.{Collector, new_collector, add, to_internal}

-- A rule list: its ID, its service, and `SetURLFilterResult`, where `none` is a false `ok`.
pub record RuleList : Type 0 where
  pub id : String
  pub svc_id : String
  pub set_url_filter_result : UfRequest → Option UfResult

-- What a request filter answers.
pub data Checked : Type 0 where
  passed : Checked
  matched : Result → Checked
  broken : String → Checked

abbrev pub RequestFilter : Type 0
RequestFilter = Request → Checked

pub record Config : Type 0 where
  pub safe_browsing : Option RequestFilter
  pub adult_blocking : Option RequestFilter
  pub new_registered_domains : Option RequestFilter
  pub typosquatting : Option RequestFilter
  pub general_safe_search : Option RequestFilter
  pub you_tube_safe_search : Option RequestFilter
  pub custom : Option (UfRequest → Option UfResult)
  pub category_filters : List (Option RequestFilter)
  pub custom_rule_lists : List RuleList
  pub rule_lists : List RuleList
  pub service_lists : List RuleList

pub record Filter : Type 0 where
  pub custom : Option (UfRequest → Option UfResult)
  pub rule_lists : List RuleList
  pub custom_rule_lists : List RuleList
  pub svc_lists : List RuleList
  pub req_filters : List RequestFilter

unfoldable pub append_if_not_nil : List RequestFilter → Option RequestFilter → List RequestFilter
append_if_not_nil orig none = orig
append_if_not_nil orig (some f) = orig ++ f ∷ []

append_all : List RequestFilter → List (Option RequestFilter) → List RequestFilter
append_all orig [] = orig
append_all orig (f ∷ fs) = append_all (append_if_not_nil orig f) fs

unfoldable pub new : Config → Filter
unfolding append_if_not_nil append_all
new c =
    let flts1 = append_if_not_nil [] c.safe_browsing in
    let flts2 = append_if_not_nil flts1 c.adult_blocking in
    let flts3 = append_if_not_nil flts2 c.general_safe_search in
    let flts4 = append_if_not_nil flts3 c.you_tube_safe_search in
    let flts5 = append_if_not_nil flts4 c.new_registered_domains in
    let flts6 = append_all flts5 c.category_filters in
    record {
      custom = c.custom;
      rule_lists = c.rule_lists;
      custom_rule_lists = c.custom_rule_lists;
      svc_lists = c.service_lists;
      req_filters = append_if_not_nil flts6 c.typosquatting;
    }

-- The set has no identifier twice.
unfoldable pub add_client_id : String → UfRequest → UfRequest
add_client_id id q =
    if id == ""
    then q
    else if contains q.client_ids id
    then q
    else record q { client_ids = q.client_ids ++ id ∷ [] }

abbrev clear_client_ids : UfRequest → UfRequest
clear_client_ids q = record q { client_ids = [] }

-- A result with the collector as it is left, or the panic.
infixl 5 ◌>>=◌
abbrev pub ◌>>=◌ {ℓ κ} : {A : Type ℓ} {B : Type κ} → Outcome A → (A → Outcome B) → Outcome B
done a >>= f = f a
panicked >>= f = panicked

unfoldable pub service_loop : UfRequest → List RuleList → Collector → Collector
service_loop q [] c = c
service_loop q (rl ∷ rls) c = elim (rl.set_url_filter_result q) [
  | none ↦ service_loop q rls c
  | some res ↦ service_loop q rls (add rl.id rl.svc_id res c)
]

abbrev pub uf_request : Request → UfRequest
uf_request req = add_client_id req.client_name (record {
  answer = false;
  client_ip = req.remote_ip;
  client_ids = [];
  dns_type = req.q_type;
  hostname = req.host;
})

pub data Filtered : Type 0 where
  result : Option Result → Filtered
  failed : String → Filtered

unfoldable pub first_match : Request → List RequestFilter → Option Result → Filtered
first_match req [] rl_res = result rl_res
first_match req (f ∷ fs) rl_res = elim (f req) [
  | passed ↦ first_match req fs rl_res
  | matched r ↦ result (some r)
  | broken msg ↦ failed msg
]

by_rule_lists : Filter → Request → Option Result × Bool → Filtered
unfolding first_match
by_rule_lists f req (some (allowed l r), true) = result (some (allowed l r))
by_rule_lists f req (some (allowed l r), false) = first_match req f.req_filters (some (allowed l r))
by_rule_lists f req (none, custom) = first_match req f.req_filters none
by_rule_lists f req (r, custom) = result r

module _ (a : Answers) where
  -- The rewrites of a matching list, and otherwise its rules.
  rewritten : Collector → String → UfResult → Option Result → Option Result × Collector
  rewritten c id res (some r) = (some r, c)
  rewritten c id res none = (none, add id "" res c)

  matched_list : Request → String → Collector → Option UfResult → Option Result × Collector
  unfolding rewritten
  matched_list req id c none = (none, c)
  matched_list req id c (some res) =
      rewritten c id res (process_dns_rewrites a req res.dns_rewrites id)

  -- the loop over rule lists: the first rewrite, and the collector
  unfoldable pub list_loop :
      Request → UfRequest → List RuleList → Collector → Option Result × Collector
  unfolding matched_list
  list_loop req q [] c = (none, c)
  list_loop req q (rl ∷ rls) c =
      let (r, c') = matched_list req rl.id c (rl.set_url_filter_result q) in
      elim r [ some res ↦ (some res, c') | none ↦ list_loop req q rls c' ]

module _ (e : Rules) (a : Answers) where
  abbrev with_collector : Collector → Outcome (Option Result) → Outcome (Option Result × Collector)
  with_collector c o = o >>= λ r. done (r, c)

  -- The collected rules give the result where there is no rewrite.
  abbrev or_collected : ℕ → Option Result × Collector → Outcome (Option Result × Collector)
  or_collected rr (some r, c) = done (some r, c)
  or_collected rr (none, c) = with_collector c (to_internal e c rr)

  -- The custom filter collects only where it matches.
  custom_outcome : Request → Collector → Option UfResult → Outcome (Option Result × Collector)
  unfolding matched_list
  custom_outcome req c none = done (none, c)
  custom_outcome req c (some res) =
      or_collected req.q_type (matched_list a req id_custom c (some res))

  unfoldable pub filter_req_with_custom_filter :
      Filter → Request → UfRequest → Collector → Outcome (Option Result × Collector)
  unfolding custom_outcome
  filter_req_with_custom_filter f req q c = elim f.custom [
    | none ↦ done (none, c)
    | some set ↦ custom_outcome req c (set (add_client_id req.client_name q))
  ]

  unfoldable pub filter_req_with_custom_rule_lists :
      Filter → Request → UfRequest → Collector → Outcome (Option Result × Collector)
  unfolding list_loop
  filter_req_with_custom_rule_lists f req q c =
      or_collected req.q_type
        (list_loop a req (add_client_id req.client_name q) f.custom_rule_lists c)

  after_common :
      Filter → Request → UfRequest → Option Result × Collector → Outcome (Option Result × Bool)
  unfolding service_loop
  after_common f req q (some r, c) = done (some r, false)
  after_common f req q (none, c) =
      to_internal e (service_loop q f.svc_lists c) req.q_type >>= λ r. done (r, false)

  after_custom_lists :
      Filter → Request → UfRequest → Option Result × Collector → Outcome (Option Result × Bool)
  unfolding after_common list_loop
  after_custom_lists f req q (some r, c) = done (some r, true)
  after_custom_lists f req q (none, c) =
      after_common f req (clear_client_ids q) (list_loop a req (clear_client_ids q) f.rule_lists c)

  after_custom :
      Filter → Request → UfRequest → Option Result × Collector → Outcome (Option Result × Bool)
  unfolding after_custom_lists filter_req_with_custom_rule_lists
  after_custom f req q (some r, c) = done (some r, true)
  after_custom f req q (none, c) =
      filter_req_with_custom_rule_lists f req q c >>= after_custom_lists f req q

  -- The result, and whether it is from the custom rules.
  unfoldable pub filter_req_with_rule_lists : Filter → Request → Outcome (Option Result × Bool)
  unfolding after_custom filter_req_with_custom_filter
  filter_req_with_rule_lists f req =
      filter_req_with_custom_filter f req (uf_request req) new_collector
      >>= after_custom f req (uf_request req)

  unfoldable pub filter_request : Filter → Request → Outcome Filtered
  unfolding by_rule_lists
  filter_request f req = filter_req_with_rule_lists f req >>= λ r. done (by_rule_lists f req r)
