-- ===== src/Filter/Composite/Responses.antt =====
-- internal/filter/internal/composite/composite.go: the filtering of responses.
pub mod Unmodified
pub mod Safe
use ad_guard_dns.Base.{
  ℕ, Bool, true, false, not, ◌&&◌, String, List, [], ◌∷◌, ◌++◌, Option, some, none, ◌==◌, string_eq,
  eqb, if◌then◌else◌, contains,
}
use ad_guard_dns.Net.{Addr}
use ad_guard_dns.Filter.{
  Result, allowed, blocked, modified_request, modified_response, Request, NetworkRule, HostRule,
  UfRequest, UfResult, Rules, Outcome, done, panicked, id_custom, type_a, type_aaaa, type_https,
  type_cname,
}
use ad_guard_dns.Filter.Rewrite.{Answers, process_dns_rewrites}
use ad_guard_dns.Filter.Collector.{Collector, new_collector, add, to_internal}
use ad_guard_dns.Filter.Composite.{
  RuleList, Filter, ◌>>=◌, add_client_id, clear_client_ids, service_loop,
}

-- the loop over the custom or common rule lists for a response
unfoldable pub resp_loop : UfRequest → List RuleList → Collector → Collector
resp_loop q [] c = c
resp_loop q (rl ∷ rls) c = elim (rl.set_url_filter_result q) [
  | none ↦ resp_loop q rls c
  | some res ↦ resp_loop q rls (add rl.id "" res c)
]

-- A value of an HTTPS record: an address hint, as its parts between commas, or another one.
pub data SvcbValue : Type 0 where
  hint : List String → SvcbValue
  other_value : SvcbValue

-- A response as it is filtered.
pub data Answer : Type 0 where
  a_record aaaa_record cname_record : String → Answer
  https_record : List SvcbValue → Answer
  other_record : Answer

pub record Response : Type 0 where
  pub remote_ip : Addr
  pub client_name : String
  pub answers : List Answer

-- A host is the text of the address, or the target with no final dot.
unfoldable pub parse_resp_answer : Answer → Option (String × ℕ)
parse_resp_answer (a_record ip) = some (ip, type_a)
parse_resp_answer (aaaa_record ip) = some (ip, type_aaaa)
parse_resp_answer (cname_record target) = some (target, type_cname)
parse_resp_answer _ = none

abbrev resp_request : Response → String → ℕ → UfRequest
resp_request resp host rr = record {
  answer = true;
  client_ip = resp.remote_ip;
  client_ids = [];
  dns_type = rr;
  hostname = host;
}

-- The first result of a loop that stops at one.
abbrev or_rest : Outcome (Option Result) → Outcome (Option Result) → Outcome (Option Result)
or_rest panicked rest = panicked
or_rest (done (some r)) rest = done (some r)
or_rest (done none) rest = rest

module _ (e : Rules) where
  resp_common : Filter → UfRequest → ℕ → Collector → Outcome (Option Result)
  unfolding resp_loop service_loop
  resp_common f q rr c = to_internal e (service_loop q f.svc_lists (resp_loop q f.rule_lists c)) rr

  resp_custom_lists : Filter → UfRequest → ℕ → Collector → Option Result → Outcome (Option Result)
  unfolding resp_common
  resp_custom_lists f q rr c (some r) = done (some r)
  resp_custom_lists f q rr c none = resp_common f (clear_client_ids q) rr c

  after_custom_resp : Filter → UfRequest → ℕ → Option UfResult → Outcome (Option Result)
  unfolding resp_custom_lists resp_loop
  after_custom_resp f q rr none =
      let c = resp_loop q f.custom_rule_lists new_collector in
      to_internal e c rr >>= resp_custom_lists f q rr c
  after_custom_resp f q rr (some res) = to_internal e (add id_custom "" res new_collector) rr

  -- A custom filter that matches decides, also where it gives no result.
  unfoldable pub filter_resp_with_rule_lists :
      Filter → Response → String → ℕ → Outcome (Option Result)
  unfolding after_custom_resp
  filter_resp_with_rule_lists f resp host rr =
      let q = add_client_id resp.client_name (resp_request resp host rr) in
      after_custom_resp f q rr (elim f.custom [ none ↦ none | some set ↦ set q ])

  -- the parts of the hint, split at the commas
  hint_loop : Filter → Response → List String → Outcome (Option Result)
  hint_loop f resp [] = done none
  hint_loop f resp (s ∷ ss) =
      or_rest (filter_resp_with_rule_lists f resp s type_https) (hint_loop f resp ss)

  unfoldable pub filter_svcb_hint : Filter → Response → List String → Outcome (Option Result)
  unfolding hint_loop
  filter_svcb_hint f resp parts = hint_loop f resp parts

  unfoldable pub filter_https_answer : Filter → Response → List SvcbValue → Outcome (Option Result)
  unfolding filter_svcb_hint
  filter_https_answer f resp [] = done none
  filter_https_answer f resp (hint parts ∷ vs) =
      or_rest (filter_svcb_hint f resp parts) (filter_https_answer f resp vs)
  filter_https_answer f resp (other_value ∷ vs) = filter_https_answer f resp vs

  by_parsed : Filter → Response → Option (String × ℕ) → Outcome (Option Result)
  unfolding filter_resp_with_rule_lists
  by_parsed f resp none = done none
  by_parsed f resp (some (host, rr)) = filter_resp_with_rule_lists f resp host rr

  unfoldable pub filter_answer : Filter → Response → Answer → Outcome (Option Result)
  unfolding by_parsed filter_https_answer parse_resp_answer
  filter_answer f resp (https_record vs) = filter_https_answer f resp vs
  filter_answer f resp ans = by_parsed f resp (parse_resp_answer ans)

  answer_loop : Filter → Response → List Answer → Outcome (Option Result)
  answer_loop f resp [] = done none
  answer_loop f resp (x ∷ xs) = or_rest (filter_answer f resp x) (answer_loop f resp xs)

  unfoldable pub filter_response : Filter → Response → Outcome (Option Result)
  unfolding answer_loop filter_answer
  filter_response f resp = answer_loop f resp resp.answers
