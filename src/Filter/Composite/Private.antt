-- ===== src/Filter/Composite/Private.antt =====
-- internal/filter/internal/composite/composite.go: only the custom rules see the name of a device.
use ad_guard_dns.Base.{fun_ext, ◌≡◌, refl, String, List, [], ◌∷◌, Option, some, none, arith}
use ad_guard_dns.Filter.{Result, Request, UfRequest, Rules}
use ad_guard_dns.Filter.Rewrite.{Answers, process_dns_rewrites}
use ad_guard_dns.Filter.Collector.{Collector}
use ad_guard_dns.Filter.Composite.{
  Filter, RuleList, list_loop, matched_list, filter_req_with_rule_lists, uf_request, add_client_id,
  clear_client_ids, after_custom_lists, after_common,
}

abbrev named : Request → String → Request
named req name = record req { client_name = name }

clear-uf_request :
    (req : Request) (name : String)
    → clear_client_ids (uf_request (named req name)) ≡ clear_client_ids (uf_request req)
unfolding add_client_id
clear-uf_request req name = ground arith

rewrites-named :
    (a : Answers) (req : Request) (name : String)
    → process_dns_rewrites a (named req name) ≡ process_dns_rewrites a req
unfolding process_dns_rewrites
rewrites-named a req name = refl

list_loop-named :
    (a : Answers) (req : Request) (name : String) (q : UfRequest) (ls : List RuleList)
    (c : Collector)
    → list_loop a (named req name) q ls c ≡ list_loop a req q ls c
unfolding list_loop matched_list process_dns_rewrites
list_loop-named a req name q [] c = refl
list_loop-named a req name q (rl ∷ rls) c = ground (
  arith,
  list_loop-named a req name q rls (matched_list a req rl.id c (rl.set_url_filter_result q)).1,
)

after_custom_lists-named :
    (e : Rules) (a : Answers) (f : Filter) (req : Request) (name : String)
    (rc : Option Result × Collector)
    → after_custom_lists e a f (named req name) (uf_request (named req name)) rc
      ≡ after_custom_lists e a f req (uf_request req) rc
unfolding after_custom_lists after_common
after_custom_lists-named e a f req name (some r, c) = refl
after_custom_lists-named e a f req name (none, c) = rw (
  clear-uf_request req name,
  list_loop-named a req name (clear_client_ids (uf_request req)) f.rule_lists c,
)

-- Where there are no custom rules and no custom rule lists, the result of the rule lists does not
-- depend on the name of the device.
filter_req_with_rule_lists-named :
    (e : Rules) (a : Answers) (f : Filter) (req : Request) (name : String)
    → let g = record f { custom = none; custom_rule_lists = [] } in
      filter_req_with_rule_lists e a g (record req { client_name = name })
      ≡ filter_req_with_rule_lists e a g req
unfolding filter_req_with_rule_lists
filter_req_with_rule_lists-named e a f req name =
    let g = record f { custom = none; custom_rule_lists = [] } in
    rw (fun_ext (after_custom_lists-named e a g req name))
