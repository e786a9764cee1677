-- ===== src/Filter/Examples.antt =====
-- internal/filter: the theorem on the order of the filters, at a configuration with a common list and
-- three request filters.
use ad_guard_dns.Base.{◌≡◌, ◌↔◌, none, refl, true, false, [], ◌∷◌, some, string_eq}
use ad_guard_dns.Base.Map.{lookup, insert}
use ad_guard_dns.Net.{v4}
use ad_guard_dns.Filter.{allowed, blocked, Request, done}
use ad_guard_dns.Filter.Samples.{rules, answers, safe_browsing, pass_all, list_of}
use ad_guard_dns.Filter.Rewrite.{process_dns_rewrites}
use ad_guard_dns.Filter.Collector.{
  add, to_internal, hosts_rules_to_result, first_host_rule, net_rule_data_to_result,
}
use ad_guard_dns.Filter.Composite.{
  Config, new, result, filter_req_with_rule_lists, filter_request, add_client_id,
}
use ad_guard_dns.Filter.Composite.Priority.{
  by_match, Decided, later, ordered, filter_request-Decided,
}

abbrev request : Request
request = record { remote_ip = v4 1; client_name = "phone"; host = "example.com"; q_type = 1 }

abbrev config : Config
config = record {
  safe_browsing = none;
  adult_blocking = some pass_all;
  new_registered_domains = some safe_browsing;
  typosquatting = some pass_all;
  general_safe_search = none;
  you_tube_safe_search = none;
  custom = none;
  category_filters = [];
  custom_rule_lists = [];
  rule_lists = list_of 1 "common" "" true ∷ [];
  service_lists = [];
}

-- the common list allows, the filter of adult content passes, and the next one decides
filter_request-Decided_example :
    (filter_request rules answers (new config) request
      ≡ done (result (some (blocked "safe_browsing" "example.com"))))
    ↔ Decided request
        (ordered config)
        (some (allowed "common" "||example.com^"))
        false
        (result (some (blocked "safe_browsing" "example.com")))
unfolding filter_req_with_rule_lists lookup to_internal hosts_rules_to_result first_host_rule
    add_client_id process_dns_rewrites add net_rule_data_to_result insert new
filter_request-Decided_example =
    filter_request-Decided rules answers config request (some (allowed "common" "||example.com^"))
      false (result (some (blocked "safe_browsing" "example.com"))) refl

config_run :
    Decided request
      (ordered config)
      (some (allowed "common" "||example.com^"))
      false
      (result (some (blocked "safe_browsing" "example.com")))
config_run = later refl (
    by_match (pass_all ∷ []) (pass_all ∷ []) safe_browsing (blocked "safe_browsing" "example.com")
      refl (refl, tt) refl refl)
