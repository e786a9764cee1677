-- ===== src/MainMw/Handler/Examples.antt =====
-- internal/dnssvc/internal/mainmw: the theorems at a query of a phone that a composite filter blocks.
use ad_guard_dns.Base.{◌≡◌, ◌≢◌, refl, false, [], ◌∷◌, some, none, All}
use ad_guard_dns.Net.{v4}
use ad_guard_dns.Settings.{config_group}
use ad_guard_dns.Samples.{list_sets, home, phone, messages, question_a, home_filters}
use ad_guard_dns.Messages.{Msg, a_rr}
use ad_guard_dns.Base.Map.{lookup, insert}
use ad_guard_dns.Filter.{Outcome, done, panicked}
use ad_guard_dns.Filter.Rewrite.{process_dns_rewrites}
use ad_guard_dns.Filter.Collector.{
  add, to_internal, hosts_rules_to_result, first_host_rule, net_rule_data_to_result,
}
use ad_guard_dns.Filter.Composite.{filter_req_with_rule_lists, filter_request, add_client_id}
use ad_guard_dns.MainMw.Filtering.{new_filtering_context, filter, req_info_to_flt_req}
use ad_guard_dns.Filter.Samples.{rules, answers, filter as sample_filter, well_named}
use ad_guard_dns.MainMw.{
  Texts, Middleware, RequestInfo, Served, served, Call, FilterInterface, written, result_blocked,
}
use ad_guard_dns.MainMw.Composite.{View, composite}
use ad_guard_dns.MainMw.Handler.{Handled, wrap}
use ad_guard_dns.MainMw.Record.Private.{IsPrivate}
use ad_guard_dns.MainMw.Record.Billed.{bills, entries}
use ad_guard_dns.MainMw.Handler.Private.{wrap-IsPrivate}
use ad_guard_dns.MainMw.Handler.Billed.{wrap-billed, expected}
use ad_guard_dns.MainMw.Handler.Composed.{wrap-composite-done}

abbrev texts : Texts
texts = record {
  ip_to_addr4 = λ a. some a;
  ip_to_addr6 = λ a. some a;
  to_lower = λ s. s;
  format_uint = λ n. "0";
  addr_string = λ a. "192.0.2.1";
}

abbrev view : View
view = record { answers_of = λ rrs. []; response_of = λ rc vs req. req }

abbrev blocker : FilterInterface
blocker = composite view rules answers (sample_filter false)

abbrev middleware : Middleware
middleware = record {
  messages = messages;
  for_config = λ o. blocker;
  geo_ip_data = λ host ip. (none, none);
  query_log_write = λ e. written;
  node_name = "node";
}

abbrev query : RequestInfo
query = record {
  device_data = some (home, phone);
  location = none;
  filtering_group = config_group (record {
    parental = home_filters.parental;
    rule_list = home_filters.rule_list;
    safe_browsing = home_filters.safe_browsing;
  });
  messages = messages;
  protocol = 1;
  remote_ip = v4 9;
  host = "example.com";
  q_type = 1;
  q_class = 1;
  start_time = 100;
}

-- the next handler answers with an address of its own
abbrev answer : Msg → Msg
answer req = record req { answers = a_rr "ads.example." 60 (v4 99) ∷ [] }

abbrev call : Call
call = record {
  next = λ ri req. served (some (answer req));
  write_msg = λ req m. none;
  context_error = none;
  request_time = 1;
  response_time = 1;
  total_time = 3;
  remote_addr = v4 9;
  local_addr = v4 1;
}

served_ne : (m : Msg) → served (some m) ≡ served none → ⊥
served_ne m e = cc

wrap-composite-done_example : wrap texts middleware call query question_a ≢ panicked
unfolding filter
wrap-composite-done_example =
    wrap-composite-done texts middleware call query question_a view rules answers
      (sample_filter false) well_named refl (λ ri req. served_ne (answer req))

abbrev or_empty : Handled → Outcome Handled → Handled
or_empty x (done h) = h
or_empty x panicked = x

-- what the handler leaves of the query
handled : Handled
handled =
    or_empty
      (record {
        run = record { fctx = new_filtering_context question_a; events = [] };
        error = none;
      })
      (wrap texts middleware call query question_a)

is_done : (x : Handled) (o : Outcome Handled) → o ≢ panicked → o ≡ done (or_empty x o)
is_done x (done h) n = refl
is_done x panicked n = absurd (n refl)

is_handled : wrap texts middleware call query question_a ≡ done handled
unfolding handled
is_handled = is_done _ (wrap texts middleware call query question_a) wrap-composite-done_example

wrap-IsPrivate_example : All (IsPrivate query) handled.run.events
wrap-IsPrivate_example = wrap-IsPrivate texts middleware call query question_a handled is_handled

wrap-billed_example :
    (bills handled.run.events ≡ (expected query false handled.error).0)
    × (entries handled.run.events ≡ (expected query false handled.error).1)
wrap-billed_example = wrap-billed texts middleware call query question_a handled is_handled

blocks :
    (filter middleware query).filter_request (req_info_to_flt_req question_a query)
    ≡ done (some (result_blocked "common" "||example.com^"), none)
unfolding filter filter_request filter_req_with_rule_lists lookup to_internal hosts_rules_to_result
    first_host_rule add_client_id process_dns_rewrites add net_rule_data_to_result insert
    req_info_to_flt_req
blocks = refl

abbrev message_or : Msg → Served → Msg
message_or m (served (some n)) = n
message_or m _ = m
