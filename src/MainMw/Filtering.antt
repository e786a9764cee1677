-- ===== src/MainMw/Filtering.antt =====
-- internal/dnssvc/internal/mainmw/filter.go: the filtering of the request and the response, and the choice
-- of the message for the client.
pub mod Events
pub mod Responses
pub mod Total
pub mod Blocks
use ad_guard_dns.Base.{
  ℕ, ◌+◌, ◌-◌, Bool, true, false, ◌||◌, String, List, [], ◌∷◌, ◌++◌, Option, some, none, eqb,
  if◌then◌else◌, ◌==◌, string_eq, or_else,
}
use ad_guard_dns.Settings.{BlockingMode, config_client, config_group}
use ad_guard_dns.Agd.{DeviceSets, Profile, Device}
use ad_guard_dns.Messages.{Msg, Question, new_blocked_resp, new_answer_cname}
use ad_guard_dns.Filter.{Outcome, done, panicked, id_blocked_service}
use ad_guard_dns.Filter.Composite.{◌>>=◌}
use ad_guard_dns.MainMw.{
  FilterResult, result_allowed, result_blocked, result_modified_request, result_modified_response,
  FilterRequest, FilterResponse, FilterInterface, FilteringContext, Event, collected, Run,
  Middleware, RequestInfo,
}

abbrev pub class_inet : ℕ
class_inet = 1

abbrev pub class_chaos : ℕ
class_chaos = 3

abbrev pub id_adult_blocking : String
id_adult_blocking = "adult_blocking"

abbrev pub id_category : String
id_category = "category"

abbrev pub id_safe_browsing : String
id_safe_browsing = "safe_browsing"

abbrev pub id_typosquatting : String
id_typosquatting = "typosquatting"

abbrev pub with_class : ℕ → Msg → Msg
with_class n m = record m { question = record (m.question) { q_class = n } }

-- the class of a debug request is set to the Internet's
unfoldable pub new_filtering_context : Msg → FilteringContext
new_filtering_context req =
    let is_debug = eqb req.question.q_class class_chaos in
    record {
      original_request = if is_debug then with_class class_inet req else req;
      modified_request = none;
      original_response = none;
      filtered_response = none;
      request_result = none;
      response_result = none;
      elapsed = 0;
      is_debug = is_debug;
    }

abbrev pub add_event : Event → Run → Run
add_event e r = record r { events = r.events ++ e ∷ [] }

abbrev pub collect_error : String → Option String → Run → Run
collect_error label none r = r
collect_error label (some err) r = add_event (collected label) r

abbrev pub matched_rule : FilterResult → String × String
matched_rule (result_allowed l x) = (l, x)
matched_rule (result_blocked l x) = (l, x)
matched_rule (result_modified_request l x m) = (l, x)
matched_rule (result_modified_response l x m) = (l, x)

abbrev is_blocked : FilterResult → Bool
is_blocked (result_allowed l x) = false
is_blocked _ = true

unfoldable pub result_data : Option FilterResult → String × String × Bool
result_data none = ("", "", false)
result_data (some res) = ((matched_rule res).0, (matched_rule res).1, is_blocked res)

-- the request's result where there is one, and the response's otherwise
unfoldable pub filtering_data : FilteringContext → String × String × Bool
filtering_data fctx = result_data (or_else fctx.request_result fctx.response_result)

abbrev modified_by : Option FilterResult → Option Msg → Option Msg
modified_by (some (result_modified_request l x m)) old = some m
modified_by _ old = old

module _ ⦃S : DeviceSets⦄ where
  abbrev pub client_name : Option (Profile × Device) → String
  client_name none = ""
  client_name (some (p, d)) = d.name

  unfoldable pub req_info_to_flt_req : Msg → RequestInfo → FilterRequest
  req_info_to_flt_req req ri = record {
    dns = req;
    messages = ri.messages;
    remote_ip = ri.remote_ip;
    client_name = client_name ri.device_data;
    host = ri.host;
    q_type = ri.q_type;
    q_class = ri.q_class;
  }

  unfoldable pub req_info_to_flt_resp : Option Msg → RequestInfo → FilterResponse
  req_info_to_flt_resp resp ri = record {
    dns = resp;
    remote_ip = ri.remote_ip;
    client_name = client_name ri.device_data;
  }

  -- `filter`: the filter for the query
  unfoldable pub filter : Middleware → RequestInfo → FilterInterface
  filter mw ri = elim ri.device_data [
    | none ↦ mw.for_config (some ri.filtering_group)
    | some (p, d) ↦
        if p.filtering_enabled
        then if d.filtering_enabled
          then mw.for_config (some (config_client p.filter_config))
          else mw.for_config none
        else mw.for_config none
  ]

  filtered_request : ℕ → Run → Option FilterResult × Option String → Run
  filtered_request took r (res, err) =
      let fctx = r.fctx in
      collect_error "filtering request" err (record r {
        fctx = record fctx {
          modified_request = modified_by res fctx.modified_request;
          request_result = res;
          elapsed = fctx.elapsed + took;
        };
      })

  unfoldable pub filter_request : FilterInterface → RequestInfo → ℕ → Run → Outcome Run
  unfolding filtered_request
  filter_request f ri took r =
      f.filter_request (req_info_to_flt_req r.fctx.original_request ri) >>= λ res.
      done (filtered_request took r res)

  -- the response to a rewritten request, made one to the original request
  unfoldable pub restore : RequestInfo → Msg → Msg → Msg → Msg
  restore ri orig_req mod_req resp = record resp {
    id = orig_req.id;
    question = orig_req.question;
    answers = new_answer_cname ri.messages orig_req mod_req.question.name ∷ resp.answers;
  }

  -- a nil response is dereferenced
  restored : RequestInfo → ℕ → Run → Msg → Option Msg → Outcome Run
  restored ri took r mod_req none = panicked
  restored ri took r mod_req (some resp) =
      let fctx = r.fctx in
      done (record r {
        fctx = record fctx {
          original_response = some (restore ri fctx.original_request mod_req resp);
          elapsed = fctx.elapsed + took;
        };
      })

  filtered_response : ℕ → Run → Option FilterResult × Option String → Run
  filtered_response took r (res, err) =
      let fctx = r.fctx in
      collect_error "filtering response" err
        (record r { fctx = record fctx { response_result = res; elapsed = fctx.elapsed + took } })

  by_modified : FilterInterface → RequestInfo → ℕ → Run → Option Msg → Outcome Run
  unfolding restored filtered_response
  by_modified f ri took r (some mod_req) = restored ri took r mod_req r.fctx.original_response
  by_modified f ri took r none =
      f.filter_response (req_info_to_flt_resp r.fctx.original_response ri) >>= λ res.
      done (filtered_response took r res)

  unfoldable pub filter_response : FilterInterface → RequestInfo → ℕ → Run → Outcome Run
  unfolding by_modified
  filter_response f ri took r = by_modified f ri took r r.fctx.modified_request

  abbrev is_adult : String → Bool
  is_adult id = id == id_adult_blocking || id == id_blocked_service || id == id_category

  abbrev is_dangerous : String → Bool
  is_dangerous id = id == id_safe_browsing || id == id_typosquatting

  unfoldable pub result_blocking_mode : RequestInfo → FilterResult → Option BlockingMode
  result_blocking_mode ri res = elim ri.device_data [
    | none ↦ none
    | some (p, d) ↦
        if is_adult (matched_rule res).0
        then or_else p.adult_blocking_mode p.blocking_mode
        else if is_dangerous (matched_rule res).0
        then or_else p.safe_browsing_blocking_mode p.blocking_mode
        else p.blocking_mode
  ]

  unfoldable pub filter_blocking_mode : RequestInfo → FilterResult → Option BlockingMode
  filter_blocking_mode ri res = elim ri.device_data [
    | none ↦ none
    | some (p, d) ↦
        if is_adult (matched_rule res).0
        then p.adult_blocking_mode
        else if is_dangerous (matched_rule res).0
        then p.safe_browsing_blocking_mode
        else none
  ]

  abbrev pub set_response : Option Msg → Run → Run
  set_response m r = let fctx = r.fctx in record r { fctx = record fctx { filtered_response = m } }

  abbrev keep_response : Run → Run
  keep_response r = set_response r.fctx.original_response r

  blocked_or_kept : String → Run → Option Msg → Run
  blocked_or_kept label r none = keep_response (add_event (collected label) r)
  blocked_or_kept label r (some m) = set_response (some m) r

  unfoldable pub set_filtered_response_from_blocking_mode :
      RequestInfo → String → Option BlockingMode → Run → Run
  unfolding blocked_or_kept
  set_filtered_response_from_blocking_mode ri label mode r =
      blocked_or_kept label r (new_blocked_resp ri.messages r.fctx.original_request mode)

  no_req : RequestInfo → Run → Option FilterResult → Outcome Run
  no_req ri r none = done (keep_response r)
  no_req ri r (some (result_allowed l x)) = done (keep_response r)
  no_req ri r (some (result_blocked l x)) = done (
      set_filtered_response_from_blocking_mode ri "creating blocked resp for filtered resp"
        (result_blocking_mode ri (result_blocked l x)) r)
  no_req ri r (some _) = panicked

  -- rewrites of a response panic
  unfoldable pub set_filtered_response_no_req : RequestInfo → Run → Outcome Run
  unfolding no_req
  set_filtered_response_no_req ri r = no_req ri r r.fctx.response_result

  -- where the profile has a mode for the list, it is used in place of the rewrite
  mode_or_response : RequestInfo → Run → Option BlockingMode → Option Msg → Run
  mode_or_response ri r none m = set_response m r
  mode_or_response ri r (some mode) m =
      set_filtered_response_from_blocking_mode ri "creating blocked resp for filtered req"
        (some mode) r

  by_request : RequestInfo → Run → Option FilterResult → Outcome Run
  unfolding mode_or_response
  by_request ri r none = set_filtered_response_no_req ri r
  by_request ri r (some (result_blocked l x)) = done (
      set_filtered_response_from_blocking_mode ri "creating blocked resp for filtered req"
        (result_blocking_mode ri (result_blocked l x)) r)
  by_request ri r (some (result_allowed l x)) = done (keep_response r)
  by_request ri r (some (result_modified_request l x m)) = done (
      mode_or_response ri r (filter_blocking_mode ri (result_modified_request l x m))
        r.fctx.original_response)
  by_request ri r (some (result_modified_response l x m)) =
      done
        (mode_or_response ri r (filter_blocking_mode ri (result_modified_response l x m)) (some m))

  unfoldable pub set_filtered_response : RequestInfo → Run → Outcome Run
  unfolding by_request
  set_filtered_response ri r = by_request ri r r.fctx.request_result
