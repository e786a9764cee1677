-- ===== src/MainMw/Handler.antt =====
-- internal/dnssvc/internal/mainmw/mainmw.go: the handler that the middleware makes of the next one.
pub mod Steps
pub mod Private
pub mod Billed
pub mod Once
pub mod Replies
pub mod Composed
pub mod Blocks
mod Examples
use ad_guard_dns.Base.{
  ℕ, Bool, true, false, String, List, [], ◌∷◌, ◌++◌, Option, some, none, if◌then◌else◌,
}
use ad_guard_dns.Agd.{DeviceSets, Profile, Device}
use ad_guard_dns.Messages.{Msg}
use ad_guard_dns.Filter.{Outcome, done, panicked}
use ad_guard_dns.Filter.Composite.{◌>>=◌}
use ad_guard_dns.MainMw.{
  FilteringContext, Location, Event, measured, write, Run, Texts, Middleware, RequestInfo, Served,
  serve_error, served, Call,
}
use ad_guard_dns.MainMw.Filtering.{
  new_filtering_context, filter, filter_request, filter_response, filtering_data,
  set_filtered_response, add_event,
}
use ad_guard_dns.MainMw.Record.{normalize_domain, record_query_info}
use ad_guard_dns.MainMw.Debug.{debug_message}

abbrev loc_continent : Option Location → String
loc_continent none = ""
loc_continent (some l) = l.continent

abbrev is_none {ℓ} : {A : Type ℓ} → Option A → Bool
is_none none = true
is_none (some a) = false

-- What the handler leaves: the query as it stands, and the error that it returns.
pub record Handled : Type 0 where
  pub run : Run
  pub error : Option String

module _ ⦃S : DeviceSets⦄ (t : Texts) where
  next_request : RequestInfo → Msg → Option Msg → RequestInfo × Msg
  next_request ri req none = (ri, req)
  next_request ri req (some mod_req) =
      (record ri { host = normalize_domain t mod_req.question.name }, mod_req)

  -- a rewritten request is resolved with the host of its question
  unfoldable pub next_params : RequestInfo → FilteringContext → RequestInfo × Msg
  unfolding next_request
  next_params ri fctx = next_request ri fctx.original_request fctx.modified_request

  abbrev country_of : Option Location → String
  country_of none = ""
  country_of (some l) = l.country

  abbrev asn_of : Option Location → ℕ
  asn_of none = 0
  asn_of (some l) = l.asn

  unfoldable pub report_metrics : RequestInfo → Run → Run
  report_metrics ri r =
      let (id, text, blocked) = filtering_data r.fctx in
      add_event
        (measured (record {
          remote_ip = ri.remote_ip;
          continent = loc_continent ri.location;
          country = country_of ri.location;
          filter_list_id = id;
          filtering_duration = r.fctx.elapsed;
          asn = asn_of ri.location;
          is_anonymous = is_none ri.device_data;
          is_blocked = blocked;
        }))
        r

  module _ (mw : Middleware) (c : Call) (ri : RequestInfo) where
    recorded : Run → Option String → Handled
    recorded r none = record { run = record_query_info t mw c ri r; error = none }
    recorded r (some err) = record { run = r; error = some err }

    unfoldable pub write_response : Run → Handled
    unfolding recorded
    write_response r =
        recorded (add_event (write r.fctx.original_request r.fctx.filtered_response) r)
          (c.write_msg r.fctx.original_request r.fctx.filtered_response)

    written_debug : Run → Option Msg → Handled
    written_debug r none = record { run = r; error = some "debug" }
    written_debug r (some m) = record {
      run = add_event (write r.fctx.original_request (some m)) r;
      error = c.write_msg r.fctx.original_request (some m);
    }

    -- a nil response is dereferenced
    unfoldable pub write_debug_response : Run → Option Msg → Outcome Handled
    unfolding written_debug
    write_debug_response r none = panicked
    write_debug_response r (some m) = done (written_debug r (debug_message t mw c ri r.fctx m))

    unfoldable pub respond : Run → Outcome Handled
    respond r =
        if r.fctx.is_debug
        then write_debug_response r r.fctx.filtered_response
        else done (write_response r)

    with_resp : Option Msg → Run → Run
    with_resp m r = let fctx = r.fctx in record r { fctx = record fctx { original_response = m } }

    unfoldable pub after_served : Run → Served → Outcome Handled
    unfolding with_resp
    after_served r (serve_error err) = done (record { run = r; error = some err })
    after_served r (served m) =
        filter_response (filter mw ri) ri c.response_time (with_resp m r) >>= λ r1.
        set_filtered_response ri (report_metrics ri r1) >>= respond

    -- `next.ServeDNS` with the request as it is now
    abbrev call_next : Run → Outcome Handled
    call_next r = let (ri', req) = next_params ri r.fctx in after_served r (c.next ri' req)

    after_filtering : Run → Option String → Outcome Handled
    after_filtering r none = call_next r
    after_filtering r (some err) = done (record { run = r; error = some err })

    -- `Wrap`'s handler
    unfoldable pub wrap : Msg → Outcome Handled
    unfolding after_filtering
    wrap req =
        filter_request (filter mw ri) ri c.request_time
          (record { fctx = new_filtering_context req; events = [] })
        >>= λ r. after_filtering r c.context_error
