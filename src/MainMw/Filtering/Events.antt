-- ===== src/MainMw/Filtering/Events.antt =====
-- internal/dnssvc/internal/mainmw/filter.go: what the steps of filtering do outside the context.
use ad_guard_dns.Base.{ℕ, ◌≡◌, refl, Bool, String, List, ◌∷◌, [], ◌++◌, Option, some, none}
use ad_guard_dns.Settings.{BlockingMode}
use ad_guard_dns.Agd.{DeviceSets}
use ad_guard_dns.Messages.{Msg}
use ad_guard_dns.MainMw.{
  FilterResult, result_allowed, result_blocked, result_modified_request, result_modified_response,
  FilterInterface, Event, collected, Run, RequestInfo,
}
use ad_guard_dns.MainMw.Outcomes.{OnDone, bind-always}
use ad_guard_dns.MainMw.Filtering.{
  collect_error, req_info_to_flt_req, req_info_to_flt_resp, filter_request, filtered_request,
  filter_response, filtered_response, by_modified, restored,
  set_filtered_response_from_blocking_mode, blocked_or_kept, set_filtered_response_no_req, no_req,
  mode_or_response, by_request, set_filtered_response,
}

module _ (K : List Event → Type 0)
    (collected-ok : (label : String) (es : List Event)
      → K es
      → K (es ++ collected label ∷ [])) where
  pub collect_error-all :
      (label : String) (err : Option String) (r : Run)
      → K r.events
      → K (collect_error label err r).events
  collect_error-all label none r h = h
  collect_error-all label (some err) r h = collected-ok label r.events h

-- A predicate of the events that the collection of an error keeps holds after each step, if it does
-- before, and the request and the debug flag stay.
module _ (K : List Event → Type 0)
    (collected-ok : (label : String) (es : List Event) → K es → K (es ++ collected label ∷ []))
    (req : Msg) (debug : Bool) where
  abbrev pub Ok : Run → Type 0
  Ok r = K r.events × (r.fctx.is_debug ≡ debug) × (r.fctx.original_request ≡ req)

  collect_error-Ok :
      (label : String) (err : Option String) (r : Run) → Ok r → Ok (collect_error label err r)
  collect_error-Ok label none r h = h
  collect_error-Ok label (some err) r h = (collected-ok label r.events h.0, h.1, h.2)

  module _ ⦃S : DeviceSets⦄ (ri : RequestInfo) where
    pub filter_request-Ok :
        (f : FilterInterface) (took : ℕ) (r : Run) → Ok r → OnDone Ok (filter_request f ri took r)
    unfolding filter_request filtered_request
    filter_request-Ok f took r h =
        bind-always Ok (f.filter_request (req_info_to_flt_req r.fctx.original_request ri)) _
          (λ x. collect_error-Ok "filtering request" x.1 _ h)

    by_modified-Ok :
        (f : FilterInterface) (took : ℕ) (r : Run) (m orig : Option Msg)
        → r.fctx.original_response ≡ orig
        → Ok r
        → OnDone Ok (by_modified f ri took r m)
    unfolding by_modified restored filtered_response
    by_modified-Ok f took r none orig e h =
        bind-always Ok (f.filter_response (req_info_to_flt_resp r.fctx.original_response ri)) _
          (λ x. collect_error-Ok "filtering response" x.1 _ h)
    by_modified-Ok f took r (some m) none e h = rw e tt
    by_modified-Ok f took r (some m) (some orig) e h = rw e h

    pub filter_response-Ok :
        (f : FilterInterface) (took : ℕ) (r : Run) → Ok r → OnDone Ok (filter_response f ri took r)
    unfolding filter_response
    filter_response-Ok f took r h = by_modified-Ok f took r r.fctx.modified_request _ refl h

    blocked_or_kept-Ok :
        (label : String) (r : Run) (m : Option Msg) → Ok r → Ok (blocked_or_kept label r m)
    unfolding blocked_or_kept
    blocked_or_kept-Ok label r none h = collect_error-Ok label (some "") r h
    blocked_or_kept-Ok label r (some m) h = h

    mode-Ok :
        (label : String) (mode : Option BlockingMode) (r : Run)
        → Ok r
        → Ok (set_filtered_response_from_blocking_mode ri label mode r)
    unfolding set_filtered_response_from_blocking_mode
    mode-Ok label mode r h = blocked_or_kept-Ok label r _ h

    mode_or_response-Ok :
        (mode : Option BlockingMode) (r : Run) (m : Option Msg)
        → Ok r
        → Ok (mode_or_response ri r mode m)
    unfolding mode_or_response
    mode_or_response-Ok none r m h = h
    mode_or_response-Ok (some mode) r m h =
        mode-Ok "creating blocked resp for filtered req" (some mode) r h

    no_req-Ok : (r : Run) (res : Option FilterResult) → Ok r → OnDone Ok (no_req ri r res)
    unfolding no_req
    no_req-Ok r none h = h
    no_req-Ok r (some (result_allowed l x)) h = h
    no_req-Ok r (some (result_blocked l x)) h =
        mode-Ok "creating blocked resp for filtered resp" _ r h
    no_req-Ok r (some (result_modified_request l x m)) h = tt
    no_req-Ok r (some (result_modified_response l x m)) h = tt

    by_request-Ok : (r : Run) (res : Option FilterResult) → Ok r → OnDone Ok (by_request ri r res)
    unfolding by_request set_filtered_response_no_req
    by_request-Ok r none h = no_req-Ok r r.fctx.response_result h
    by_request-Ok r (some (result_blocked l x)) h =
        mode-Ok "creating blocked resp for filtered req" _ r h
    by_request-Ok r (some (result_allowed l x)) h = h
    by_request-Ok r (some (result_modified_request l x m)) h = mode_or_response-Ok _ r _ h
    by_request-Ok r (some (result_modified_response l x m)) h = mode_or_response-Ok _ r _ h

    pub set_filtered_response-Ok : (r : Run) → Ok r → OnDone Ok (set_filtered_response ri r)
    unfolding set_filtered_response
    set_filtered_response-Ok r h = by_request-Ok r r.fctx.request_result h
