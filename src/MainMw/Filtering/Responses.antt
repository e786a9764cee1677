-- ===== src/MainMw/Filtering/Responses.antt =====
-- internal/dnssvc/internal/mainmw/filter.go: the messages of the context are answers to the request.
use ad_guard_dns.Base.{ℕ, ◌≡◌, refl, subst, ap, String, Option, some, none}
use ad_guard_dns.Settings.{BlockingMode}
use ad_guard_dns.Agd.{DeviceSets}
use ad_guard_dns.Messages.{Msg, new_blocked_resp}
use ad_guard_dns.Messages.Answers.{Answers, IsAnswer, new_blocked_resp-IsAnswer}
use ad_guard_dns.MainMw.{
  FilterResult, result_allowed, result_blocked, result_modified_request, result_modified_response,
  FilterRequest, FilterInterface, Run, RequestInfo,
}
use ad_guard_dns.MainMw.Outcomes.{OnDone, bind-OnDone, bind-always}
use ad_guard_dns.MainMw.Filtering.{
  collect_error, req_info_to_flt_req, req_info_to_flt_resp, filter_request, filtered_request,
  filter_response, restore, filtered_response, by_modified, restored,
  set_filtered_response_from_blocking_mode, blocked_or_kept, set_filtered_response_no_req, no_req,
  mode_or_response, by_request, set_filtered_response,
}

-- a rewrite of a request to a response is an answer to it
abbrev pub Fits : Msg → Option FilterResult → Type 0
Fits req (some (result_modified_response l x m)) = Answers req m
Fits req _ = Unit

-- what is asked of a filter
abbrev pub FilterFits : FilterInterface → Type 0
FilterFits f = (x : FilterRequest) → OnDone (λ res. Fits x.dns res.0) (f.filter_request x)

module _ (req : Msg) where
  abbrev pub IsRequest : Run → Type 0
  IsRequest r = (r.fctx.original_request ≡ req) × Fits req r.fctx.request_result

  abbrev pub IsServed : Run → Type 0
  IsServed r =
      IsRequest r × (r.fctx.modified_request ≡ none → IsAnswer req r.fctx.original_response)

  abbrev pub IsFiltered : Run → Type 0
  IsFiltered r = IsRequest r × IsAnswer req r.fctx.original_response

  abbrev pub IsReady : Run → Type 0
  IsReady r = (r.fctx.original_request ≡ req) × IsAnswer req r.fctx.filtered_response

  collect_error-fctx :
      (label : String) (err : Option String) (r : Run) → (collect_error label err r).fctx ≡ r.fctx
  collect_error-fctx label none r = refl
  collect_error-fctx label (some err) r = refl

  module _ ⦃S : DeviceSets⦄ (ri : RequestInfo) where
    filtered_request-IsRequest :
        (took : ℕ) (r : Run) (res : Option FilterResult) (err : Option String)
        → r.fctx.original_request ≡ req
        → Fits req res
        → IsRequest (filtered_request took r (res, err))
    unfolding filtered_request
    filtered_request-IsRequest took r res none e h = (e, h)
    filtered_request-IsRequest took r res (some err) e h = (e, h)

    pub filter_request-IsRequest :
        (f : FilterInterface) (took : ℕ) (r : Run)
        → FilterFits f
        → r.fctx.original_request ≡ req
        → OnDone IsRequest (filter_request f ri took r)
    unfolding filter_request req_info_to_flt_req
    filter_request-IsRequest f took r fits e =
        bind-OnDone
          (λ (res : Option FilterResult × Option String). Fits r.fctx.original_request res.0)
          IsRequest _ _ (fits (req_info_to_flt_req r.fctx.original_request ri))
          (λ res h. filtered_request-IsRequest took r res.0 res.1 e (subst (λ q. Fits q res.0) e h))

    filtered_response-IsFiltered :
        (took : ℕ) (r : Run) (res : Option FilterResult) (err : Option String)
        → IsFiltered r
        → IsFiltered (filtered_response took r (res, err))
    unfolding filtered_response
    filtered_response-IsFiltered took r res none h = h
    filtered_response-IsFiltered took r res (some err) h = h

    by_modified-IsFiltered :
        (f : FilterInterface) (took : ℕ) (r : Run) (m orig : Option Msg)
        → r.fctx.modified_request ≡ m
        → r.fctx.original_response ≡ orig
        → IsServed r
        → OnDone IsFiltered (by_modified f ri took r m)
    unfolding by_modified restored restore
    by_modified-IsFiltered f took r none orig e o h =
        bind-always IsFiltered
          (f.filter_response (req_info_to_flt_resp r.fctx.original_response ri)) _
          (λ res. filtered_response-IsFiltered took r res.0 res.1 (h.0, h.1 e))
    by_modified-IsFiltered f took r (some m) none e o h = simp o tt
    by_modified-IsFiltered f took r (some m) (some resp) e o h =
        simp o (h.0, (ap (λ q. q.id) h.0.0, ap (λ q. q.question) h.0.0))

    pub filter_response-IsFiltered :
        (f : FilterInterface) (took : ℕ) (r : Run)
        → IsServed r
        → OnDone IsFiltered (filter_response f ri took r)
    unfolding filter_response
    filter_response-IsFiltered f took r h =
        by_modified-IsFiltered f took r r.fctx.modified_request r.fctx.original_response refl refl h

    blocked_or_kept-IsReady :
        (label : String) (r : Run) (m : Option Msg)
        → IsAnswer req m
        → IsFiltered r
        → IsReady (blocked_or_kept label r m)
    unfolding blocked_or_kept
    blocked_or_kept-IsReady label r none a h = (h.0.0, h.1)
    blocked_or_kept-IsReady label r (some m) a h = (h.0.0, a)

    mode-IsReady :
        (label : String) (mode : Option BlockingMode) (r : Run)
        → IsFiltered r
        → IsReady (set_filtered_response_from_blocking_mode ri label mode r)
    unfolding set_filtered_response_from_blocking_mode
    mode-IsReady label mode r h =
        blocked_or_kept-IsReady label r _
          (subst (λ q. IsAnswer q (new_blocked_resp ri.messages r.fctx.original_request mode)) h.0.0
            (new_blocked_resp-IsAnswer ri.messages r.fctx.original_request mode))
          h

    mode_or_response-IsReady :
        (mode : Option BlockingMode) (r : Run) (m : Option Msg)
        → IsAnswer req m
        → IsFiltered r
        → IsReady (mode_or_response ri r mode m)
    unfolding mode_or_response
    mode_or_response-IsReady none r m a h = (h.0.0, a)
    mode_or_response-IsReady (some mode) r m a h =
        mode-IsReady "creating blocked resp for filtered req" (some mode) r h

    no_req-IsReady :
        (r : Run) (res : Option FilterResult) → IsFiltered r → OnDone IsReady (no_req ri r res)
    unfolding no_req
    no_req-IsReady r none h = (h.0.0, h.1)
    no_req-IsReady r (some (result_allowed l x)) h = (h.0.0, h.1)
    no_req-IsReady r (some (result_blocked l x)) h =
        mode-IsReady "creating blocked resp for filtered resp" _ r h
    no_req-IsReady r (some (result_modified_request l x m)) h = tt
    no_req-IsReady r (some (result_modified_response l x m)) h = tt

    by_request-IsReady :
        (r : Run) (res : Option FilterResult)
        → Fits req res
        → IsFiltered r
        → OnDone IsReady (by_request ri r res)
    unfolding by_request set_filtered_response_no_req
    by_request-IsReady r none a h = no_req-IsReady r r.fctx.response_result h
    by_request-IsReady r (some (result_blocked l x)) a h =
        mode-IsReady "creating blocked resp for filtered req" _ r h
    by_request-IsReady r (some (result_allowed l x)) a h = (h.0.0, h.1)
    by_request-IsReady r (some (result_modified_request l x m)) a h =
        mode_or_response-IsReady _ r _ h.1 h
    by_request-IsReady r (some (result_modified_response l x m)) a h =
        mode_or_response-IsReady _ r (some m) a h

    pub set_filtered_response-IsReady :
        (r : Run) → IsFiltered r → OnDone IsReady (set_filtered_response ri r)
    unfolding set_filtered_response
    set_filtered_response-IsReady r h = by_request-IsReady r r.fctx.request_result h.0.1 h
