-- ===== src/MainMw/Filtering/Total.antt =====
-- internal/dnssvc/internal/mainmw/filter.go: the steps of filtering do not panic with a sound filter.
use ad_guard_dns.Base.{◌≡◌, ◌≢◌, refl, sym, subst, ℕ, String, Option, some, none}
use ad_guard_dns.Settings.{BlockingMode}
use ad_guard_dns.Agd.{DeviceSets}
use ad_guard_dns.Messages.{Msg}
use ad_guard_dns.Filter.{Outcome, done, panicked}
use ad_guard_dns.Filter.Composite.{◌>>=◌}
use ad_guard_dns.MainMw.{
  FilterResult, result_allowed, result_blocked, result_modified_request, result_modified_response,
  FilterInterface, Run, RequestInfo,
}
use ad_guard_dns.MainMw.Outcomes.{DoneWith, bind-DoneWith}
use ad_guard_dns.MainMw.Composite.{IsSound, IsUnmodified}
use ad_guard_dns.MainMw.Filtering.{
  req_info_to_flt_req, req_info_to_flt_resp, filter_request, filtered_request, filter_response,
  filtered_response, by_modified, restored, set_filtered_response_from_blocking_mode,
  blocked_or_kept, set_filtered_response_no_req, no_req, mode_or_response, by_request,
  set_filtered_response,
}

abbrev pub IsThere : Option Msg → Type 0
IsThere none = ⊥
IsThere (some m) = Unit

abbrev pub IsNew : Run → Type 0
IsNew r = r.fctx.response_result ≡ none

abbrev pub IsAnswered : Run → Type 0
IsAnswered r = IsThere r.fctx.original_response × IsNew r

abbrev pub IsChecked : Run → Type 0
IsChecked r = IsThere r.fctx.original_response × IsUnmodified r.fctx.response_result

abbrev pub IsReady : Run → Type 0
IsReady r = IsThere r.fctx.filtered_response

module _ ⦃S : DeviceSets⦄ (ri : RequestInfo) where
  pub filter_request-done :
      (f : FilterInterface) (took : ℕ) (r : Run)
      → IsSound f
      → IsNew r
      → DoneWith IsNew (filter_request f ri took r)
  unfolding filter_request filtered_request
  filter_request-done f took r sound h =
      done-with (f.filter_request (req_info_to_flt_req r.fctx.original_request ri))
        (sound.request-done _)
    where
      collected-IsNew :
          (res : Option FilterResult) (err : Option String)
          → IsNew (filtered_request took r (res, err))
      collected-IsNew res none = h
      collected-IsNew res (some err) = h

      done-with :
          (o : Outcome (Option FilterResult × Option String))
          → o ≢ panicked
          → DoneWith IsNew (o >>= λ res. done (filtered_request took r res))
      done-with (done (res, err)) n = collected-IsNew res err
      done-with panicked n = absurd (n refl)

  restored-IsChecked :
      (took : ℕ) (r : Run) (m : Msg) (orig : Option Msg)
      → IsThere orig
      → IsNew r
      → DoneWith IsChecked (restored ri took r m orig)
  unfolding restored
  restored-IsChecked took r m none h n = absurd h
  restored-IsChecked took r m (some resp) h n = (tt, subst IsUnmodified (sym n) tt)

  checked :
      (took : ℕ) (r : Run) (res : Option FilterResult × Option String)
      → IsThere r.fctx.original_response
      → IsUnmodified res.0
      → IsChecked (filtered_response took r res)
  unfolding filtered_response
  checked took r (res, none) h u = (h, u)
  checked took r (res, some err) h u = (h, u)

  by_modified-done :
      (f : FilterInterface) (took : ℕ) (r : Run) (m orig : Option Msg)
      → IsSound f
      → r.fctx.original_response ≡ orig
      → IsAnswered r
      → DoneWith IsChecked (by_modified f ri took r m)
  unfolding by_modified req_info_to_flt_resp
  by_modified-done f took r (some m) orig sound e h =
      restored-IsChecked took r m r.fctx.original_response h.0 h.1
  by_modified-done f took r none none sound e h = absurd (subst IsThere e h.0)
  by_modified-done f took r none (some resp) sound e h =
      bind-DoneWith (λ (x : Option FilterResult × Option String). IsUnmodified x.0) IsChecked _ _
        (sound.response-done (req_info_to_flt_resp r.fctx.original_response ri) resp e)
        (λ res u. checked took r res h.0 u)

  pub filter_response-done :
      (f : FilterInterface) (took : ℕ) (r : Run)
      → IsSound f
      → IsAnswered r
      → DoneWith IsChecked (filter_response f ri took r)
  unfolding filter_response
  filter_response-done f took r sound h =
      by_modified-done f took r r.fctx.modified_request r.fctx.original_response sound refl h

  blocked_or_kept-IsReady :
      (label : String) (r : Run) (m : Option Msg)
      → IsChecked r
      → IsReady (blocked_or_kept label r m)
  unfolding blocked_or_kept
  blocked_or_kept-IsReady label r none h = h.0
  blocked_or_kept-IsReady label r (some m) h = tt

  mode-IsReady :
      (label : String) (mode : Option BlockingMode) (r : Run)
      → IsChecked r
      → IsReady (set_filtered_response_from_blocking_mode ri label mode r)
  unfolding set_filtered_response_from_blocking_mode
  mode-IsReady label mode r h = blocked_or_kept-IsReady label r _ h

  mode_or_response-IsReady :
      (mode : Option BlockingMode) (r : Run) (m : Option Msg)
      → IsThere m
      → IsChecked r
      → IsReady (mode_or_response ri r mode m)
  unfolding mode_or_response
  mode_or_response-IsReady none r m a h = a
  mode_or_response-IsReady (some mode) r m a h =
      mode-IsReady "creating blocked resp for filtered req" (some mode) r h

  no_req-done :
      (r : Run) (res : Option FilterResult)
      → IsUnmodified res
      → IsChecked r
      → DoneWith IsReady (no_req ri r res)
  unfolding no_req
  no_req-done r none u h = h.0
  no_req-done r (some (result_allowed l x)) u h = h.0
  no_req-done r (some (result_blocked l x)) u h =
      mode-IsReady "creating blocked resp for filtered resp" _ r h
  no_req-done r (some (result_modified_request l x m)) u h = absurd u
  no_req-done r (some (result_modified_response l x m)) u h = absurd u

  by_request-done :
      (r : Run) (res : Option FilterResult) → IsChecked r → DoneWith IsReady (by_request ri r res)
  unfolding by_request set_filtered_response_no_req
  by_request-done r none h = no_req-done r r.fctx.response_result h.1 h
  by_request-done r (some (result_blocked l x)) h =
      mode-IsReady "creating blocked resp for filtered req" _ r h
  by_request-done r (some (result_allowed l x)) h = h.0
  by_request-done r (some (result_modified_request l x m)) h = mode_or_response-IsReady _ r _ h.0 h
  by_request-done r (some (result_modified_response l x m)) h =
      mode_or_response-IsReady _ r (some m) tt h

  pub set_filtered_response-done :
      (r : Run) → IsChecked r → DoneWith IsReady (set_filtered_response ri r)
  unfolding set_filtered_response
  set_filtered_response-done r h = by_request-done r r.fctx.request_result h
