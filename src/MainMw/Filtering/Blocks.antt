-- ===== src/MainMw/Filtering/Blocks.antt =====
-- internal/dnssvc/internal/mainmw/filter.go: the message for a blocked request.
use ad_guard_dns.Base.{◌≡◌, refl, sym, subst, ℕ, String, Option, some, none}
use ad_guard_dns.Agd.{DeviceSets}
use ad_guard_dns.Messages.{Msg, new_blocked_resp}
use ad_guard_dns.Messages.Blocked.{
  IsFamilies, used_mode, rcode_of, addresses, IsBlockedBy, new_blocked_resp-IsBlockedBy,
}
use ad_guard_dns.Filter.{done}
use ad_guard_dns.Filter.Composite.{◌>>=◌}
use ad_guard_dns.MainMw.{FilterResult, result_blocked, FilterInterface, Run, RequestInfo}
use ad_guard_dns.MainMw.Outcomes.{OnDone, bind-always}
use ad_guard_dns.MainMw.Filtering.{
  req_info_to_flt_req, req_info_to_flt_resp, filter_request, filtered_request, filter_response,
  filtered_response, by_modified, restored, set_filtered_response_from_blocking_mode,
  blocked_or_kept, by_request, set_filtered_response, result_blocking_mode,
}

module _ ⦃S : DeviceSets⦄ (ri : RequestInfo) (req : Msg) (list rule : String) where
  abbrev result : FilterResult
  result = result_blocked list rule

  -- the response of the blocking mode for the list
  abbrev pub IsModeResponse : Option Msg → Type 0
  IsModeResponse o =
      let mode = used_mode ri.messages (result_blocking_mode ri (result_blocked list rule)) in
      IsBlockedBy ri.messages req (rcode_of mode) (addresses mode req.question.q_type) o

  abbrev pub IsBlocked : Run → Type 0
  IsBlocked r =
      (r.fctx.original_request ≡ req) × (r.fctx.request_result ≡ some (result_blocked list rule))

  abbrev pub IsBlockedReady : Run → Type 0
  IsBlockedReady r = (r.fctx.original_request ≡ req) × IsModeResponse r.fctx.filtered_response

  pub filter_request-IsBlocked :
      (f : FilterInterface) (took : ℕ) (r : Run) (err : Option String)
      → r.fctx.original_request ≡ req
      → f.filter_request (req_info_to_flt_req req ri) ≡ done (some (result_blocked list rule), err)
      → OnDone IsBlocked (filter_request f ri took r)
  unfolding filter_request filtered_request
  filter_request-IsBlocked f took r none e h =
      subst
        (λ q. OnDone IsBlocked (
          f.filter_request (req_info_to_flt_req q ri) >>= λ res.
          done (filtered_request took r res)))
        (sym e) (simp h (e, refl))
  filter_request-IsBlocked f took r (some err) e h =
      subst
        (λ q. OnDone IsBlocked (
          f.filter_request (req_info_to_flt_req q ri) >>= λ res.
          done (filtered_request took r res)))
        (sym e) (simp h (e, refl))

  filtered_response-IsBlocked :
      (took : ℕ) (r : Run) (res : Option FilterResult × Option String)
      → IsBlocked r
      → IsBlocked (filtered_response took r res)
  unfolding filtered_response
  filtered_response-IsBlocked took r (res, none) h = h
  filtered_response-IsBlocked took r (res, some err) h = h

  by_modified-IsBlocked :
      (f : FilterInterface) (took : ℕ) (r : Run) (m orig : Option Msg)
      → r.fctx.original_response ≡ orig
      → IsBlocked r
      → OnDone IsBlocked (by_modified f ri took r m)
  unfolding by_modified restored
  by_modified-IsBlocked f took r none orig e h =
      bind-always IsBlocked (f.filter_response (req_info_to_flt_resp r.fctx.original_response ri)) _
        (λ res. filtered_response-IsBlocked took r res h)
  by_modified-IsBlocked f took r (some m) none e h = simp e tt
  by_modified-IsBlocked f took r (some m) (some resp) e h = simp e h

  pub filter_response-IsBlocked :
      (f : FilterInterface) (took : ℕ) (r : Run)
      → IsBlocked r
      → OnDone IsBlocked (filter_response f ri took r)
  unfolding filter_response
  filter_response-IsBlocked f took r h =
      by_modified-IsBlocked f took r r.fctx.modified_request r.fctx.original_response refl h

  blocked_or_kept-Ready :
      (label : String) (r : Run) (o : Option Msg) (m : Msg)
      → o ≡ some m
      → r.fctx.original_request ≡ req
      → IsModeResponse (some m)
      → IsBlockedReady (blocked_or_kept label r o)
  unfolding blocked_or_kept
  blocked_or_kept-Ready label r o m e q h =
      subst (λ o. IsBlockedReady (blocked_or_kept label r o)) (sym e) (q, h)

  mode-Ready :
      (label : String) (r : Run)
      → IsFamilies (used_mode ri.messages (result_blocking_mode ri (result_blocked list rule)))
      → r.fctx.original_request ≡ req
      → IsBlockedReady (
          set_filtered_response_from_blocking_mode ri label
            (result_blocking_mode ri (result_blocked list rule))
            r)
  unfolding set_filtered_response_from_blocking_mode
  mode-Ready label r fam q =
      let mode = result_blocking_mode ri (result_blocked list rule) in
      let k = new_blocked_resp-IsBlockedBy ri.messages req mode fam in
      blocked_or_kept-Ready label r _ k.0
        (subst (λ x. new_blocked_resp ri.messages x mode ≡ some k.0) (sym q) k.1) q
        (subst IsModeResponse k.1 k)

  by_request-Ready :
      (r : Run) (res : Option FilterResult)
      → IsFamilies (used_mode ri.messages (result_blocking_mode ri (result_blocked list rule)))
      → res ≡ some (result_blocked list rule)
      → r.fctx.original_request ≡ req
      → OnDone IsBlockedReady (by_request ri r res)
  unfolding by_request
  by_request-Ready r res fam e q =
      subst (λ o. OnDone IsBlockedReady (by_request ri r o)) (sym e)
        (mode-Ready "creating blocked resp for filtered req" r fam q)

  pub set_filtered_response-Ready :
      (r : Run)
      → IsFamilies (used_mode ri.messages (result_blocking_mode ri (result_blocked list rule)))
      → IsBlocked r
      → OnDone IsBlockedReady (set_filtered_response ri r)
  unfolding set_filtered_response
  set_filtered_response-Ready r fam h = by_request-Ready r r.fctx.request_result fam h.1 h.0
