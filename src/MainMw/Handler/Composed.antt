-- ===== src/MainMw/Handler/Composed.antt =====
-- internal/dnssvc/internal/mainmw with internal/filter/internal/composite: the handler does not panic.
use ad_guard_dns.Base.{
  ◌≡◌, ◌≢◌, refl, sym, subst, true, false, String, [], Option, some, none, if◌then◌else◌,
}
use ad_guard_dns.Agd.{DeviceSets}
use ad_guard_dns.Messages.{Msg}
use ad_guard_dns.Filter.{Rules, done, panicked}
use ad_guard_dns.Filter.Rewrite.{Answers}
use ad_guard_dns.Filter.Composite.{Filter}
use ad_guard_dns.Filter.Composite.Safe.{IsWellNamed}
use ad_guard_dns.MainMw.{Run, Texts, Middleware, RequestInfo, Served, serve_error, served, Call}
use ad_guard_dns.MainMw.Outcomes.{DoneWith, DoneWith-ne, bind-DoneWith}
use ad_guard_dns.MainMw.Composite.{View, composite, IsSound, composite-IsSound}
use ad_guard_dns.MainMw.Filtering.{new_filtering_context, filter}
use ad_guard_dns.MainMw.Filtering.Total.{
  IsThere, IsNew, IsChecked, IsReady, filter_request-done, filter_response-done,
  set_filtered_response-done,
}
use ad_guard_dns.MainMw.Handler.{
  Handled, report_metrics, write_response, write_debug_response, respond, with_resp, after_served,
  after_filtering, wrap,
}

module _ ⦃S : DeviceSets⦄ where
  -- The next handler writes a message or returns an error.
  abbrev pub NextServes : Call → Type 0
  NextServes c = (ri : RequestInfo) (req : Msg) → c.next ri req ≢ served none

module _ ⦃S : DeviceSets⦄ (t : Texts) (mw : Middleware) (c : Call) (ri : RequestInfo)
    (req : Msg) where
  abbrev Any : Handled → Type 0
  Any h = Unit

  write_debug_response-done :
      (r : Run) (m : Option Msg) → IsThere m → DoneWith Any (write_debug_response t mw c ri r m)
  unfolding write_debug_response
  write_debug_response-done r none h = absurd h
  write_debug_response-done r (some m) h = tt

  respond-done : (r : Run) → IsReady r → DoneWith Any (respond t mw c ri r)
  unfolding respond
  respond-done r h =
      elim r.fctx.is_debug
        as (λ b. DoneWith Any (
          if b
          then write_debug_response t mw c ri r r.fctx.filtered_response
          else done (write_response t mw c ri r))) [
            | true ↦ write_debug_response-done r r.fctx.filtered_response h
            | false ↦ tt
          ]

  module _ (next_serves : NextServes c) (sound : IsSound (filter mw ri)) where
    after_served-done :
        (r : Run) (s : Served)
        → s ≢ served none
        → IsNew r
        → DoneWith Any (after_served t mw c ri r s)
    unfolding after_served with_resp report_metrics
    after_served-done r (serve_error err) n h = tt
    after_served-done r (served none) n h = absurd (n refl)
    after_served-done r (served (some m)) n h =
        bind-DoneWith IsChecked Any _ _
          (filter_response-done ri (filter mw ri) c.response_time (with_resp t mw c ri (some m) r)
            sound (tt, h))
          (λ r1 k.
            bind-DoneWith IsReady Any _ _ (set_filtered_response-done ri (report_metrics t ri r1) k)
              (λ r2 l. respond-done r2 l))

    after_filtering-done :
        (r : Run) (err : Option String) → IsNew r → DoneWith Any (after_filtering t mw c ri r err)
    unfolding after_filtering
    after_filtering-done r (some err) h = tt
    after_filtering-done r none h = after_served-done r _ (next_serves _ _) h

    wrap-done : wrap t mw c ri req ≢ panicked
    unfolding wrap new_filtering_context
    wrap-done = DoneWith-ne Any (wrap t mw c ri req) (
        bind-DoneWith IsNew Any _ _
          (filter_request-done ri (filter mw ri) c.request_time
            (record { fctx = new_filtering_context req; events = [] }) sound refl)
          (λ r k. after_filtering-done r c.context_error k))

  -- The middleware with a composite filter, whose rule lists have IDs other than that of the blocked
  -- services and whose lists of blocked services name their service, never panics, whatever the rules are
  -- and the query is, if the next handler writes a message or returns an error.
  pub wrap-composite-done :
      (v : View) (e : Rules) (a : Answers) (f : Filter)
      → IsWellNamed f
      → filter mw ri ≡ composite v e a f
      → NextServes c
      → wrap t mw c ri req ≢ panicked
  wrap-composite-done v e a f named is_composite next_serves =
      wrap-done next_serves (subst IsSound (sym is_composite) (composite-IsSound v e a f named))
