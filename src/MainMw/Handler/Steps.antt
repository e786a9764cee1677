-- ===== src/MainMw/Handler/Steps.antt =====
-- internal/dnssvc/internal/mainmw/mainmw.go: the steps of the handler up to the response.
use ad_guard_dns.Base.{refl, String, List, [], ◌∷◌, ◌++◌, Option, some, none, eqb}
use ad_guard_dns.Agd.{DeviceSets}
use ad_guard_dns.Messages.{Msg}
use ad_guard_dns.MainMw.{
  RequestMetrics, Event, collected, measured, Run, Texts, Middleware, RequestInfo, Served,
  serve_error, served, Call,
}
use ad_guard_dns.MainMw.Outcomes.{OnDone, bind-OnDone}
use ad_guard_dns.MainMw.Filtering.{new_filtering_context, class_chaos, filter}
use ad_guard_dns.MainMw.Filtering.Events.{
  Ok, filter_request-Ok, filter_response-Ok, set_filtered_response-Ok,
}
use ad_guard_dns.MainMw.Handler.{
  Handled, report_metrics, respond, with_resp, after_served, after_filtering, wrap,
}

-- To show a property `Q` of what the handler leaves: of the runs that end with an error, and of the
-- response, where the events so far satisfy `K`.
module _ ⦃S : DeviceSets⦄ (t : Texts) (mw : Middleware) (c : Call) (ri : RequestInfo) (req : Msg)
    (K : List Event → Type 0)
    (collected-ok : (label : String) (es : List Event) → K es → K (es ++ collected label ∷ []))
    (measured-ok : (m : RequestMetrics) (es : List Event) → K es → K (es ++ measured m ∷ []))
    (nothing-ok : K []) (Q : Handled → Type 0) where
  abbrev pub Before : Run → Type 0
  Before r =
      Ok K collected-ok (new_filtering_context req).original_request
        (eqb req.question.q_class class_chaos) r

  module _
      (on_error : (r : Run) (err : String) → Before r → Q (record { run = r; error = some err }))
      (on_respond : (r : Run) → Before r → OnDone Q (respond t mw c ri r)) where
    after_served-OnDone : (r : Run) (s : Served) → Before r → OnDone Q (after_served t mw c ri r s)
    unfolding after_served report_metrics with_resp
    after_served-OnDone r (serve_error err) h = on_error r err h
    after_served-OnDone r (served m) h =
        bind-OnDone Before Q _ _
          (filter_response-Ok K collected-ok _ _ ri (filter mw ri) c.response_time _ h)
          (λ r1 h1.
            bind-OnDone Before Q _ _
              (set_filtered_response-Ok K collected-ok _ _ ri (report_metrics t ri r1)
                (measured-ok _ r1.events h1.0, h1.1, h1.2))
              on_respond)

    after_filtering-OnDone :
        (r : Run) (err : Option String) → Before r → OnDone Q (after_filtering t mw c ri r err)
    unfolding after_filtering
    after_filtering-OnDone r none h = after_served-OnDone r _ h
    after_filtering-OnDone r (some err) h = on_error r err h

    pub wrap-OnDone : OnDone Q (wrap t mw c ri req)
    unfolding wrap new_filtering_context
    wrap-OnDone =
        bind-OnDone Before Q _ _
          (filter_request-Ok K collected-ok _ _ ri (filter mw ri) c.request_time _
            (nothing-ok, refl, refl))
          (λ r h. after_filtering-OnDone r c.context_error h)
