-- ===== src/MainMw/Handler/Billed.antt =====
-- internal/dnssvc/internal/mainmw: how often the handler bills and logs a query.
use ad_guard_dns.Base.{
  ℕ, ◌≡◌, refl, Bool, true, false, not, ◌&&◌, String, List, [], Option, some, none, eqb,
  if◌then◌else◌,
}
use ad_guard_dns.Agd.{DeviceSets}
use ad_guard_dns.Messages.{Msg}
use ad_guard_dns.Filter.{done}
use ad_guard_dns.MainMw.{collected, measured, write, Run, Texts, Middleware, RequestInfo, Call}
use ad_guard_dns.MainMw.Outcomes.{OnDone, done-OnDone}
use ad_guard_dns.MainMw.Filtering.{class_chaos}
use ad_guard_dns.MainMw.Record.Billed.{
  Bill, bills, entries, Tally, Tally-other, due, record_query_info-Tally,
}
use ad_guard_dns.MainMw.Handler.{
  Handled, write_response, recorded, write_debug_response, written_debug, respond, wrap,
}
use ad_guard_dns.MainMw.Handler.Steps.{wrap-OnDone}

abbrev pub is_ok : Option String → Bool
is_ok none = true
is_ok (some err) = false

module _ ⦃S : DeviceSets⦄ (ri : RequestInfo) where
  -- what is recorded: nothing of a debug request, or where an error is returned
  abbrev pub expected : Bool → Option String → List Bill × ℕ
  expected debug err = if not debug && is_ok err then due ri ri.device_data else ([], 0)

module _ ⦃S : DeviceSets⦄ (t : Texts) (mw : Middleware) (c : Call) (ri : RequestInfo)
    (req : Msg) where
  abbrev TallyOf : Bool → Handled → Type 0
  TallyOf debug h = Tally (expected ri debug h.error).0 (expected ri debug h.error).1 h.run.events

  nothing : (debug : Bool) (err : String) → expected ri debug (some err) ≡ ([], 0)
  nothing true err = refl
  nothing false err = refl

  recorded-Tally :
      (r : Run) (err : Option String)
      → Tally [] 0 r.events
      → TallyOf false (recorded t mw c ri r err)
  unfolding recorded
  recorded-Tally r none h = record_query_info-Tally t mw c ri r h
  recorded-Tally r (some err) h = h

  write_response-Tally :
      (r : Run) → Tally [] 0 r.events → TallyOf false (write_response t mw c ri r)
  unfolding write_response
  write_response-Tally r h = recorded-Tally _ _ (Tally-other [] 0 (write _ _) r.events refl refl h)

  written_debug-Tally :
      (r : Run) (m : Option Msg) → Tally [] 0 r.events → TallyOf true (written_debug t mw c ri r m)
  unfolding written_debug
  written_debug-Tally r none h = h
  written_debug-Tally r (some m) h = Tally-other [] 0 (write _ _) r.events refl refl h

  write_debug_response-Tally :
      (r : Run) (m : Option Msg)
      → Tally [] 0 r.events
      → OnDone (TallyOf true) (write_debug_response t mw c ri r m)
  unfolding write_debug_response
  write_debug_response-Tally r none h = tt
  write_debug_response-Tally r (some m) h = written_debug-Tally r _ h

  respond-Tally :
      (r : Run) (debug : Bool)
      → r.fctx.is_debug ≡ debug
      → Tally [] 0 r.events
      → OnDone (TallyOf debug) (respond t mw c ri r)
  unfolding respond
  respond-Tally r true e h = simp e (write_debug_response-Tally r r.fctx.filtered_response h)
  respond-Tally r false e h = simp e (write_response-Tally r h)

  error-Tally :
      (debug : Bool) (r : Run) (err : String)
      → Tally [] 0 r.events
      → TallyOf debug (record { run = r; error = some err })
  error-Tally true r err h = h
  error-Tally false r err h = h

  -- A query that is not a debug request and is answered without an error is billed once, for its device
  -- with the country, the ASN, the start and the protocol of the query, and has one entry in the query
  -- log if the profile has it on. Nothing is billed or logged of another query, or of one with no device.
  pub wrap-billed :
      (h : Handled)
      → wrap t mw c ri req ≡ done h
      → (bills h.run.events ≡ (expected ri (eqb req.question.q_class class_chaos) h.error).0)
        × (entries h.run.events ≡ (expected ri (eqb req.question.q_class class_chaos) h.error).1)
  wrap-billed h e =
      let debug = eqb req.question.q_class class_chaos in
      done-OnDone (TallyOf debug) (wrap t mw c ri req) h
        (wrap-OnDone t mw c ri req (Tally [] 0)
          (λ l es k. Tally-other [] 0 (collected l) es refl refl k)
          (λ m es k. Tally-other [] 0 (measured m) es refl refl k) (refl, refl) (TallyOf debug)
          (λ r err p. error-Tally debug r err p.0) (λ r p. respond-Tally r debug p.1 p.0))
        e
