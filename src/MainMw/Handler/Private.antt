-- ===== src/MainMw/Handler/Private.antt =====
-- internal/dnssvc/internal/mainmw: what the handler bills and logs.
use ad_guard_dns.Base.{◌≡◌, true, false, String, Option, some, none, All, if◌then◌else◌}
use ad_guard_dns.Agd.{DeviceSets}
use ad_guard_dns.Messages.{Msg}
use ad_guard_dns.Filter.{done}
use ad_guard_dns.MainMw.{Run, Texts, Middleware, RequestInfo, Call}
use ad_guard_dns.MainMw.Outcomes.{OnDone, done-OnDone, All-snoc}
use ad_guard_dns.MainMw.Record.Private.{IsPrivate, record_query_info-Private}
use ad_guard_dns.MainMw.Handler.{
  Handled, write_response, recorded, write_debug_response, written_debug, respond, wrap,
}
use ad_guard_dns.MainMw.Handler.Steps.{wrap-OnDone}

module _ ⦃S : DeviceSets⦄ (t : Texts) (mw : Middleware) (c : Call) (ri : RequestInfo) where
  abbrev Private : Handled → Type 0
  Private h = All (IsPrivate ri) h.run.events

  recorded-Private :
      (r : Run) (err : Option String)
      → All (IsPrivate ri) r.events
      → Private (recorded t mw c ri r err)
  unfolding recorded
  recorded-Private r none h = record_query_info-Private t mw c ri r h
  recorded-Private r (some err) h = h

  write_response-Private :
      (r : Run) → All (IsPrivate ri) r.events → Private (write_response t mw c ri r)
  unfolding write_response
  write_response-Private r h = recorded-Private _ _ (All-snoc (IsPrivate ri) r.events _ h tt)

  written_debug-Private :
      (r : Run) (m : Option Msg)
      → All (IsPrivate ri) r.events
      → Private (written_debug t mw c ri r m)
  unfolding written_debug
  written_debug-Private r none h = h
  written_debug-Private r (some m) h = All-snoc (IsPrivate ri) r.events _ h tt

  write_debug_response-Private :
      (r : Run) (m : Option Msg)
      → All (IsPrivate ri) r.events
      → OnDone Private (write_debug_response t mw c ri r m)
  unfolding write_debug_response
  write_debug_response-Private r none h = tt
  write_debug_response-Private r (some m) h = written_debug-Private r _ h

  respond-Private : (r : Run) → All (IsPrivate ri) r.events → OnDone Private (respond t mw c ri r)
  unfolding respond
  respond-Private r h =
      elim r.fctx.is_debug
        as (λ b. OnDone Private (
          if b
          then write_debug_response t mw c ri r r.fctx.filtered_response
          else done (write_response t mw c ri r))) [
            | true ↦ write_debug_response-Private r r.fctx.filtered_response h
            | false ↦ write_response-Private r h
          ]

  -- Every bill that the handler makes is for the device that the query was found to be from. Every entry
  -- that it writes to the query log is for that device and its profile, which has the query log on, and
  -- holds the client's address only if the profile has addresses logged. With no device there are none.
  pub wrap-IsPrivate :
      (req : Msg) (h : Handled) → wrap t mw c ri req ≡ done h → All (IsPrivate ri) h.run.events
  wrap-IsPrivate req h e =
      done-OnDone Private (wrap t mw c ri req) h
        (wrap-OnDone t mw c ri req (All (IsPrivate ri))
          (λ l es k. All-snoc (IsPrivate ri) es _ k tt)
          (λ m es k. All-snoc (IsPrivate ri) es _ k tt) tt Private (λ r err p. p.0)
          (λ r p. respond-Private r p.0))
        e
