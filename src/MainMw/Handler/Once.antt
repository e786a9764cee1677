-- ===== src/MainMw/Handler/Once.antt =====
-- internal/dnssvc/internal/mainmw/mainmw.go: how often the handler writes to the client.
use ad_guard_dns.Base.{
  ℕ, ◌+◌, ◌≡◌, refl, sym, subst, true, false, String, List, [], ◌∷◌, ◌++◌, Option, some, none,
  if◌then◌else◌, arith,
}
use ad_guard_dns.Agd.{DeviceSets}
use ad_guard_dns.Messages.{Msg}
use ad_guard_dns.Filter.{done}
use ad_guard_dns.MainMw.{
  Event, collected, measured, write, rule_counted, billed, logged, Run, Texts, Middleware,
  RequestInfo, Call,
}
use ad_guard_dns.MainMw.Outcomes.{OnDone, done-OnDone}
use ad_guard_dns.MainMw.Record.Events.{record_query_info-Ok, IsRecord}
use ad_guard_dns.MainMw.Debug.Kept.{debug_message-Kept}
use ad_guard_dns.MainMw.Handler.{
  Handled, write_response, recorded, write_debug_response, written_debug, respond, wrap,
}
use ad_guard_dns.MainMw.Handler.Steps.{wrap-OnDone}

-- the number of messages that are written
abbrev pub writes : List Event → ℕ
writes [] = 0
writes (write q m ∷ es) = 1 + writes es
writes (_ ∷ es) = writes es

writes-append : (xs ys : List Event) → writes (xs ++ ys) ≡ writes xs + writes ys
writes-append [] ys = omega arith
writes-append (write q m ∷ xs) ys = omega (arith, writes-append xs ys)
writes-append (_ ∷ xs) ys = writes-append xs ys

other :
    (n : ℕ) (e : Event) (es : List Event)
    → writes (e ∷ []) ≡ 0
    → writes es ≡ n
    → writes (es ++ e ∷ []) ≡ n
other n e es z h = omega (arith, writes-append es (e ∷ []), z, h)

add_write :
    (q : Msg) (m : Option Msg) (es : List Event) → writes es ≡ 0 → writes (es ++ write q m ∷ []) ≡ 1
add_write q m es h = omega (arith, writes-append es (write q m ∷ []), h)

record-ok :
    (n : ℕ) (e : Event) (es : List Event) → IsRecord e → writes es ≡ n → writes (es ++ e ∷ []) ≡ n
record-ok n (measured m) es i h = elim i [ ]
record-ok n (write q m) es i h = elim i [ ]
record-ok n (collected l) es i h = other n (collected l) es refl h
record-ok n (rule_counted l x) es i h = other n (rule_counted l x) es refl h
record-ok n (billed id ctry asn start proto) es i h =
    other n (billed id ctry asn start proto) es refl h
record-ok n (logged e) es i h = other n (logged e) es refl h

module _ ⦃S : DeviceSets⦄ (t : Texts) (mw : Middleware) (c : Call) (ri : RequestInfo)
    (req : Msg) where
  abbrev Once : Handled → Type 0
  Once h = h.error ≡ none → writes h.run.events ≡ 1

  recorded-Once :
      (r : Run) (err : Option String) → writes r.events ≡ 1 → Once (recorded t mw c ri r err)
  unfolding recorded
  recorded-Once r none h e =
      record_query_info-Ok t mw (λ es. writes es ≡ 1) (λ l es. other 1 (collected l) es refl)
        (record-ok 1) ri c r h
  recorded-Once r (some err) h e = h

  write_debug_response-Once :
      (r : Run) (m : Option Msg)
      → writes r.events ≡ 0
      → OnDone Once (write_debug_response t mw c ri r m)
  unfolding write_debug_response written_debug
  write_debug_response-Once r none h = tt
  write_debug_response-Once r (some m) h =
      let k = debug_message-Kept t mw c ri r.fctx m in
      subst (λ o. Once (written_debug t mw c ri r o)) (sym k.1)
        (λ e. add_write r.fctx.original_request (some k.0) r.events h)

  respond-Once : (r : Run) → writes r.events ≡ 0 → OnDone Once (respond t mw c ri r)
  unfolding respond write_response
  respond-Once r h =
      elim r.fctx.is_debug
        as (λ b. OnDone Once (
          if b
          then write_debug_response t mw c ri r r.fctx.filtered_response
          else done (write_response t mw c ri r))) [
            | true ↦ write_debug_response-Once r r.fctx.filtered_response h
            | false ↦
                recorded-Once _ _
                  (add_write r.fctx.original_request r.fctx.filtered_response r.events h)
          ]

  some_ne : (err : String) → some err ≡ none → ⊥
  some_ne err e = cc

  pub wrap-writes :
      (h : Handled) → wrap t mw c ri req ≡ done h → h.error ≡ none → writes h.run.events ≡ 1
  wrap-writes h e =
      done-OnDone Once (wrap t mw c ri req) h
        (wrap-OnDone t mw c ri req (λ es. writes es ≡ 0) (λ l es. other 0 (collected l) es refl)
          (λ m es. other 0 (measured m) es refl) refl Once (λ r err p q. absurd (some_ne err q))
          (λ r p. respond-Once r p.0))
        e
