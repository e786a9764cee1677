-- ===== src/ConnLimiter/Leak.antt =====
-- internal/connlimiter: what a listener that is closed does to the counter, which it shares.
use ad_guard_dns.Base.{
  ℕ, zero, suc, ◌+◌, ◌≤◌, ◌<◌, ◌≡◌, refl, Bool, true, false, List, [], ◌∷◌, arith, if◌then◌else◌,
  ◌&&◌,
}
use ad_guard_dns.ConnLimiter.{
  Limiter, Event, accept_rounds, close_listeners, close_conns, accept_answers, accept_round,
  accept_done, close_listener, step, run, new, increment, uint64_mod, close_conn, close_flag,
  decrement, open_conns,
}
use ad_guard_dns.ConnLimiter.Bounds.{
  Inv, step-Inv, new-Inv, close_flag-open_conns, open_conns-append,
}

close_flag-again : (i : ℕ) (cs : List Bool) → (close_flag i (close_flag i cs).1).0 ≡ false
unfolding close_flag
close_flag-again i [] = refl
close_flag-again zero (c ∷ cs) = refl
close_flag-again (suc i) (c ∷ cs) = close_flag-again i cs

-- Closing a connection a second time changes nothing.
close_conn-twice : (i : ℕ) (s : Limiter) → close_conn i (close_conn i s) ≡ close_conn i s
unfolding close_conn
close_conn-twice i s = ground (arith, close_flag-again i s.conns)

abbrev leak : ℕ → Limiter → ℕ
leak l s = if s.is_closed l && s.counter.is_accepting then 1 else 0

-- The places that rounds on closed listeners take in a run.
unfoldable pub leaks : Limiter → List Event → ℕ
leaks s [] = 0
leaks s (accept_rounds l ∷ es) = leak l s + leaks (step s (accept_rounds l)) es
leaks s (close_listeners l ∷ es) = leaks (step s (close_listeners l)) es
leaks s (close_conns i ∷ es) = leaks (step s (close_conns i)) es
leaks s (accept_answers ok ∷ es) = leaks (step s (accept_answers ok)) es

abbrev live : Limiter → ℕ
live s = s.accepting + open_conns s.conns

abbrev Counts : Limiter → ℕ → Type 0
Counts s n = s.counter.current ≡ live s + n

step-accept_rounds :
    (l n : ℕ) {s : Limiter} → Inv s → Counts s n → Counts (step s (accept_rounds l)) (n + leak l s)
unfolding step accept_round increment
step-accept_rounds l n {s} v h = ground arith

step-close_conns : (i n : ℕ) {s : Limiter} → Inv s → Counts s n → Counts (step s (close_conns i)) n
unfolding step close_conn decrement
step-close_conns i n {s} v h = ground (arith, close_flag-open_conns i s.conns)

step-accept_answers :
    (ok : Bool) (n : ℕ) {s : Limiter} → Inv s → Counts s n → Counts (step s (accept_answers ok)) n
unfolding step accept_done decrement
step-accept_answers true n {s} v h = ground (arith, open_conns-append s.conns)
step-accept_answers false n {s} v h = ground arith

step-close_listeners : (l n : ℕ) (s : Limiter) → Counts s n → Counts (step s (close_listeners l)) n
unfolding step close_listener
step-close_listeners l n s h = ground arith

run-Counts :
    (es : List Event) (n : ℕ) {s : Limiter}
    → Inv s
    → Counts s n
    → Counts (run s es) (n + leaks s es)
unfolding run leaks
run-Counts [] n v h = omega (arith, h)
run-Counts (accept_rounds l ∷ es) n {s} v h = omega (
  arith,
  run-Counts es (n + leak l s) (step-Inv (accept_rounds l) v) (step-accept_rounds l n v h),
)
run-Counts (close_listeners l ∷ es) n {s} v h =
    run-Counts es n (step-Inv (close_listeners l) v) (step-close_listeners l n s h)
run-Counts (close_conns i ∷ es) n v h =
    run-Counts es n (step-Inv (close_conns i) v) (step-close_conns i n v h)
run-Counts (accept_answers ok ∷ es) n v h =
    run-Counts es n (step-Inv (accept_answers ok) v) (step-accept_answers ok n v h)

-- In a limiter that was made with a limit above 0 and a mark for resuming that is not above it,
-- the counter after any events is the number of the open connections and those being accepted,
-- plus one for each call of `Accept` that found its listener closed while the counter accepted.
pub current-run :
    (stop resume : ℕ)
    → resume ≤ stop
    → 0 < stop
    → stop < uint64_mod
    → (es : List Event)
    → (run (new stop resume) es).counter.current
      ≡ (run (new stop resume) es).accepting
        + open_conns (run (new stop resume) es).conns
        + leaks (new stop resume) es
current-run stop resume h p b es = omega (arith, run-Counts es 0 (new-Inv h p b) (omega arith))
