-- ===== src/ConnLimiter/Bounds.antt =====
-- internal/connlimiter: the number of connections never passes the limit.
use ad_guard_dns.Base.{
  ℕ, zero, suc, ◌+◌, ◌≤◌, ◌<◌, ◌≡◌, refl, ◌∙◌, Bool, true, false, List, [], ◌∷◌, ◌++◌, arith, inl,
  inr, ◌⊎◌,
}
use ad_guard_dns.ConnLimiter.{
  Limiter, Event, accept_rounds, close_listeners, close_conns, accept_answers, increment, decrement,
  new, accept_round, accept_done, close_flag, close_conn, close_listener, step, run, open_conns,
  uint64_mod, waits,
}

-- The counter covers the calls and connections that are alive and stays within the limit; it
-- accepts only below the limit, and refuses only where the count is at least `resume`.
pub record Inv (s : Limiter) : Type 0 where
  pub covered : s.accepting + open_conns s.conns ≤ s.counter.current
  pub bounded : s.counter.current ≤ s.counter.stop
  pub accepts_below : s.counter.is_accepting ≡ true → s.counter.current < s.counter.stop
  pub refuses_above : s.counter.is_accepting ≡ false → s.counter.resume ≤ s.counter.current
  pub fits : s.counter.stop < uint64_mod
  pub resumes : s.counter.resume ≤ s.counter.stop

pub open_conns-append : (cs : List Bool) → open_conns (cs ++ false ∷ []) ≡ open_conns cs + 1
open_conns-append [] = omega arith
open_conns-append (true ∷ cs) = open_conns-append cs
open_conns-append (false ∷ cs) = omega (arith, open_conns-append cs)

pub close_flag-open_conns :
    (i : ℕ) (cs : List Bool)
    → (((close_flag i cs).0 ≡ true) × (open_conns (close_flag i cs).1 + 1 ≡ open_conns cs))
      ⊎ ((close_flag i cs).0 ≡ false)
unfolding close_flag
close_flag-open_conns i [] = inr refl
close_flag-open_conns zero (true ∷ cs) = inr refl
close_flag-open_conns zero (false ∷ cs) = inl (refl, omega arith)
close_flag-open_conns (suc i) (true ∷ cs) = close_flag-open_conns i cs
close_flag-open_conns (suc i) (false ∷ cs) = ground (arith, close_flag-open_conns i cs)

accept_round-Inv : (l : ℕ) {s : Limiter} → Inv s → Inv (accept_round l s).1
unfolding accept_round
accept_round-Inv l {s} v = ground arith

accept_done-Inv : (ok : Bool) {s : Limiter} → Inv s → 0 < s.accepting → Inv (accept_done ok s)
unfolding accept_done
accept_done-Inv true {s} v h = ground (arith, open_conns-append s.conns)
accept_done-Inv false {s} v h = ground arith

close_conn-Inv : (i : ℕ) {s : Limiter} → Inv s → Inv (close_conn i s)
unfolding close_conn
close_conn-Inv i {s} v = ground (arith, close_flag-open_conns i s.conns)

close_listener-Inv : (l : ℕ) {s : Limiter} → Inv s → Inv (close_listener l s).1
unfolding close_listener
close_listener-Inv l {s} v = ground arith

pub step-Inv : (e : Event) {s : Limiter} → Inv s → Inv (step s e)
unfolding step
step-Inv (accept_rounds l) v = accept_round-Inv l v
step-Inv (close_listeners l) v = close_listener-Inv l v
step-Inv (close_conns i) v = close_conn-Inv i v
step-Inv (accept_answers ok) {s} v = ground (arith, accept_done-Inv ok v)

run-Inv : (es : List Event) {s : Limiter} → Inv s → Inv (run s es)
unfolding run
run-Inv [] v = v
run-Inv (e ∷ es) v = run-Inv es (step-Inv e v)

pub new-Inv :
    {stop resume : ℕ} → resume ≤ stop → 0 < stop → stop < uint64_mod → Inv (new stop resume)
new-Inv h p b = record {
  covered = omega arith;
  bounded = omega arith;
  accepts_below = λ _. p;
  refuses_above = λ r. ground arith;
  fits = b;
  resumes = h;
}

-- the limit never changes
step-stop : (e : Event) (s : Limiter) → (step s e).counter.stop ≡ s.counter.stop
unfolding step accept_round accept_done close_conn close_listener increment decrement
step-stop (accept_rounds l) s = ground arith
step-stop (close_listeners l) s = ground arith
step-stop (close_conns i) s = ground arith
step-stop (accept_answers true) s = ground arith
step-stop (accept_answers false) s = ground arith

run-stop : (es : List Event) (s : Limiter) → (run s es).counter.stop ≡ s.counter.stop
unfolding run
run-stop [] s = refl
run-stop (e ∷ es) s = run-stop es (step s e) ∙ step-stop e s

-- Whatever the calls of the listeners and connections and their order, in a limiter that was made
-- with a limit above 0 and a mark for resuming that is not above it, the connections that are
-- open, with those still being accepted, are at most the limit.
pub open_conns-bounded :
    (stop resume : ℕ)
    → resume ≤ stop
    → 0 < stop
    → stop < uint64_mod
    → (es : List Event)
    → (run (new stop resume) es).accepting + open_conns (run (new stop resume) es).conns ≤ stop
open_conns-bounded stop resume h p b es =
    let v = run-Inv es (new-Inv h p b) in
    omega (arith, v.covered, v.bounded, run-stop es (new stop resume))

-- From any state that the limiter reaches, a call of `Accept` on an open listener waits only where
-- the count is at least the mark for resuming.
waits-above_resume :
    (stop resume : ℕ)
    → resume ≤ stop
    → 0 < stop
    → stop < uint64_mod
    → (es : List Event) (l : ℕ) → (accept_round l (run (new stop resume) es)).0 ≡ waits
    → (run (new stop resume) es).counter.resume ≤ (run (new stop resume) es).counter.current
unfolding accept_round increment
waits-above_resume stop resume h p b es l w =
    let v = run-Inv es (new-Inv h p b) in ground (arith, v.refuses_above)
