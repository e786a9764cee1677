-- ===== src/ConnLimiter/Examples.antt =====
-- internal/connlimiter: the theorems at a limit of two connections.
use ad_guard_dns.Base.{◌+◌, ◌≤◌, ◌≡◌, refl, true, List, [], ◌∷◌, arith}
use ad_guard_dns.ConnLimiter.{
  Event, accept_rounds, accept_answers, close_listeners, new, run, open_conns, accept_round, waits,
  increment, accept_done, close_listener, step,
}
use ad_guard_dns.ConnLimiter.Bounds.{open_conns-bounded}
use ad_guard_dns.ConnLimiter.Leak.{current-run, leaks}

-- Two connections are accepted, and a third call waits.
abbrev events : List Event
events =
    accept_rounds 0
    ∷ accept_answers true
    ∷ accept_rounds 0
    ∷ accept_answers true
    ∷ accept_rounds 0
    ∷ []

-- A connection is accepted, and the loop runs again after the listener is closed.
abbrev after : List Event
after = accept_rounds 0 ∷ accept_answers true ∷ close_listeners 0 ∷ accept_rounds 0 ∷ []

run_waits : (accept_round 0 (run (new 2 1) events)).0 ≡ waits
unfolding run step accept_round accept_done increment
run_waits = refl

open_conns-bounded_example :
    (run (new 2 1) events).accepting + open_conns (run (new 2 1) events).conns ≤ 2
open_conns-bounded_example = open_conns-bounded 2 1 (omega arith) (omega arith) (omega arith) events

-- one connection is open, and a second place is taken for none
leak_run : (run (new 2 1) after).counter.current ≡ 2
unfolding run step accept_round accept_done increment close_listener
leak_run = refl

current-run_example :
    (run (new 2 1) after).counter.current
    ≡ (run (new 2 1) after).accepting
      + open_conns (run (new 2 1) after).conns
      + leaks (new 2 1) after
current-run_example = current-run 2 1 (omega arith) (omega arith) (omega arith) after
