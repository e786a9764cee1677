-- ===== src/ConnLimiter.antt =====
-- internal/connlimiter: the counter of stream connections, and the listeners and connections that
-- share it. Every call holds the lock of the condition variable, so a run is a list of events.
mod Bounds
mod Leak
mod Examples
use ad_guard_dns.Base.{
  ℕ, zero, suc, ◌+◌, ◌-◌, ◌%◌, ◌^◌, Bool, true, false, not, ◌&&◌, ◌||◌, List, [], ◌∷◌, ◌++◌, Option,
  some, none, ltb, leb, eqb, if◌then◌else◌, nat_eq, ◌==◌,
}

abbrev pub uint64_mod : ℕ
uint64_mod = 2 ^ 64

pub record Counter : Type 0 where
  pub current : ℕ
  pub stop : ℕ
  pub resume : ℕ
  pub is_accepting : Bool

unfoldable pub increment : Counter → Bool × Counter
increment c =
    let next = (c.current + 1) % uint64_mod in
    if c.is_accepting
    then (true, record c { current = next; is_accepting = ltb next c.stop })
    else (false, c)

unfoldable pub decrement : Counter → Counter
decrement c =
    let next = (c.current + uint64_mod - 1) % uint64_mod in
    record c { current = next; is_accepting = c.is_accepting || leb next c.resume }

-- `is_closed` is the flag of each listener. A connection is known by the order in which it was
-- accepted, and `conns` holds the flags of all. `accepting` counts the calls of `Accept` between
-- the increment and the answer of the underlying listener.
pub record Limiter : Type 0 where
  pub counter : Counter
  pub is_closed : ℕ → Bool
  pub accepting : ℕ
  pub conns : List Bool

abbrev pub new : ℕ → ℕ → Limiter
new stop resume = record {
  counter = record { current = 0; stop = stop; resume = resume; is_accepting = true };
  is_closed = λ l. false;
  accepting = 0;
  conns = [];
}

-- What a round of the loop of `limitListener.increment` does: wait, or return.
pub data Round : Type 0 where
  waits accepts err_closed : Round

-- One round: the counter is tried first, also where the listener is closed.
unfoldable pub accept_round : ℕ → Limiter → Round × Limiter
unfolding increment
accept_round l s =
    let (shall, c) = increment s.counter in
    if not shall && not (s.is_closed l)
    then (waits, s)
    else if s.is_closed l
    then (err_closed, record s { counter = c })
    else (accepts, record s { counter = c; accepting = s.accepting + 1 })

-- The underlying listener has accepted a connection, or has failed.
unfoldable pub accept_done : Bool → Limiter → Limiter
unfolding decrement
accept_done true s = record s { accepting = s.accepting - 1; conns = s.conns ++ false ∷ [] }
accept_done false s = record s { accepting = s.accepting - 1; counter = decrement s.counter }

-- the swap of the flag of a connection: whether it was open, and the flags
unfoldable pub close_flag : ℕ → List Bool → Bool × List Bool
close_flag i [] = (false, [])
close_flag zero (closed ∷ cs) = (not closed, true ∷ cs)
close_flag (suc i) (closed ∷ cs) = let (won, cs') = close_flag i cs in (won, closed ∷ cs')

-- `limitConn.Close`
unfoldable pub close_conn : ℕ → Limiter → Limiter
unfolding decrement
close_conn i s =
    let (won, cs) = close_flag i s.conns in
    if won then record s { conns = cs; counter = decrement s.counter } else s

-- `limitListener.Close`: the error of a second call, and the state
unfoldable pub close_listener : ℕ → Limiter → Bool × Limiter
close_listener l s =
    if s.is_closed l
    then (true, s)
    else (false, record s { is_closed = λ k. k == l || s.is_closed k })

pub data Event : Type 0 where
  accept_rounds close_listeners close_conns : ℕ → Event
  accept_answers : Bool → Event

-- An answer of the underlying listener comes only while a call waits for it.
unfoldable pub step : Limiter → Event → Limiter
unfolding accept_round accept_done close_conn close_listener
step s (accept_rounds l) = (accept_round l s).1
step s (close_listeners l) = (close_listener l s).1
step s (close_conns i) = close_conn i s
step s (accept_answers ok) = if eqb s.accepting 0 then s else accept_done ok s

unfoldable pub run : Limiter → List Event → Limiter
run s [] = s
run s (e ∷ es) = run (step s e) es

-- The connections that are open.
abbrev pub open_conns : List Bool → ℕ
open_conns [] = 0
open_conns (true ∷ cs) = open_conns cs
open_conns (false ∷ cs) = suc (open_conns cs)
