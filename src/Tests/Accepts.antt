-- ===== src/Tests/Accepts.antt =====
-- Network: connections that a server accepts.
use mashroom.Common.{
  ℕ, ◌≡◌, refl, true, Option, none, some, List, [], ◌∷◌, ◌++◌, false, ◌==◌, if◌then◌else◌,
}
use mashroom.Network.Accepting.{
  econnaborted, emfile, einval, Exception, runtime_error, process_max_fd_reached,
  system_max_fd_reached, refused, accepted, own, other_event, Round, interrupted, waits, Env, State,
  running, returned, accept_throw, take_events, accept_loop,
}
use mashroom.Network.Accepting.Serving.{all_accepted, accept_loop-serves}

-- The pool refuses the descriptor 9.
abbrev refusal : ℕ → Option Exception
refusal n = if n == 9 then some runtime_error else none

abbrev pool : Env
pool = record { add_connection = refusal; after_accept = λ fd. none }

abbrev quiet : State
quiet = record { handled = []; connections = [] }

-- Two connections, one that is aborted, one that the pool refuses, and one more.
abbrev busy_rounds : List Round
busy_rounds =
    waits (own (accepted 4) ∷ own (refused econnaborted) ∷ [])
    ∷ waits []
    ∷ waits (own (accepted 9) ∷ other_event 4 ∷ own (accepted 5) ∷ [])
    ∷ []

busy_run : (accept_loop pool busy_rounds quiet).state.connections ≡ 4 ∷ 5 ∷ []
unfolding accept_loop take_events accept_throw
busy_run = refl

accept_loop-serves_example :
    ((accept_loop pool busy_rounds quiet).ending ≡ running)
    × ((accept_loop pool busy_rounds quiet).has_accepter ≡ true)
    × ((accept_loop pool busy_rounds quiet).state.connections ≡ [] ++ all_accepted pool busy_rounds)
unfolding accept_throw
accept_loop-serves_example =
    accept_loop-serves pool busy_rounds quiet
      (((refl, refl), (refl, tt)), (tt, (((refl, refl), (tt, ((refl, refl), tt))), tt)))

-- EINVAL ends the thread: the connection behind it is not accepted.
invalid_run :
    accept_loop pool (waits (own (refused einval) ∷ own (accepted 4) ∷ []) ∷ []) quiet
    ≡ record { state = quiet; has_accepter = true; ending = returned false }
unfolding accept_loop take_events accept_throw
invalid_run = refl

-- Both handlers are called for EMFILE, and an interruption takes the accepter away.
full_run : accept_loop pool (waits (own (refused emfile) ∷ []) ∷ interrupted ∷ []) quiet ≡ record {
  state = record {
    handled = process_max_fd_reached ∷ system_max_fd_reached ∷ [];
    connections = [];
  };
  has_accepter = false;
  ending = returned true;
}
unfolding accept_loop take_events accept_throw
full_run = refl
