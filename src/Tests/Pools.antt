-- ===== src/Tests/Pools.antt =====
-- Network: the pool of connections.
use mashroom.Common.{
  arith, ℕ, ◌==◌, ◌≡◌, refl, true, false, none, some, List, [], ◌∷◌, if◌then◌else◌,
}
use mashroom.Network.Multiplexor.{Ctl, enospc}
use mashroom.Network.Pool.{
  Pool, step, poll_round, handle_events, handle_event, add_connection, Report, found, Command, adds,
  polls, completes, run, has_hang_up,
}
use mashroom.Network.Pool.Sync.{IsInSync, run-IsInSync}
use mashroom.Network.Pool.Polling.{IsCounted, run-IsCounted}

-- An epoll_ctl that refuses descriptor 9.
abbrev ctl : Ctl
ctl i operation fd events = if fd == 9 then some enospc else none

abbrev empty_pool : Pool
empty_pool = record {
  peers = [];
  interest = λ fd. none;
  interrupted = false;
  polling = true;
  executed = [];
  ended = [];
}

-- The thread of a process shares the socket.
abbrev readable : ℕ → Report
readable fd = record { fd = fd; events = 1; is_valid = true; is_shared = true }

abbrev hung_up : ℕ → Report
hung_up fd = record { fd = fd; events = 17; is_valid = true; is_shared = false }

abbrev calls : List Command
calls =
    adds 5 1
    ∷ adds 6 1
    ∷ polls (found (readable 5 ∷ readable 6 ∷ readable 5 ∷ []))
    ∷ completes 5
    ∷ polls (found (readable 5 ∷ hung_up 6 ∷ []))
    ∷ []

empty_pool-IsInSync : IsInSync empty_pool
empty_pool-IsInSync fd = refl

run_runs : (run ctl empty_pool calls).executed ≡ 5 ∷ 6 ∷ 5 ∷ []
unfolding run step add_connection poll_round handle_events handle_event
run_runs = refl

-- No hang-up is reported.
stays : has_hang_up 1 ≡ true → true ≡ false
stays h = ground (arith, h)

run-IsInSync_example : IsInSync (run ctl empty_pool calls)
unfolding run step add_connection poll_round handle_events handle_event
run-IsInSync_example =
    run-IsInSync ctl empty_pool calls
      (refl, (refl, ((stays, (stays, (stays, tt))), (tt, ((stays, ((λ h. refl), tt)), tt)))))
      empty_pool-IsInSync

run-IsCounted_example : IsCounted (run ctl empty_pool calls)
run-IsCounted_example =
    run-IsCounted ctl empty_pool calls (record { one_entry = tt; balance = λ fd. refl })
