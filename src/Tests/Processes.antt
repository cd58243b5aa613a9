-- ===== src/Tests/Processes.antt =====
-- Network: the thread of a queue of tasks.
use mashroom.Common.{◌≡◌, refl, false, [], ◌∷◌}
use mashroom.Network.Queue.{
  Process, works, enqueues, stops, proceeds, step, run, Reach, here, next, new,
}
use mashroom.Network.Queue.Order.{IsInOrder, Reach-IsInOrder}
use mashroom.Network.Queue.Stopping.{steps, steps_for, drained, run-woken}

abbrev two_tasks : Process
two_tasks = run new (enqueues 7 ∷ enqueues 8 ∷ [])

abbrev idle : Process
idle = run new (steps 3)

two_tasks-Reach : Reach new two_tasks
unfolding run step new
two_tasks-Reach = next (next here (enqueues 7) refl) (enqueues 8) refl

Reach-IsInOrder_example : IsInOrder two_tasks
Reach-IsInOrder_example = Reach-IsInOrder two_tasks two_tasks-Reach

-- A task is begun after the stop was requested.
late_runs : (run new (stops false ∷ enqueues 7 ∷ proceeds ∷ proceeds ∷ works ∷ works ∷ [])).late ≡ 1
unfolding run step new
late_runs = refl

abbrev alarmed : Process
alarmed = run idle (enqueues 7 ∷ enqueues 8 ∷ [])

run-woken_example :
    run alarmed (works ∷ works ∷ works ∷ steps_for (8 ∷ [])) ≡ drained alarmed (7 ∷ 8 ∷ [])
unfolding run step new
run-woken_example = run-woken alarmed 7 (8 ∷ []) refl refl refl refl
