-- ===== src/Network/Queue/Stopping.antt =====
-- How far the thread gets on its own, and what becomes of it when it is asked to stop.
use mathlib.Core.List.{append_assoc}
use mashroom.Common.{
  ℕ, zero, suc, ◌≤◌, ◌≡◌, ◌⊎◌, ◌↔◌, inl, refl, ap, ◌∙◌, arith, Bool, true, false, some, List, [],
  ◌∷◌, ◌++◌,
}
use mashroom.Network.Queue.{
  Process, Place, at_top, invoking, relocking, testing, asleep, woken, at_end, finished, absent,
  locked_twice, nobody, worker, stopper, Event, works, stops, proceeds, step, run, Reach, here,
  next, new,
}

abbrev pub steps : ℕ → List Event
steps zero = []
steps (suc n) = works ∷ steps n

-- Five steps for each task but the last: top, invocation, lock, wait, end of the loop.
abbrev pub steps_for : List ℕ → List Event
steps_for [] = steps 4
steps_for (task ∷ rest) = works ∷ works ∷ works ∷ works ∷ works ∷ steps_for rest

abbrev working : Process → List ℕ → Process
working s queue = record s { place = at_top; m = worker; stop_requested = false; queue = queue }

abbrev pub drained : Process → List ℕ → Process
drained s queue = record s {
  place = asleep;
  m = nobody;
  stop_requested = false;
  queue = [];
  begun = s.begun ++ queue;
}

run_drains :
    (s : Process) (task : ℕ) (rest : List ℕ)
    → run (working s (task ∷ rest)) (steps_for rest) ≡ drained s (task ∷ rest)
unfolding run step
run_drains s task [] = refl
run_drains s task (task' ∷ rest) =
    run_drains (record s { begun = s.begun ++ task ∷ [] }) task' rest
    ∙ ap (λ b. record (drained s []) { begun = b })
        (append_assoc s.begun (task ∷ []) (task' ∷ rest))

-- A thread that was woken while no one holds the mutex and no stop was requested runs every task that waits, in order, and
-- falls asleep again: three steps to the top of the loop, and five for each task but the last.
pub run-woken :
    (s : Process) (task : ℕ) (rest : List ℕ)
    → s.place ≡ woken
    → s.m ≡ nobody
    → s.stop_requested ≡ false
    → s.queue ≡ task ∷ rest
    → run s (works ∷ works ∷ works ∷ steps_for rest) ≡ drained s (task ∷ rest)
unfolding run step
run-woken s task rest p m r q = rw (p, m, r, q) (run_drains s task rest)

-- Behind the invocation of a task, up to the test of the loop.
abbrev is_past : Place → Bool
is_past (invoking task) = true
is_past relocking = true
is_past testing = true
is_past at_end = true
is_past finished = true
is_past p = false

abbrev IsLateOnce : Process → Type 0
IsLateOnce s = (s.late ≡ 0) ⊎ ((s.late ≡ 1) × (s.stop_requested ≡ true) × (is_past s.place ≡ true))

step-IsLateOnce : (s t : Process) (e : Event) → IsLateOnce s → step s e ≡ some t → IsLateOnce t
unfolding step
step-IsLateOnce s t e h q = ground arith

-- At most one task is begun after the stop was requested, whatever the interleaving.
pub late-le : (s : Process) → Reach new s → s.late ≤ 1
unfolding new
late-le s r = omega (arith, go s r)
  where
    go : (s : Process) → Reach new s → IsLateOnce s
    go s here = inl refl
    go s (next {t} r e h) = step-IsLateOnce t s e (go t r) h

asleep_stays : (s : Process) (n : ℕ) → s.place ≡ asleep → run s (steps n) ≡ s
unfolding run step
asleep_stays s zero p = refl
asleep_stays s (suc n) p = ground (arith, asleep_stays s n p)

-- From a sleeping thread, an idle mutex and no stop so far: if the thread takes its steps between
-- the notification and the request of the stop, then it falls asleep again and no step of its own
-- leads on, though the stop is requested; if it takes them afterwards, it ends.
pub stop_races :
    (s : Process) (n : ℕ)
    → s.place ≡ asleep
    → s.m ≡ nobody
    → s.stopping ≡ absent
    → s.stop_requested ≡ false
    → let missed = run s (stops false ∷ proceeds ∷ works ∷ works ∷ proceeds ∷ []) in
      let seen = run s (stops false ∷ proceeds ∷ proceeds ∷ steps 3) in
      (missed.stop_requested ≡ true)
      × (missed.place ≡ asleep)
      × (run missed (steps n) ≡ missed)
      × (seen.stop_requested ≡ true)
      × (seen.place ≡ finished)
unfolding run step
stop_races s n p m a r = rw (p, m, a, r) (refl, refl, asleep_stays _ n refl, refl, refl)

-- The places at which the thread holds the mutex.
abbrev holds : Place → Bool
holds at_top = true
holds testing = true
holds at_end = true
holds p = false

-- Who holds the mutex is where it says.
pub record IsGuarded (s : Process) : Type 0 where
  pub by_worker : (s.m ≡ worker) ↔ (holds s.place ≡ true)
  pub by_stopper : (s.m ≡ stopper) ↔ (s.stopping ≡ locked_twice)

step-IsGuarded : (s t : Process) (e : Event) → IsGuarded s → step s e ≡ some t → IsGuarded t
unfolding step
step-IsGuarded s t e h q = ground arith

Reach-IsGuarded : (s u : Process) → IsGuarded s → Reach s u → IsGuarded u
Reach-IsGuarded s u h here = h
Reach-IsGuarded s u h (next {t} r e q) = step-IsGuarded t u e (Reach-IsGuarded s t h r) q

new-IsGuarded : IsGuarded new
unfolding new
new-IsGuarded = ground arith

-- In every interleaving the thread holds the mutex exactly at the places where it tests the queue
-- or the loop, and the caller of the stop exactly where it locks it a second time; so never both.
pub mutex_guards : (s : Process) → Reach new s → IsGuarded s
mutex_guards s r = Reach-IsGuarded new s new-IsGuarded r

-- The caller of the stop is at the mutex that it holds itself, and nothing was begun since `s`.
abbrev pub IsStuck : Process → Process → Type 0
IsStuck s u =
    (u.m ≡ stopper)
    × (u.stopping ≡ locked_twice)
    × (u.begun ≡ s.begun)
    × (u.stop_requested ≡ s.stop_requested)

step-IsStuck :
    (s t u : Process) (e : Event) → IsGuarded t → IsStuck s t → step t e ≡ some u → IsStuck s u
unfolding step
step-IsStuck s t u e g h q = ground arith

Reach-IsStuck : (s t u : Process) → IsGuarded t → IsStuck s t → Reach t u → IsStuck s u
Reach-IsStuck s from u g h here = h
Reach-IsStuck s from u g h (next {t} r e q) =
    step-IsStuck s t u e (Reach-IsGuarded from t g r) (Reach-IsStuck s from t g h r) q

-- A stop that waits for the end is never over: in every state that can follow it, its caller is at
-- the mutex that it holds itself, the stop was not requested by it and no further task was begun.
pub stop_waits_forever :
    (s t u : Process) → Reach new s → step s (stops true) ≡ some t → Reach t u → IsStuck s u
unfolding step
stop_waits_forever s t u r h q =
    Reach-IsStuck s t u (step-IsGuarded s t (stops true) (mutex_guards s r) h) (ground arith) q
