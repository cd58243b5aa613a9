-- ===== src/Network/Queue.antt =====
-- network/include/abstractqueuableprocess.h: the thread that runs the tasks of a queue, the threads
-- that add tasks, and one that asks it to stop, interleaved at each change of the mutex `m` and of
-- what they share. A task is a number; what it does, and the promise that it fulfils, are left out.
pub mod Order
pub mod Stopping
use mashroom.Common.{
  ℕ, zero, suc, ◌+◌, Bool, true, false, Option, none, some, List, [], ◌∷◌, ◌++◌, if◌then◌else◌, ◌≡◌,
}

-- Where the thread is in `after_execution_protected`.
pub data Place : Type 0 where
  entering : Place
  at_top : Place
  invoking : ℕ → Place
  relocking : Place
  testing : Place
  asleep : Place
  woken : Place
  at_end : Place
  finished : Place

-- Where the caller of `request_stop_protected` is; `locked_twice` is in `ready`, at the mutex that
-- it holds.
pub data Stopper : Type 0 where
  absent : Stopper
  cleared : Stopper
  notified : Stopper
  locked_twice : Stopper

pub data Owner : Type 0 where
  nobody : Owner
  worker : Owner
  stopper : Owner

-- The object, and a log: the tasks that were accepted, started and cleared, and how many were
-- started after the request to stop.
pub record Process : Type 0 where
  pub queue : List ℕ
  pub place : Place
  pub stopping : Stopper
  pub m : Owner
  pub stop_requested : Bool
  pub accepted : List ℕ
  pub begun : List ℕ
  pub dropped : List ℕ
  pub late : ℕ

pub data Event : Type 0 where
  works : Event
  enqueues : ℕ → Event
  stops : Bool → Event
  proceeds : Event
  wakes : Event

abbrev lock : Process → Place → Option Process
lock s p = elim s.m [
  | nobody ↦ some (record s { m = worker; place = p })
  | worker ↦ none
  | stopper ↦ none
]

-- if(!queue.empty()) { pop, unlock, invoke, lock }
abbrev pop_task : Process → List ℕ → Process
pop_task s [] = record s { place = testing }
pop_task s (task ∷ rest) = record s {
  queue = rest;
  m = nobody;
  place = invoking task;
  begun = s.begun ++ task ∷ [];
  late = if s.stop_requested then s.late + 1 else s.late;
}

abbrev is_empty : List ℕ → Bool
is_empty [] = true
is_empty (x ∷ xs) = false

-- cv.wait with its predicate; then while(!stop_requested).
abbrev work : Process → Place → Option Process
work s entering = lock s at_top
work s at_top = some (pop_task s s.queue)
work s (invoking task) = some (record s { place = relocking })
work s relocking = lock s testing
work s testing = some (
    if s.stop_requested
    then record s { place = at_end }
    else if is_empty s.queue
    then record s { place = asleep; m = nobody }
    else record s { place = at_end })
work s asleep = none
work s woken = lock s testing
work s at_end = some (
    if s.stop_requested
    then record s { place = finished; m = nobody }
    else record s { place = at_top })
work s finished = none

-- cv.notify_one
abbrev notify_one : Place → Place
notify_one asleep = woken
notify_one p = p

abbrev enqueue : Process → ℕ → Option Process
enqueue s task = elim s.m [
  | nobody ↦ some (record s {
    queue = s.queue ++ task ∷ [];
    place = notify_one s.place;
    accepted = s.accepted ++ task ∷ [];
  })
  | worker ↦ none
  | stopper ↦ none
]

abbrev request_stop : Process → Bool → Owner → Stopper → Option Process
request_stop s wait_finish nobody absent = some (record s {
  queue = [];
  dropped = s.dropped ++ s.queue;
  m = if wait_finish then stopper else nobody;
  stopping = if wait_finish then locked_twice else cleared;
})
request_stop s wait_finish m p = none

abbrev proceed : Process → Stopper → Option Process
proceed s absent = none
proceed s cleared = some (record s { place = notify_one s.place; stopping = notified })
proceed s notified = some (record s { stop_requested = true; stopping = absent })
proceed s locked_twice = none

-- A thread may also wake up without having been notified.
abbrev wake : Process → Place → Option Process
wake s asleep = some (record s { place = woken })
wake s p = none

-- `none`: the thread has to wait.
unfoldable pub step : Process → Event → Option Process
step s works = work s s.place
step s (enqueues task) = enqueue s task
step s (stops wait_finish) = request_stop s wait_finish s.m s.stopping
step s proceeds = proceed s s.stopping
step s wakes = wake s s.place

-- A thread that has to wait changes nothing.
unfoldable pub run : Process → List Event → Process
run s [] = s
run s (e ∷ es) = elim (step s e) [ none ↦ run s es | some t ↦ run t es ]

pub data Reach (s : Process) : Process → Type 0 where
  here : Reach s s
  next : {t u : Process} → Reach s t → (e : Event) → step t e ≡ some u → Reach s u

unfoldable pub new : Process
new = record {
  queue = [];
  place = entering;
  stopping = absent;
  m = nobody;
  stop_requested = false;
  accepted = [];
  begun = [];
  dropped = [];
  late = 0;
}
