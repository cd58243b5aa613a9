-- ===== src/Network/Queue/Order.antt =====
-- The order in which the tasks of the queue are run.
use mathlib.Core.List.{Sublist, append_assoc}
use mathlib.Core.List.Sublist
use mashroom.Common.{
  ℕ, ◌+◌, ◌≡◌, refl, sym, ap, subst, ◌∙◌, arith, some, List, [], ◌∷◌, ◌++◌, length, length-append,
}
use mashroom.Network.Queue.{
  Process, Place, at_top, Event, works, enqueues, stops, proceeds, wakes, pop_task, work, step,
  Reach, here, next, new,
}

-- The tasks that were begun or still wait, in the order in which they were accepted; they are all
-- of them unless some were cleared.
pub record IsInOrder (s : Process) : Type 0 where
  pub kept : Sublist (s.begun ++ s.queue) s.accepted
  pub all : s.dropped ≡ [] → s.begun ++ s.queue ≡ s.accepted
  pub counted : length s.accepted ≡ length s.begun + length s.queue + length s.dropped

nil-Sublist : (ys : List ℕ) → Sublist [] ys
nil-Sublist [] = Sublist.refl []
nil-Sublist (y ∷ ys) = Sublist.cons y (nil-Sublist ys)

Sublist-left : (xs ys zs : List ℕ) → Sublist (xs ++ ys) zs → Sublist (xs ++ []) zs
Sublist-left xs ys zs h = Sublist.trans (Sublist.append (Sublist.refl xs) (nil-Sublist ys)) h

append_empty : (xs ys : List ℕ) → xs ++ ys ≡ [] → (xs ≡ []) × (ys ≡ [])
append_empty [] ys e = (refl, e)
append_empty (x ∷ xs) ys e = ground arith

enqueued-IsInOrder :
    (s t : Process) (task : ℕ)
    → IsInOrder s
    → t.queue ≡ s.queue ++ task ∷ []
    → t.accepted ≡ s.accepted ++ task ∷ []
    → t.begun ≡ s.begun
    → t.dropped ≡ s.dropped
    → IsInOrder t
enqueued-IsInOrder s t task h q a b d = record {
  kept = rw (q, a, b, ← append_assoc) (Sublist.append h.kept (Sublist.refl (task ∷ [])));
  all = λ e. rw (q, a, b, ← append_assoc) (ap (λ l. l ++ task ∷ []) (h.all (sym d ∙ e)));
  counted =
      rw (q, a, b, d)
        (omega (
          arith,
          h.counted,
          length-append s.accepted (task ∷ []),
          length-append s.queue (task ∷ []),
        ));
}

cleared-IsInOrder :
    (s t : Process)
    → IsInOrder s
    → t.queue ≡ []
    → t.accepted ≡ s.accepted
    → t.begun ≡ s.begun
    → t.dropped ≡ s.dropped ++ s.queue
    → IsInOrder t
cleared-IsInOrder s t h q a b d = record {
  kept = rw (q, a, b) (Sublist-left s.begun s.queue s.accepted h.kept);
  all = λ e.
      let (no_dropped, no_queue) = append_empty s.dropped s.queue (sym d ∙ e) in
      rw (q, a, b, ← no_queue) (h.all no_dropped);
  counted = rw (q, a, b, d) (omega (arith, h.counted, length-append s.dropped s.queue));
}

pop_task-IsInOrder :
    (s : Process) (queue : List ℕ) → s.queue ≡ queue → IsInOrder s → IsInOrder (pop_task s queue)
pop_task-IsInOrder s [] e h = record { kept = h.kept; all = h.all; counted = h.counted }
pop_task-IsInOrder s (task ∷ rest) e h = record {
  kept = rw append_assoc (rw e at h.kept);
  all = λ d. append_assoc s.begun (task ∷ []) rest ∙ (rw e at (h.all d));
  counted = omega (arith, h.counted, ap length e, length-append s.begun (task ∷ []));
}

-- What no step but those two changes.
same-IsInOrder :
    (s t : Process)
    → IsInOrder s
    → t.queue ≡ s.queue
    → t.accepted ≡ s.accepted
    → t.begun ≡ s.begun
    → t.dropped ≡ s.dropped
    → IsInOrder t
same-IsInOrder s t h q a b d = record {
  kept = rw (q, a, b) h.kept;
  all = λ e. rw (q, a, b) (h.all (sym d ∙ e));
  counted = rw (q, a, b, d) h.counted;
}

work-IsInOrder : (s t : Process) (p : Place) → IsInOrder s → work s p ≡ some t → IsInOrder t
work-IsInOrder s t at_top h e = subst IsInOrder (ground arith) (pop_task-IsInOrder s s.queue refl h)
work-IsInOrder s t p h e =
    same-IsInOrder s t h (ground arith) (ground arith) (ground arith) (ground arith)

pub step-IsInOrder : (s t : Process) (e : Event) → IsInOrder s → step s e ≡ some t → IsInOrder t
unfolding step
step-IsInOrder s t works h e = work-IsInOrder s t s.place h e
step-IsInOrder s t (enqueues task) h e =
    enqueued-IsInOrder s t task h (ground arith) (ground arith) (ground arith) (ground arith)
step-IsInOrder s t (stops wait_finish) h e =
    cleared-IsInOrder s t h (ground arith) (ground arith) (ground arith) (ground arith)
step-IsInOrder s t proceeds h e =
    same-IsInOrder s t h (ground arith) (ground arith) (ground arith) (ground arith)
step-IsInOrder s t wakes h e =
    same-IsInOrder s t h (ground arith) (ground arith) (ground arith) (ground arith)

-- In every interleaving the tasks are begun in the order in which they were accepted, each at most
-- once; those that wait come behind those that were begun, and none is lost as long as none were
-- cleared.
pub Reach-IsInOrder : (s : Process) → Reach new s → IsInOrder s
unfolding new
Reach-IsInOrder s here = record { kept = Sublist.refl []; all = λ e. refl; counted = omega arith }
Reach-IsInOrder s (next {t} r e h) = step-IsInOrder t s e (Reach-IsInOrder t r) h
