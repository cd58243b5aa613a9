-- ===== src/Network/Pool/Polling.antt =====
-- The processes of the peers: which are executing, and the end of the polling thread.
use mashroom.Common.{
  ℕ, ◌+◌, ◌==◌, ◌≡◌, inl, inr, refl, ◌∙◌, arith, Bool, true, false, Option, none, some, List, [],
  ◌∷◌, ◌++◌, if◌then◌else◌, Bool-cases,
}
use mashroom.Network.Multiplexor.{Ctl}
use mashroom.Network.Pool.Map.{
  IsMap, find-erase, find-assign, erase-IsMap, assign-IsMap, without-IsMap,
}
use mashroom.Network.Pool.{
  Slot, busy, ready, Peers, find, erase, joined, executing, Pool, add_connection, remove_connection,
  modify_connection, Report, WaitAnswer, wait_failed, found, handle_event, handle_events,
  poll_round, without_processes, Command, adds, removes, modifies, polls, completes, interrupts,
  clears, complete, step, run,
}

abbrev pub count : ℕ → List ℕ → ℕ
count fd [] = 0
count fd (x ∷ xs) = (if x == fd then 1 else 0) + count fd xs

count-append : (fd : ℕ) (xs ys : List ℕ) → count fd (xs ++ ys) ≡ count fd xs + count fd ys
count-append fd [] ys = omega arith
count-append fd (x ∷ xs) ys = omega (arith, count-append fd xs ys)

-- 1 for a peer whose process is executing.
abbrev pub is_executing : Option Slot → ℕ
is_executing (some busy) = 1
is_executing s = 0

-- For every descriptor, as many processes were executed as ended, and one more if one is executing.
pub record IsCounted (p : Pool) : Type 0 where
  pub one_entry : IsMap p.peers
  pub balance : (fd : ℕ) → count fd p.executed ≡ count fd p.ended + is_executing (find p.peers fd)

find-without : (peers : Peers) (fd : ℕ) → is_executing (find (without_processes peers) fd) ≡ 0
find-without [] fd = refl
find-without ((j, s) ∷ peers) fd = ground (arith, find-without peers fd)

count-joined :
    (k fd : ℕ) (s : Option Slot) → count fd (joined k s) ≡ (if k == fd then is_executing s else 0)
count-joined k fd none = ground arith
count-joined k fd (some s) = ground arith

count-executing :
    (peers : Peers) (fd : ℕ)
    → IsMap peers
    → count fd (executing peers) ≡ is_executing (find peers fd)
count-executing [] fd m = refl
count-executing ((j, s) ∷ peers) fd m = ground (
  arith,
  m.0,
  count-append fd (joined j (some s)) (executing peers),
  count-joined j fd (some s),
  count-executing peers fd m.1,
)

erase-balance :
    (p : Pool) (k fd : ℕ)
    → IsCounted p
    → count fd p.executed
      ≡ count fd (p.ended ++ joined k (find p.peers k)) + is_executing (find (erase p.peers k) fd)
erase-balance p k fd h = grind (
  arith,
  h.balance fd,
  count-append fd p.ended (joined k (find p.peers k)),
  count-joined k fd (find p.peers k),
  find-erase p.peers k fd,
)

add_connection-IsCounted :
    (ctl : Ctl) (p : Pool) (k events : ℕ)
    → IsCounted p
    → IsCounted (add_connection ctl p k events).pool
unfolding add_connection
add_connection-IsCounted ctl p k events h = record {
  one_entry = ground (arith, h.one_entry);
  balance = λ fd. ground (arith, h.balance fd);
}

remove_connection-IsCounted :
    (ctl : Ctl) (p : Pool) (k : ℕ) → IsCounted p → IsCounted (remove_connection ctl p k).pool
unfolding remove_connection
remove_connection-IsCounted ctl p k h = record {
  one_entry = erase-IsMap p.peers k h.one_entry;
  balance = λ fd. erase-balance p k fd h;
}

modify_connection-IsCounted :
    (ctl : Ctl) (p : Pool) (k events : ℕ)
    → IsCounted p
    → IsCounted (modify_connection ctl p k events).pool
unfolding modify_connection
modify_connection-IsCounted ctl p k events h = record {
  one_entry = ground (arith, h.one_entry);
  balance = λ fd. ground (arith, h.balance fd);
}

handle_event-IsCounted : (p : Pool) (e : Report) → IsCounted p → IsCounted (handle_event p e)
unfolding handle_event
handle_event-IsCounted p e h = record {
  one_entry = ground (
    arith,
    h.one_entry,
    erase-IsMap p.peers e.fd h.one_entry,
    assign-IsMap p.peers e.fd busy h.one_entry,
  );
  balance = λ fd. ground (
    arith,
    h.balance fd,
    erase-balance p e.fd fd h,
    find-assign p.peers e.fd fd busy,
    count-append fd p.executed (e.fd ∷ []),
  );
}

handle_events-IsCounted :
    (p : Pool) (es : List Report) → IsCounted p → IsCounted (handle_events p es)
unfolding handle_events
handle_events-IsCounted p [] h = h
handle_events-IsCounted p (e ∷ es) h =
    handle_events-IsCounted (handle_event p e) es (handle_event-IsCounted p e h)

either-IsCounted :
    (b : Bool) (p q : Pool) → IsCounted p → IsCounted q → IsCounted (if b then p else q)
either-IsCounted true p q hp hq = hp
either-IsCounted false p q hp hq = hq

poll_round-IsCounted : (p : Pool) (a : WaitAnswer) → IsCounted p → IsCounted (poll_round p a)
unfolding poll_round
poll_round-IsCounted p (found es) h =
    either-IsCounted p.interrupted _ _ (record { one_entry = h.one_entry; balance = h.balance })
      (handle_events-IsCounted p es h)
poll_round-IsCounted p (wait_failed err) h = record {
  one_entry = ground (arith, h.one_entry);
  balance = λ fd. ground (arith, h.balance fd);
}

complete-IsCounted : (p : Pool) (k : ℕ) → IsCounted p → IsCounted (complete p k (find p.peers k))
complete-IsCounted p k h = record {
  one_entry = ground (arith, h.one_entry, assign-IsMap p.peers k ready h.one_entry);
  balance = λ fd.
      ground
        (arith, h.balance fd, find-assign p.peers k fd ready, count-append fd p.ended (k ∷ []));
}

clear-IsCounted :
    (p : Pool)
    → IsCounted p
    → IsCounted
        (record p { peers = without_processes p.peers; ended = p.ended ++ executing p.peers })
clear-IsCounted p h = record {
  one_entry = without-IsMap p.peers h.one_entry;
  balance = λ fd. omega (
    arith,
    h.balance fd,
    count-append fd p.ended (executing p.peers),
    count-executing p.peers fd h.one_entry,
    find-without p.peers fd,
  );
}

step-IsCounted : (ctl : Ctl) (p : Pool) (c : Command) → IsCounted p → IsCounted (step ctl p c).pool
unfolding step
step-IsCounted ctl p (adds fd events) h = add_connection-IsCounted ctl p fd events h
step-IsCounted ctl p (removes fd) h = remove_connection-IsCounted ctl p fd h
step-IsCounted ctl p (modifies fd events) h = modify_connection-IsCounted ctl p fd events h
step-IsCounted ctl p (polls answer) h =
    either-IsCounted p.polling _ _ (poll_round-IsCounted p answer h) h
step-IsCounted ctl p (completes fd) h = complete-IsCounted p fd h
step-IsCounted ctl p interrupts h = record { one_entry = h.one_entry; balance = h.balance }
step-IsCounted ctl p clears h = either-IsCounted p.polling _ _ h (clear-IsCounted p h)

-- Through any sequence of calls, reports and ends of processes, every socket has at most one entry,
-- and for every descriptor as many processes were executed as ended, and one more if its entry is
-- executing one: so never two at a time.
pub run-IsCounted :
    (ctl : Ctl) (p : Pool) (cs : List Command) → IsCounted p → IsCounted (run ctl p cs)
unfolding run
run-IsCounted ctl p [] h = h
run-IsCounted ctl p (c ∷ cs) h = run-IsCounted ctl (step ctl p c).pool cs (step-IsCounted ctl p c h)

step_when_stopped :
    (ctl : Ctl) (p : Pool) (c : Command)
    → p.polling ≡ false
    → ((step ctl p c).pool.polling ≡ false) × ((step ctl p c).pool.executed ≡ p.executed)
unfolding step add_connection remove_connection modify_connection
step_when_stopped ctl p c off = ground arith

run_when_stopped :
    (ctl : Ctl) (p : Pool) (cs : List Command)
    → p.polling ≡ false
    → (run ctl p cs).executed ≡ p.executed
unfolding run
run_when_stopped ctl p [] off = refl
run_when_stopped ctl p (c ∷ cs) off =
    let (still, same) = step_when_stopped ctl p c off in
    run_when_stopped ctl (step ctl p c).pool cs still ∙ same

stopped_at :
    (ctl : Ctl) (p : Pool) (answer : WaitAnswer)
    → run ctl p (interrupts ∷ polls answer ∷ clears ∷ []) ≡ record p {
      interrupted = true;
      polling = false;
      peers = without_processes p.peers;
      ended = p.ended ++ executing p.peers;
    }
unfolding run step poll_round
stopped_at ctl p answer = elim (Bool-cases p.polling) [
  | inl e ↦ ground arith
  | inr e ↦ ground arith
]

-- After `stop` has set the interrupt, the next round ends the polling whatever epoll_wait answers;
-- then no process is left in the map, and whatever happens after, none is executed.
pub run-stop :
    (ctl : Ctl) (p : Pool) (answer : WaitAnswer) (cs : List Command) (fd : ℕ)
    → let q = run ctl p (interrupts ∷ polls answer ∷ clears ∷ []) in
      (q.polling ≡ false)
      × (is_executing (find q.peers fd) ≡ 0)
      × ((run ctl q cs).executed ≡ p.executed)
run-stop ctl p answer cs fd =
    rw (stopped_at ctl p answer) (refl, find-without p.peers fd, run_when_stopped ctl _ cs refl)
