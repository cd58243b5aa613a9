-- ===== src/Network/Pool/Sync.antt =====
-- The peers of the pool and the descriptors that are watched.
use mashroom.Common.{
  ℕ, ◌≡◌, ◌≢◌, arith, Bool, true, false, none, some, List, [], ◌∷◌, Bool-cases, inl, inr,
}
use mashroom.Network.Multiplexor.{Interest, Ctl, IsDocumented, ctl_add}
use mashroom.Network.Pool.Map.{find-erase, contains-assign, contains-without}
use mashroom.Network.Pool.{
  busy, ready, contains, Pool, add_connection, remove_connection, modify_connection, Report,
  WaitAnswer, wait_failed, found, has_hang_up, handle_event, handle_events, poll_round, Command,
  adds, removes, modifies, polls, completes, interrupts, clears, step, run,
}

abbrev pub is_watched : Interest → ℕ → Bool
is_watched i fd = elim (i fd) [ none ↦ false | some events ↦ true ]

-- The peers are exactly the descriptors that are watched.
abbrev pub IsInSync : Pool → Type 0
IsInSync p = (fd : ℕ) → contains p.peers fd ≡ is_watched p.interest fd

abbrev pub Alone : List Report → Type 0
Alone [] = Unit
Alone (e ∷ es) = (has_hang_up e.events ≡ true → e.is_shared ≡ false) × Alone es

-- Nothing fails for a peer that comes or goes, and what hangs up is not shared.
abbrev pub IsClean : Ctl → Pool → Command → Type 0
IsClean ctl p (adds fd events) = (add_connection ctl p fd events).failure ≡ none
IsClean ctl p (removes fd) = (remove_connection ctl p fd).failure ≡ none
IsClean ctl p (polls (found es)) = Alone es
IsClean ctl p c = Unit

abbrev pub IsCleanRun : Ctl → Pool → List Command → Type 0
IsCleanRun ctl p [] = Unit
IsCleanRun ctl p (c ∷ cs) = IsClean ctl p c × IsCleanRun ctl (step ctl p c).pool cs

handle_event-IsInSync :
    (p : Pool) (e : Report)
    → (has_hang_up e.events ≡ true → e.is_shared ≡ false)
    → IsInSync p
    → IsInSync (handle_event p e)
unfolding handle_event
handle_event-IsInSync p e alone h fd = elim (Bool-cases (has_hang_up e.events)) [
  | inl hangs ↦ ground (
    arith,
    hangs,
    alone hangs,
    h fd,
    find-erase p.peers e.fd fd,
    contains-assign p.peers e.fd fd busy,
  )
  | inr stays ↦
      ground (arith, stays, h fd, find-erase p.peers e.fd fd, contains-assign p.peers e.fd fd busy)
]

add_connection-IsInSync :
    (ctl : Ctl) (p : Pool) (k events : ℕ)
    → (add_connection ctl p k events).failure ≡ none
    → IsInSync p
    → IsInSync (add_connection ctl p k events).pool
unfolding add_connection
add_connection-IsInSync ctl p k events ok h fd = ground (arith, h fd)

remove_connection-IsInSync :
    (ctl : Ctl) (p : Pool) (k : ℕ)
    → (remove_connection ctl p k).failure ≡ none
    → IsInSync p
    → IsInSync (remove_connection ctl p k).pool
unfolding remove_connection
remove_connection-IsInSync ctl p k ok h fd = ground (arith, h fd, find-erase p.peers k fd)

modify_connection-IsInSync :
    (ctl : Ctl) (p : Pool) (k events : ℕ)
    → IsInSync p
    → IsInSync (modify_connection ctl p k events).pool
unfolding modify_connection
modify_connection-IsInSync ctl p k events h fd = ground (arith, h fd, h k)

handle_events-IsInSync :
    (p : Pool) (es : List Report) → Alone es → IsInSync p → IsInSync (handle_events p es)
unfolding handle_events
handle_events-IsInSync p [] alone h = h
handle_events-IsInSync p (e ∷ es) alone h =
    handle_events-IsInSync (handle_event p e) es alone.1 (handle_event-IsInSync p e alone.0 h)

poll_round-IsInSync :
    (ctl : Ctl) (p : Pool) (a : WaitAnswer)
    → IsClean ctl p (polls a)
    → IsInSync p
    → IsInSync (poll_round p a)
unfolding poll_round
poll_round-IsInSync ctl p (found es) alone h fd =
    ground (arith, h fd, handle_events-IsInSync p es alone h fd)
poll_round-IsInSync ctl p (wait_failed err) alone h fd = ground (arith, h fd)

pub step-IsInSync :
    (ctl : Ctl) (p : Pool) (c : Command)
    → IsClean ctl p c
    → IsInSync p
    → IsInSync (step ctl p c).pool
unfolding step
step-IsInSync ctl p (adds k events) clean h fd = add_connection-IsInSync ctl p k events clean h fd
step-IsInSync ctl p (removes k) clean h fd = remove_connection-IsInSync ctl p k clean h fd
step-IsInSync ctl p (modifies k events) clean h fd = modify_connection-IsInSync ctl p k events h fd
step-IsInSync ctl p (polls answer) clean h fd =
    ground (arith, h fd, poll_round-IsInSync ctl p answer clean h fd)
step-IsInSync ctl p (completes k) clean h fd =
    ground (arith, h fd, contains-assign p.peers k fd ready)
step-IsInSync ctl p interrupts clean h fd = h fd
step-IsInSync ctl p clears clean h fd = ground (arith, h fd, contains-without p.peers fd)

-- As long as no call of epoll_ctl fails for a socket that is added or removed, and no socket is shared
-- when its hang-up is reported, the peers of the pool are exactly the descriptors that are watched.
pub run-IsInSync :
    (ctl : Ctl) (p : Pool) (cs : List Command)
    → IsCleanRun ctl p cs
    → IsInSync p
    → IsInSync (run ctl p cs)
unfolding run
run-IsInSync ctl p [] clean h = h
run-IsInSync ctl p (c ∷ cs) clean h =
    run-IsInSync ctl (step ctl p c).pool cs clean.1 (step-IsInSync ctl p c clean.0 h)

-- If epoll_ctl refuses a new socket, `add_connection` throws, but the socket stays among the peers
-- and is not watched, and adding it again changes nothing and does not fail.
pub add_connection-refused :
    (ctl : Ctl) (p : Pool) (fd events again err : ℕ)
    → IsInSync p
    → contains p.peers fd ≡ false
    → ctl p.interest ctl_add fd events ≡ some err
    → let q = (add_connection ctl p fd events).pool in
      ((add_connection ctl p fd events).failure ≢ none)
      × (contains q.peers fd ≡ true)
      × (is_watched q.interest fd ≡ false)
      × (add_connection ctl q fd again ≡ record { pool = q; failure = none })
unfolding add_connection
add_connection-refused ctl p fd events again err h new refused = ground (arith, h fd)

-- A peer that hangs up while another Socket shares its descriptor is dropped but stays watched, so
-- that adding it again fails.
pub hang_up-shared :
    (ctl : Ctl) (p : Pool) (e : Report) (events : ℕ)
    → IsDocumented ctl
    → IsInSync p
    → contains p.peers e.fd ≡ true
    → e.is_shared ≡ true
    → has_hang_up e.events ≡ true
    → let q = handle_event p e in
      (contains q.peers e.fd ≡ false)
      × (is_watched q.interest e.fd ≡ true)
      × ((add_connection ctl q e.fd events).failure ≢ none)
unfolding handle_event add_connection
hang_up-shared ctl p e events d h there shared hup =
    ground (arith, h e.fd, find-erase p.peers e.fd e.fd, d.add_new p.interest e.fd events)
