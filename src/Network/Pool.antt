-- ===== src/Network/Pool.antt =====
-- network/include/abstractconnectionpool.h: the sockets of a server with their processes, and the
-- thread that polls them. A socket is its descriptor, by which the map finds it. The state of a
-- process is what `ready` says of it; the logs list the descriptors for which processes
-- were executed, and those for which one ended that was executing: by itself, or since it was taken
-- out of the map, where its thread is joined.
pub mod Map
pub mod Sync
pub mod Polling
use mashroom.Common.{
  ℕ, ◌+◌, ◌/◌, ◌%◌, ◌==◌, ◌≡◌, Bool, true, false, not, ◌&&◌, ◌||◌, Option, none, some, List, [],
  ◌∷◌, ◌++◌, if◌then◌else◌,
}
use mashroom.Network.Multiplexor.{Failure, epoll_wait_throw, Interest, Ctl, watch, Result}
use mashroom.Network.Multiplexor

pub data Slot : Type 0 where
  no_process : Slot
  busy : Slot
  ready : Slot

abbrev pub Peers : Type 0
Peers = List (ℕ × Slot)

abbrev pub find : Peers → ℕ → Option Slot
find [] fd = none
find ((k, s) ∷ peers) fd = if k == fd then some s else find peers fd

abbrev pub contains : Peers → ℕ → Bool
contains peers fd = elim (find peers fd) [ none ↦ false | some s ↦ true ]

abbrev pub erase : Peers → ℕ → Peers
erase [] fd = []
erase ((k, s) ∷ peers) fd = let rest = erase peers fd in if k == fd then rest else (k, s) ∷ rest

abbrev pub assign : Peers → ℕ → Slot → Peers
assign [] fd t = []
assign ((k, s) ∷ peers) fd t = (k, if k == fd then t else s) ∷ assign peers fd t

pub record Pool : Type 0 where
  pub peers : Peers
  pub interest : Interest
  pub interrupted : Bool
  pub polling : Bool
  pub executed : List ℕ
  pub ended : List ℕ

-- An exception of the multiplexor, or the pool's own.
pub data Fault : Type 0 where
  multiplexor_failed : Failure → Fault
  not_contained : Fault

pub record Called : Type 0 where
  pub pool : Pool
  pub failure : Option Fault

abbrev to_fault : Option Failure → Option Fault
to_fault none = none
to_fault (some f) = some (multiplexor_failed f)

abbrev done : Pool → Called
done p = record { pool = p; failure = none }

-- The result of a call of the multiplexor that comes last.
abbrev finish : Pool → Result → Called
finish p r = record { pool = record p { interest = r.interest }; failure = to_fault r.failure }

unfoldable pub add_connection : Ctl → Pool → ℕ → ℕ → Called
add_connection ctl p fd events =
    if contains p.peers fd
    then done p
    else finish (record p { peers = (fd, no_process) ∷ p.peers })
        (Multiplexor.add ctl p.interest fd events)

-- The process that is destroyed with its peer.
abbrev pub joined : ℕ → Option Slot → List ℕ
joined fd (some busy) = fd ∷ []
joined fd s = []

abbrev erase_peer : Pool → ℕ → Pool
erase_peer p fd = record p {
  peers = erase p.peers fd;
  ended = p.ended ++ joined fd (find p.peers fd);
}

unfoldable pub remove_connection : Ctl → Pool → ℕ → Called
remove_connection ctl p fd = finish (erase_peer p fd) (Multiplexor.remove ctl p.interest fd)

unfoldable pub modify_connection : Ctl → Pool → ℕ → ℕ → Called
modify_connection ctl p fd events =
    if contains p.peers fd
    then finish p (Multiplexor.modify ctl p.interest fd events)
    else record { pool = p; failure = some not_contained }

-- What epoll_wait reports, whether the socket has no error then, and whether another Socket shares
-- the descriptor: if none does, it is closed with the peer, and epoll stops watching it.
pub record Report : Type 0 where
  pub fd : ℕ
  pub events : ℕ
  pub is_valid : Bool
  pub is_shared : Bool

pub data WaitAnswer : Type 0 where
  wait_failed : ℕ → WaitAnswer
  found : List Report → WaitAnswer

-- events & Event::HangUp, which is 16.
abbrev pub has_hang_up : ℕ → Bool
has_hang_up events = events / 16 % 2 == 1

abbrev pub hang_up : Pool → Report → Pool
hang_up p e = record (erase_peer p e.fd) {
  interest = if e.is_shared then p.interest else watch p.interest e.fd none;
}

-- !found->second || found->second->ready()
abbrev pub can_start : Slot → Bool
can_start no_process = true
can_start busy = false
can_start ready = true

abbrev pub start : Pool → ℕ → Pool
start p fd = record p { peers = assign p.peers fd busy; executed = p.executed ++ fd ∷ [] }

unfoldable pub handle_event : Pool → Report → Pool
handle_event p e = elim (find p.peers e.fd) [
  | none ↦ p
  | some slot ↦
      if has_hang_up e.events
      then hang_up p e
      else if e.is_valid && can_start slot
      then start p e.fd
      else p
]

unfoldable pub handle_events : Pool → List Report → Pool
handle_events p [] = p
handle_events p (e ∷ es) = handle_events (handle_event p e) es

abbrev stop_polling : Pool → Pool
stop_polling p = record p { polling = false }

-- One round of the polling thread.
unfoldable pub poll_round : Pool → WaitAnswer → Pool
poll_round p (found es) = if p.interrupted then stop_polling p else handle_events p es
poll_round p (wait_failed err) = elim (epoll_wait_throw err) [
  | some f ↦ stop_polling p
  | none ↦ if p.interrupted then stop_polling p else p
]

abbrev without_processes : Peers → Peers
without_processes [] = []
without_processes ((k, s) ∷ peers) = (k, no_process) ∷ without_processes peers

abbrev pub executing : Peers → List ℕ
executing [] = []
executing ((k, s) ∷ peers) = joined k (some s) ++ executing peers

pub data Command : Type 0 where
  adds : ℕ → ℕ → Command
  removes : ℕ → Command
  modifies : ℕ → ℕ → Command
  polls : WaitAnswer → Command
  completes : ℕ → Command
  interrupts : Command
  clears : Command

abbrev pub complete : Pool → ℕ → Option Slot → Pool
complete p fd (some busy) = record p { peers = assign p.peers fd ready; ended = p.ended ++ fd ∷ [] }
complete p fd s = p

-- `stop` is `interrupts` and, when the polling thread has ended, `clears`, which takes the processes
-- out of the map.
unfoldable pub step : Ctl → Pool → Command → Called
step ctl p (adds fd events) = add_connection ctl p fd events
step ctl p (removes fd) = remove_connection ctl p fd
step ctl p (modifies fd events) = modify_connection ctl p fd events
step ctl p (polls answer) = done (if p.polling then poll_round p answer else p)
step ctl p (completes fd) = done (complete p fd (find p.peers fd))
step ctl p interrupts = done (record p { interrupted = true })
step ctl p clears = done (
    if p.polling
    then p
    else record p { peers = without_processes p.peers; ended = p.ended ++ executing p.peers })

unfoldable pub run : Ctl → Pool → List Command → Pool
run ctl p [] = p
run ctl p (c ∷ cs) = run ctl (step ctl p c).pool cs
