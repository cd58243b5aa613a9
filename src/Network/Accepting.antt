-- ===== src/Network/Accepting.antt =====
-- The server base, network/include/commonserver.h: its launch, the loop that accepts connections, and
-- what it does for each error of accept. The answers of the system and of the connection pool are
-- arguments. The handlers of the base class print, so that only their calls are kept.
pub mod Serving
use mashroom.Common.{
  ℕ, not, ◌&&◌, Bool, true, false, Option, none, some, List, [], ◌∷◌, ◌++◌, if◌then◌else◌,
}

pub data Errno : Type 0 where
  eagain eintr econnaborted emfile enfile eperm ebadf enobufs enomem enotsock eopnotsupp : Errno
  eproto efault einval : Errno
  other_errno : ℕ → Errno

-- An exception of std::runtime_error, or another one, std::invalid_argument among them.
pub data Exception : Type 0 where
  runtime_error other_exception : Exception

pub data Handler : Type 0 where
  connection_aborted process_max_fd_reached system_max_fd_reached : Handler

-- `__accept_throw__`: the handlers that it calls and what it throws.
unfoldable pub accept_throw : Errno → List Handler × Option Exception
accept_throw eagain = ([], none)
accept_throw eintr = ([], none)
accept_throw econnaborted = (connection_aborted ∷ [], none)
accept_throw emfile = (process_max_fd_reached ∷ system_max_fd_reached ∷ [], none)
accept_throw enfile = (system_max_fd_reached ∷ [], none)
accept_throw eperm = ([], none)
accept_throw ebadf = ([], some runtime_error)
accept_throw enobufs = ([], some runtime_error)
accept_throw enomem = ([], some runtime_error)
accept_throw enotsock = ([], some runtime_error)
accept_throw eopnotsupp = ([], some runtime_error)
accept_throw eproto = ([], some runtime_error)
accept_throw efault = ([], some runtime_error)
accept_throw einval = ([], some other_exception)
accept_throw (other_errno n) = ([], none)

-- What ::accept answers: -1 with errno, or a descriptor.
pub data Answer : Type 0 where
  refused : Errno → Answer
  accepted : ℕ → Answer

-- An event of the socket that listens, with what accept answers, or of another descriptor.
pub data Event : Type 0 where
  own : Answer → Event
  other_event : ℕ → Event

-- One round of the loop: the accepter is interrupted, or its wait returns or throws.
pub data Round : Type 0 where
  interrupted : Round
  waits : List Event → Round
  wait_throws : Round

-- What add_connection of the pool and after_accept throw for a descriptor.
pub record Env : Type 0 where
  pub add_connection : ℕ → Option Exception
  pub after_accept : ℕ → Option Exception

pub record State : Type 0 where
  pub handled : List Handler
  pub connections : List ℕ

-- Whether the thread still runs or what it returned, and whether `accepter` is there.
pub data Ending : Type 0 where
  running : Ending
  returned : Bool → Ending

pub record Accepted : Type 0 where
  pub state : State
  pub has_accepter : Bool
  pub ending : Ending

-- `is_launched`, `configure`, which throws while the server is launched, and `launch`.
abbrev pub is_launched : Bool → Bool → Bool
is_launched is_valid has_accepter = is_valid && has_accepter

unfoldable pub configure : Bool → Bool → Option Exception
configure is_valid has_accepter =
    if not (is_launched is_valid has_accepter) then none else some runtime_error

-- Whether `launch` starts the loop with an accepter, or what it throws.
unfoldable pub launch : Bool → Bool → Bool → Bool × Option Exception
launch is_valid listens makes_accepter =
    if not is_valid
    then (false, some runtime_error)
    else if not listens
    then (false, some runtime_error)
    else if makes_accepter
    then (true, none)
    else (false, some runtime_error)

-- The inner `catch`: whether the loop over the events goes on.
abbrev pub is_caught : Option Exception → Bool
is_caught none = true
is_caught (some runtime_error) = true
is_caught (some other_exception) = false

module _ (env : Env) where
  -- The connection is in the pool when `after_accept` throws.
  abbrev pub added : ℕ → Option Exception → State → State × Bool
  added fd none s =
      (record s { connections = s.connections ++ fd ∷ [] }, is_caught (env.after_accept fd))
  added fd (some e) s = (s, is_caught (some e))

  abbrev pub take_answer : Answer → State → State × Bool
  take_answer (refused e) s =
      (record s { handled = s.handled ++ (accept_throw e).0 }, is_caught (accept_throw e).1)
  take_answer (accepted fd) s = added fd (env.add_connection fd) s

  -- `get_socket` of another descriptor, which the pool contains, changes nothing.
  abbrev pub take_event : Event → State → State × Bool
  take_event (own a) s = take_answer a s
  take_event (other_event fd) s = (s, true)

  -- The events of one wait, up to the first whose exception leaves the loop over them.
  unfoldable pub take_events : List Event → State → State × Bool
  take_events [] s = (s, true)
  take_events (e ∷ es) s =
      let next = take_event e s in
      let rest = take_events es next.0 in if next.1 then rest else (next.0, false)

  -- The thread of `accept`, over as many rounds as are given.
  unfoldable pub accept_loop : List Round → State → Accepted
  accept_loop [] s = record { state = s; has_accepter = true; ending = running }
  accept_loop (interrupted ∷ rs) s = record {
    state = s;
    has_accepter = false;
    ending = returned true;
  }
  accept_loop (wait_throws ∷ rs) s = record {
    state = s;
    has_accepter = true;
    ending = returned false;
  }
  accept_loop (waits es ∷ rs) s =
      let taken = take_events es s in
      let rest = accept_loop rs taken.0 in
      if taken.1
      then rest
      else record { state = taken.0; has_accepter = true; ending = returned false }
