-- ===== src/Network/Multiplexor.antt =====
-- network/src/multiplexor.cpp: the set of descriptors that epoll watches, and the exceptions that
-- its errors become. `ctl` stands for the system's epoll_ctl: the errno, or none for success. The
-- set is what the successful calls made of it.
use mashroom.Common.{ℕ, ◌==◌, ◌≡◌, ◌||◌, Option, none, some, if◌then◌else◌}

-- The exception, with the errno whose text it carries.
pub data Failure : Type 0 where
  runtime_error : ℕ → Failure
  invalid_argument : ℕ → Failure
  logic_error : ℕ → Failure

abbrev pub eperm : ℕ
eperm = 1

abbrev pub enoent : ℕ
enoent = 2

abbrev pub eintr : ℕ
eintr = 4

abbrev pub ebadf : ℕ
ebadf = 9

abbrev pub enomem : ℕ
enomem = 12

abbrev pub efault : ℕ
efault = 14

abbrev pub eexist : ℕ
eexist = 17

abbrev pub einval : ℕ
einval = 22

abbrev pub enospc : ℕ
enospc = 28

abbrev pub eloop : ℕ
eloop = 40

abbrev pub epoll_ctl_throw : ℕ → Failure
epoll_ctl_throw err =
    if (err == eperm) || (err == enomem) || (err == ebadf)
    then runtime_error err
    else if (err == eexist) || (err == einval) || (err == enoent)
    then invalid_argument err
    else if (err == eloop) || (err == enospc)
    then logic_error err
    else runtime_error err

-- An interrupted wait is no failure.
abbrev pub epoll_wait_throw : ℕ → Option Failure
epoll_wait_throw err =
    if (err == ebadf) || (err == efault)
    then some (runtime_error err)
    else if err == eintr
    then none
    else if err == einval
    then some (invalid_argument err)
    else some (runtime_error err)

-- The events that are watched for, for each descriptor that is watched.
abbrev pub Interest : Type 0
Interest = ℕ → Option ℕ

pub data Operation : Type 0 where
  ctl_add : Operation
  ctl_del : Operation
  ctl_mod : Operation

abbrev pub Ctl : Type 0
Ctl = Interest → Operation → ℕ → ℕ → Option ℕ

-- epoll_ctl(2): only a descriptor that is not watched can be added.
pub record IsDocumented (ctl : Ctl) : Type 0 where
  pub add_new : (i : Interest) (fd events : ℕ) → ctl i ctl_add fd events ≡ none → i fd ≡ none

abbrev pub watch : Interest → ℕ → Option ℕ → Interest
watch i fd events other = if other == fd then events else i other

pub record Result : Type 0 where
  pub interest : Interest
  pub failure : Option Failure

abbrev checked : Interest → Interest → Option ℕ → Result
checked before after none = record { interest = after; failure = none }
checked before after (some err) = record { interest = before; failure = some (epoll_ctl_throw err) }

abbrev pub add : Ctl → Interest → ℕ → ℕ → Result
add ctl i fd events = checked i (watch i fd (some events)) (ctl i ctl_add fd events)

abbrev pub remove : Ctl → Interest → ℕ → Result
remove ctl i fd = checked i (watch i fd none) (ctl i ctl_del fd 0)

abbrev pub modify : Ctl → Interest → ℕ → ℕ → Result
modify ctl i fd events = checked i (watch i fd (some events)) (ctl i ctl_mod fd events)
