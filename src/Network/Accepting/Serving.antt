-- ===== src/Network/Accepting/Serving.antt =====
-- What the accepting thread does with the connections, and what it leaves.
use mathlib.Core.List.{append_assoc, append-nil}
use mashroom.Common.{
  ℕ, ◌≡◌, refl, ap, sym, ◌∙◌, arith, true, false, Option, none, some, List, [], ◌∷◌, ◌++◌,
  Bool-cases, inl, inr,
}
use mashroom.Network.Accepting.{
  Exception, runtime_error, refused, accepted, Event, own, other_event, Round, interrupted, waits,
  wait_throws, Env, State, running, returned, accept_throw, is_caught, configure, added, take_event,
  take_events, accept_loop,
}

module _ (env : Env) where
  -- An event after which the loop goes on: accept does not fail with EINVAL, and nothing but a
  -- std::runtime_error leaves add_connection and after_accept.
  abbrev pub IsMild : Event → Type 0
  IsMild (own (refused e)) = is_caught (accept_throw e).1 ≡ true
  IsMild (own (accepted fd)) =
      (is_caught (env.add_connection fd) ≡ true) × (is_caught (env.after_accept fd) ≡ true)
  IsMild (other_event fd) = Unit

  abbrev pub AllMild : List Event → Type 0
  AllMild [] = Unit
  AllMild (e ∷ es) = IsMild e × AllMild es

  abbrev pub MildRounds : List Round → Type 0
  MildRounds [] = Unit
  MildRounds (interrupted ∷ rs) = ⊥
  MildRounds (wait_throws ∷ rs) = ⊥
  MildRounds (waits es ∷ rs) = AllMild es × MildRounds rs

  -- The descriptors that are accepted and that the pool takes, in the order of the events.
  abbrev pub taken_by_pool : ℕ → Option Exception → List ℕ
  taken_by_pool fd none = fd ∷ []
  taken_by_pool fd (some x) = []

  abbrev pub connection_of : Event → List ℕ
  connection_of (own (refused e)) = []
  connection_of (own (accepted fd)) = taken_by_pool fd (env.add_connection fd)
  connection_of (other_event fd) = []

  abbrev pub accepted_of : List Event → List ℕ
  accepted_of [] = []
  accepted_of (e ∷ es) = connection_of e ++ accepted_of es

  abbrev pub all_accepted : List Round → List ℕ
  all_accepted [] = []
  all_accepted (interrupted ∷ rs) = all_accepted rs
  all_accepted (wait_throws ∷ rs) = all_accepted rs
  all_accepted (waits es ∷ rs) = accepted_of es ++ all_accepted rs

  added-caught :
      (fd : ℕ) (o : Option Exception) (s : State)
      → is_caught o ≡ true
      → is_caught (env.after_accept fd) ≡ true
      → ((added env fd o s).1 ≡ true)
        × ((added env fd o s).0.connections ≡ s.connections ++ taken_by_pool fd o)
  added-caught fd none s caught also = (also, refl)
  added-caught fd (some x) s caught also = (caught, sym (append-nil s.connections))

  take_event-mild :
      (e : Event) (s : State)
      → IsMild e
      → ((take_event env e s).1 ≡ true)
        × ((take_event env e s).0.connections ≡ s.connections ++ connection_of e)
  take_event-mild (own (refused x)) s mild = (mild, sym (append-nil s.connections))
  take_event-mild (own (accepted fd)) s (caught, also) =
      added-caught fd (env.add_connection fd) s caught also
  take_event-mild (other_event fd) s mild = (refl, sym (append-nil s.connections))

  take_events-mild :
      (es : List Event) (s : State)
      → AllMild es
      → ((take_events env es s).1 ≡ true)
        × ((take_events env es s).0.connections ≡ s.connections ++ accepted_of es)
  unfolding take_events
  take_events-mild [] s mild = (refl, sym (append-nil s.connections))
  take_events-mild (e ∷ es) s (mild, all) =
      let (on, one) = take_event-mild e s mild in
      let (through, rest) = take_events-mild es (take_event env e s).0 all in
      rw on (
        through,
        rest
            ∙ ap (λ c. c ++ accepted_of es) one
            ∙ append_assoc s.connections (connection_of e) (accepted_of es),
      )

  -- While no round is interrupted, no wait throws and every event is mild, the accepting thread runs on with its
  -- accepter, and the pool has got exactly the connections that were accepted and that it took, in
  -- the order of the events.
  pub accept_loop-serves :
      (rs : List Round) (s : State)
      → MildRounds rs
      → ((accept_loop env rs s).ending ≡ running)
        × ((accept_loop env rs s).has_accepter ≡ true)
        × ((accept_loop env rs s).state.connections ≡ s.connections ++ all_accepted rs)
  unfolding accept_loop
  accept_loop-serves [] s mild = (refl, refl, sym (append-nil s.connections))
  accept_loop-serves (interrupted ∷ rs) s mild = elim mild [ ]
  accept_loop-serves (wait_throws ∷ rs) s mild = elim mild [ ]
  accept_loop-serves (waits es ∷ rs) s (mild, all) =
      let (on, these) = take_events-mild es s mild in
      let (runs, has, rest) = accept_loop-serves rs (take_events env es s).0 all in
      rw on (
        runs,
        has,
        rest
            ∙ ap (λ c. c ++ all_accepted rs) these
            ∙ append_assoc s.connections (accepted_of es) (all_accepted rs),
      )

  -- The accepter is given up only by an interruption, so that a server whose thread has returned
  -- `false` still counts as launched and cannot be configured.
  pub accept_loop-stays :
      (rs : List Round) (s : State)
      → (accept_loop env rs s).ending ≡ returned false
      → configure true (accept_loop env rs s).has_accepter ≡ some runtime_error
  unfolding accept_loop configure
  accept_loop-stays [] s ended = refl
  accept_loop-stays (interrupted ∷ rs) s ended = ground (arith, ended)
  accept_loop-stays (wait_throws ∷ rs) s ended = refl
  accept_loop-stays (waits es ∷ rs) s ended = elim (Bool-cases (take_events env es s).1) [
    | inl on ↦ rw on (accept_loop-stays rs (take_events env es s).0 (rw on at ended))
    | inr off ↦ rw off refl
  ]
