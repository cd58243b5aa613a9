-- ===== src/Network/Socket/Lifetime.antt =====
-- The constructors, the assignments and the destructor.
use mashroom.Common.{
  ℕ, suc, ◌==◌, ◌<◌, ◌≡◌, ◌≢◌, ◌⊎◌, inl, inr, refl, sym, ap, subst, ◌∙◌, arith, true, false, Option,
  none, some, Bool-cases, Option-cases, get_elem?, leb,
}
use mashroom.Common.Int.{ℤ, pos, eq_ℤ}
use mashroom.Network.Socket.{
  Socket, default_socket, Store, points_to, use_count, descriptor, close, set, put, copy_assign,
  move_assign, make_socket, copy_socket, move_socket, removed, give_up, destroy, Step, makes,
  defaults, creates, unconnected, create_socket, IsNew, copies, moves, assigns, move_assigns,
  destroys, append,
}
use mashroom.Network.Socket.Counts.{
  use_count-set, use_count-remove, use_count_held, get_elem?-set, eq_ℤ-refl,
}
use mashroom.Network.Socket.Sharing.{
  IsSound, Replaces, IsLast, kept-IsSound, closed-IsSound, same_int, points_held, other_int,
  last_of,
}

copy_assign-IsSound :
    (st : Store) (i j : ℕ) (this other : Socket)
    → IsSound st
    → get_elem? st.sockets i ≡ some this
    → get_elem? st.sockets j ≡ some other
    → (eq_ℤ (descriptor st other) (descriptor st this) ≡ true) ⊎ IsLast st this
    → IsSound (copy_assign st i this other)
unfolding copy_assign
copy_assign-IsSound st i j this other h p q safe =
    elim (Bool-cases (eq_ℤ (descriptor st other) (descriptor st this))) [
      | inl e ↦
          let same = same_int st i j this other h p q e in
          simp e (
            kept-IsSound st (put st i other) h
              (λ k. ground (arith, same, use_count-set k i this other st.sockets p)) (λ k. refl)
              refl (λ f. refl))
      | inr e ↦ simp e (
          closed-IsSound st (put (close st (descriptor st this)) i other) this
            (λ k. points_to k other.socket_) h (last_of safe e)
            (record {
              counts = λ k. use_count-set k i this other st.sockets p;
              held = λ k. points_held st j k other q;
              same_heap = λ k. refl;
              same_next = refl;
            })
            (λ k x. other_int st k this other x e) (λ f. refl))
    ]

two_places :
    (st : Store) (i j : ℕ) (this other : Socket)
    → get_elem? st.sockets i ≡ some this
    → get_elem? st.sockets j ≡ some other
    → eq_ℤ (descriptor st other) (descriptor st this) ≡ false
    → i ≢ j
two_places st i j this other p q e same =
    let one : this ≡ other = ground arith in
    ground (
      arith,
      ap (λ s. eq_ℤ (descriptor st other) (descriptor st s)) one,
      eq_ℤ-refl (descriptor st other),
    )

move_assign-IsSound :
    (st : Store) (i j : ℕ) (this other : Socket)
    → IsSound st
    → get_elem? st.sockets i ≡ some this
    → get_elem? st.sockets j ≡ some other
    → (eq_ℤ (descriptor st other) (descriptor st this) ≡ true) ⊎ IsLast st this
    → IsSound (move_assign st i j this other)
unfolding move_assign
move_assign-IsSound st i j this other h p q safe =
    elim (Bool-cases (eq_ℤ (descriptor st other) (descriptor st this))) [
      | inl e ↦ simp e h
      | inr e ↦
          let n = two_places st i j this other p q e in
          let q' = get_elem?-set i j other st.sockets n ∙ q in
          simp e (
            closed-IsSound st (put (put (close st (descriptor st this)) i other) j default_socket)
              this (λ k. 0) h (last_of safe e)
              (record {
                counts = λ k. omega (
                  arith,
                  use_count-set k i this other st.sockets p,
                  use_count-set k j other default_socket (set i other st.sockets) q',
                );
                held = λ k l. absurd (omega arith);
                same_heap = λ k. refl;
                same_next = refl;
              })
              (λ k x. refl) (λ f. refl))
    ]

removed-Replaces :
    (st : Store) (i : ℕ) (this : Socket) (d : ℤ)
    → get_elem? st.sockets i ≡ some this
    → Replaces st (close (removed st i) d) this (λ k. 0)
removed-Replaces st i this d p = record {
  counts = λ k. omega (arith, use_count-remove k i this st.sockets p);
  held = λ k l. absurd (omega arith);
  same_heap = λ k. refl;
  same_next = refl;
}

give_up-IsSound :
    (st : Store) (i k : ℕ) (this : Socket)
    → IsSound st
    → get_elem? st.sockets i ≡ some this
    → this.socket_ ≡ some k
    → IsSound (give_up st i (some k))
give_up-IsSound st i k this h p e = elim (Bool-cases (leb (use_count k st.sockets) 1)) [
  | inl few ↦ simp few (
      closed-IsSound st (close (removed st i) (pos (st.heap k))) this (λ k. 0) h
        (λ j x. ground (arith, use_count_held j i this st.sockets p x, few))
        (removed-Replaces st i this (pos (st.heap k)) p) (λ k x. refl) (λ f. ground arith))
  | inr more ↦ simp more (
      kept-IsSound st (removed st i) h
        (λ j. ground (arith, use_count-remove j i this st.sockets p, more)) (λ k. refl) refl
        (λ f. refl))
]

destroy-IsSound :
    (st : Store) (i : ℕ) (this : Socket)
    → IsSound st
    → get_elem? st.sockets i ≡ some this
    → IsSound (destroy st i this)
unfolding destroy
destroy-IsSound st i this h p = elim (Option-cases this.socket_) [
  | inl e ↦
      subst (λ o. IsSound (give_up st i o)) (sym e)
        (kept-IsSound st (removed st i) h
          (λ k. ground (arith, use_count-remove k i this st.sockets p)) (λ k. refl) refl
          (λ f. refl))
  | inr (k, e) ↦ subst (λ o. IsSound (give_up st i o)) (sym e) (give_up-IsSound st i k this h p e)
]

make_socket-IsSound :
    (st : Store) (fd storage : ℕ)
    → IsSound st
    → st.is_open fd ≡ false
    → IsSound (make_socket st fd storage)
unfolding make_socket
make_socket-IsSound st fd storage h new = record {
  fresh = λ k l. ground (arith, h.fresh k);
  one_int = λ j k p q e. ground (arith, h.one_int j k, h.opened j, h.opened k, h.fresh st.next);
  opened = λ k p. ground (arith, h.opened k, h.fresh st.next);
  no_leak = λ f e. elim (Bool-cases (f == fd)) [
    | inl y ↦ (st.next, ground arith, ground arith)
    | inr y ↦
        let (k, p, q) = h.no_leak f (ground (arith, y, e)) in
        (k, omega (arith, p), ground (arith, p, q, h.fresh st.next))
  ];
}

append-IsSound : (st : Store) → IsSound st → IsSound (append st default_socket)
append-IsSound st h =
    kept-IsSound st (append st default_socket) h (λ k. ground arith) (λ k. refl) refl (λ f. refl)

append-unconnected :
    (st : Store) (storage : Option ℕ) → IsSound st → IsSound (append st (unconnected storage))
append-unconnected st storage h =
    kept-IsSound st (append st (unconnected storage)) h (λ k. ground arith) (λ k. refl) refl
      (λ f. refl)

create_socket-IsSound :
    (st : Store) (storage : ℕ) (answer : Option ℕ)
    → IsSound st
    → IsNew st answer
    → IsSound (create_socket st storage answer)
unfolding create_socket
create_socket-IsSound st storage none h new = append-unconnected st (some storage) h
create_socket-IsSound st storage (some fd) h new = make_socket-IsSound st fd storage h new

-- An assignment is careful if the object it overwrites is the last on its descriptor, or already has
-- the new one.
abbrev pub IsCareful : (st u : Store) → Step st u → Type 0
IsCareful st u (assigns i j this other p q e) =
    (eq_ℤ (descriptor st other) (descriptor st this) ≡ true) ⊎ IsLast st this
IsCareful st u (move_assigns i j this other p q e) =
    (eq_ℤ (descriptor st other) (descriptor st this) ≡ true) ⊎ IsLast st this
IsCareful st u s = Unit

-- The default constructor, the constructor from a new descriptor (0 or more), that from a host and a port
-- where it does not throw, the copy and the move constructor, the destructor and every careful assignment keep the open descriptors to exactly those of the live objects, each
-- with one shared int. An assignment is careful if both objects have the same descriptor or the one
-- that is overwritten is the last of its own.
pub Step-IsSound : (st u : Store) (s : Step st u) → IsCareful st u s → IsSound st → IsSound u
unfolding copy_socket move_socket
Step-IsSound st u (makes fd storage new e) c h =
    subst IsSound (sym e) (make_socket-IsSound st fd storage h new)
Step-IsSound st u (defaults e) c h = subst IsSound (sym e) (append-unconnected st none h)
Step-IsSound st u (creates storage answer new e) c h =
    subst IsSound (sym e) (create_socket-IsSound st storage answer h new)
Step-IsSound st u (copies j other q e) c h = subst IsSound (sym e) (
    copy_assign-IsSound (append st default_socket) 0 (suc j) default_socket other
      (append-IsSound st h) refl q (inr (λ k x. ground arith)))
Step-IsSound st u (moves j other q e) c h = subst IsSound (sym e) (
    move_assign-IsSound (append st default_socket) 0 (suc j) default_socket other
      (append-IsSound st h) refl q (inr (λ k x. ground arith)))
Step-IsSound st u (assigns i j this other p q e) c h =
    subst IsSound (sym e) (copy_assign-IsSound st i j this other h p q c)
Step-IsSound st u (move_assigns i j this other p q e) c h =
    subst IsSound (sym e) (move_assign-IsSound st i j this other h p q c)
Step-IsSound st u (destroys i this p e) c h = subst IsSound (sym e) (destroy-IsSound st i this h p)

-- Overwriting an object while another one shares its descriptor closes it for the other as well, by
-- copy and by move, if the new descriptor is a different one.
pub assign_shared :
    (st : Store) (i j k : ℕ) (this other : Socket)
    → IsSound st
    → get_elem? st.sockets i ≡ some this
    → get_elem? st.sockets j ≡ some other
    → this.socket_ ≡ some k
    → 1 < use_count k st.sockets
    → eq_ℤ (descriptor st other) (descriptor st this) ≡ false
    → let u = copy_assign st i this other in
      let v = move_assign st i j this other in
      (0 < use_count k u.sockets)
      × (u.is_open (u.heap k) ≡ false)
      × (0 < use_count k v.sockets)
      × (v.is_open (v.heap k) ≡ false)
unfolding copy_assign move_assign
assign_shared st i j k this other h p q x shared e =
    let n = two_places st i j this other p q e in
    let q' = get_elem?-set i j other st.sockets n ∙ q in
    ground (
      arith,
      e,
      use_count-set k i this other st.sockets p,
      use_count-set k j other default_socket (set i other st.sockets) q',
    )
