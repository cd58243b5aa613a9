-- ===== src/Network/Socket/Sharing.antt =====
-- Which descriptors are open, against the objects that share them, when one of these goes.
use mashroom.Common.{
  ℕ, ◌+◌, ◌==◌, ◌≤◌, ◌<◌, ◌≡◌, ◌≢◌, ◌↔◌, ◌⊎◌, inl, inr, refl, sym, ap, ◌∙◌, arith, Bool, true,
  false, Option, none, some, if◌then◌else◌, Option-cases, get_elem?,
}
use mashroom.Common.Int.{eq_ℤ}
use mashroom.Network.Socket.{Socket, Store, points_to, use_count, descriptor_of, descriptor, close}
use mashroom.Network.Socket.Counts.{use_count_held}

-- The descriptors of the live objects are open, each has one int, and none else is open.
pub record IsSound (st : Store) : Type 0 where
  pub fresh : (k : ℕ) → st.next ≤ k → use_count k st.sockets ≡ 0
  pub one_int :
      (j k : ℕ)
      → 0 < use_count j st.sockets
      → 0 < use_count k st.sockets
      → st.heap j ≡ st.heap k
      → j ≡ k
  pub opened : (k : ℕ) → 0 < use_count k st.sockets → st.is_open (st.heap k) ≡ true
  pub no_leak :
      (fd : ℕ) → st.is_open fd ≡ true → (k : ℕ) × (0 < use_count k st.sockets) × (st.heap k ≡ fd)

abbrev pub Same : Store → Store → ℕ → Type 0
Same st u j = (0 < use_count j u.sockets) ↔ (0 < use_count j st.sockets)

-- The store after an object that was the last on its int gave it up.
released-IsSound :
    (st u : Store) (k : ℕ)
    → IsSound st
    → 0 < use_count k st.sockets
    → ((j : ℕ) → j ≢ k → Same st u j)
    → use_count k u.sockets ≡ 0
    → ((j : ℕ) → u.heap j ≡ st.heap j)
    → u.next ≡ st.next
    → ((f : ℕ) → u.is_open f ≡ (if f == st.heap k then false else st.is_open f))
    → IsSound u
released-IsSound st u k h held others gone hp nx op = record {
  fresh = λ j l. ground (arith, h.fresh j, others j);
  one_int = λ i j p q e.
      h.one_int i j ((others i (ground arith)).0 p) ((others j (ground arith)).0 q)
        (sym (hp i) ∙ e ∙ hp j);
  opened = λ j p.
      let before = (others j (ground arith)).0 p in
      ground (arith, hp j, op (u.heap j), h.opened j before, h.one_int j k before held);
  no_leak = λ fd e.
      let still : st.is_open fd ≡ true = ground (arith, op fd) in
      let (j, p, q) = h.no_leak fd still in (j, (others j (ground (arith, op fd))).1 p, hp j ∙ q);
}

-- The store after a change that leaves every int that was pointed to pointed to, and no other.
pub kept-IsSound :
    (st u : Store)
    → IsSound st
    → ((j : ℕ) → Same st u j)
    → ((j : ℕ) → u.heap j ≡ st.heap j)
    → u.next ≡ st.next
    → ((f : ℕ) → u.is_open f ≡ st.is_open f)
    → IsSound u
kept-IsSound st u h same hp nx op = record {
  fresh = λ j l. ground (arith, h.fresh j, same j);
  one_int = λ i j p q e. h.one_int i j ((same i).0 p) ((same j).0 q) (sym (hp i) ∙ e ∙ hp j);
  opened = λ j p. ap u.is_open (hp j) ∙ op (st.heap j) ∙ h.opened j ((same j).0 p);
  no_leak = λ fd e. let (j, p, q) = h.no_leak fd (sym (op fd) ∙ e) in (j, (same j).1 p, hp j ∙ q);
}

-- `this` was overwritten or destroyed in `u`, and `extra` objects more point to each int.
pub record Replaces (st u : Store) (this : Socket) (extra : ℕ → ℕ) : Type 0 where
  pub counts :
      (k : ℕ) → use_count k u.sockets + points_to k this.socket_ ≡ use_count k st.sockets + extra k
  pub held : (k : ℕ) → 0 < extra k → 0 < use_count k st.sockets
  pub same_heap : (j : ℕ) → u.heap j ≡ st.heap j
  pub same_next : u.next ≡ st.next

-- No other object shares the descriptor.
abbrev pub IsLast : Store → Socket → Type 0
IsLast st this = (k : ℕ) → this.socket_ ≡ some k → use_count k st.sockets ≡ 1

pub closed-IsSound :
    (st u : Store) (this : Socket) (extra : ℕ → ℕ)
    → IsSound st
    → IsLast st this
    → Replaces st u this extra
    → ((k : ℕ) → this.socket_ ≡ some k → extra k ≡ 0)
    → ((f : ℕ) → u.is_open f ≡ (close st (descriptor st this)).is_open f)
    → IsSound u
closed-IsSound st u this extra h last r none_extra op = elim (Option-cases this.socket_) [
  | inl e ↦
      kept-IsSound st u h (λ j. ground (arith, r.counts j, r.held j)) r.same_heap r.same_next
        (λ f. ground (arith, op f))
  | inr (k, e) ↦
      released-IsSound st u k h (omega (arith, last k e))
        (λ j n. ground (arith, r.counts j, r.held j))
        (ground (arith, r.counts k, last k, none_extra k)) r.same_heap r.same_next
        (λ f. ground (arith, op f))
]

-- Equal descriptors are those of the same int.
pub same_int :
    (st : Store) (i j : ℕ) (this other : Socket)
    → IsSound st
    → get_elem? st.sockets i ≡ some this
    → get_elem? st.sockets j ≡ some other
    → eq_ℤ (descriptor st other) (descriptor st this) ≡ true
    → this.socket_ ≡ other.socket_
same_int st i j this other h p q e = go this.socket_ other.socket_ refl refl e
  where
    go :
        (a b : Option ℕ)
        → this.socket_ ≡ a
        → other.socket_ ≡ b
        → eq_ℤ (descriptor_of st b) (descriptor_of st a) ≡ true
        → a ≡ b
    go none none x y e = refl
    go none (some b) x y e = ground arith
    go (some a) none x y e = ground arith
    go (some a) (some b) x y e = ap some (
        h.one_int a b (use_count_held a i this st.sockets p x)
          (use_count_held b j other st.sockets q y) (ground arith))

pub points_held :
    (st : Store) (j k : ℕ) (other : Socket)
    → get_elem? st.sockets j ≡ some other
    → 0 < points_to k other.socket_
    → 0 < use_count k st.sockets
points_held st j k other q l = elim (Option-cases other.socket_) [
  | inl e ↦ ground arith
  | inr (b, e) ↦ ground (arith, use_count_held b j other st.sockets q e)
]

pub other_int :
    (st : Store) (k : ℕ) (this other : Socket)
    → this.socket_ ≡ some k
    → eq_ℤ (descriptor st other) (descriptor st this) ≡ false
    → points_to k other.socket_ ≡ 0
other_int st k this other x e = elim (Option-cases other.socket_) [
  | inl y ↦ ground arith
  | inr (b, y) ↦ ground arith
]

pub last_of {ℓ} : {L : Type ℓ} {b : Bool} → (b ≡ true) ⊎ L → b ≡ false → L
last_of (inl t) f = ground arith
last_of (inr l) f = l
