-- ===== src/Network/Socket.antt =====
-- network/src/commonsocket.cpp: the objects that share a descriptor. `socket_` is the address of a
-- shared int; the store holds the live objects, these ints, and which descriptors are open. The object of
-- the descriptor -1, which a server makes of a refused connection, is left out.
pub mod Counts
pub mod Sharing
pub mod Lifetime
use mashroom.Common.{
  ℕ, zero, suc, ◌+◌, ◌==◌, ◌≤◌, ◌≡◌, Bool, true, false, ◌&&◌, Option, none, some, List, [], ◌∷◌,
  ◌++◌, if◌then◌else◌, ltb, leb, length, get_elem?,
}
use mashroom.Common.Int.{ℤ, pos, negsuc, eq_ℤ}

pub record Socket : Type 0 where
  pub socket_ : Option ℕ
  pub storage : Option ℕ

abbrev pub default_socket : Socket
default_socket = record { socket_ = none; storage = none }

pub record Store : Type 0 where
  pub sockets : List Socket
  pub heap : ℕ → ℕ
  pub next : ℕ
  pub is_open : ℕ → Bool

-- The number of live objects that share the int at `k`.
abbrev pub points_to : ℕ → Option ℕ → ℕ
points_to k none = 0
points_to k (some a) = if a == k then 1 else 0

abbrev pub use_count : ℕ → List Socket → ℕ
use_count k [] = 0
use_count k (s ∷ sockets) = points_to k s.socket_ + use_count k sockets

abbrev pub descriptor_of : Store → Option ℕ → ℤ
descriptor_of st none = negsuc 0
descriptor_of st (some k) = pos (st.heap k)

-- __descriptor__
abbrev pub descriptor : Store → Socket → ℤ
descriptor st s = descriptor_of st s.socket_

-- ::close; closing -1 does nothing.
abbrev pub close : Store → ℤ → Store
close st fd = record st { is_open = λ f. if eq_ℤ (pos f) fd then false else st.is_open f }

abbrev pub set : ℕ → Socket → List Socket → List Socket
set i x [] = []
set zero x (s ∷ sockets) = x ∷ sockets
set (suc i) x (s ∷ sockets) = s ∷ set i x sockets

abbrev pub put : Store → ℕ → Socket → Store
put st i x = record st { sockets = set i x st.sockets }

-- operator=(const Socket&) on the objects `this` and `other`, `this` being the i-th.
unfoldable pub copy_assign : Store → ℕ → Socket → Socket → Store
copy_assign st i this other =
    if eq_ℤ (descriptor st other) (descriptor st this)
    then put st i other
    else put (close st (descriptor st this)) i other

-- operator=(Socket&&): the j-th object is left empty.
unfoldable pub move_assign : Store → ℕ → ℕ → Socket → Socket → Store
move_assign st i j this other =
    if eq_ℤ (descriptor st other) (descriptor st this)
    then st
    else put (put (close st (descriptor st this)) i other) j default_socket

abbrev pub append : Store → Socket → Store
append st s = record st { sockets = s ∷ st.sockets }

-- Socket(int, const sockaddr_storage&), with a descriptor that the system gave.
unfoldable pub make_socket : Store → ℕ → ℕ → Store
make_socket st fd storage = record st {
  sockets = (record { socket_ = some st.next; storage = some storage }) ∷ st.sockets;
  heap = λ k. if k == st.next then fd else st.heap k;
  next = st.next + 1;
  is_open = λ f. if f == fd then true else st.is_open f;
}

-- An object without a descriptor: Socket(), and what is left of Socket(host, port, type, protocol) where
-- ::socket fails with an errno that its switch does not name.
abbrev pub unconnected : Option ℕ → Socket
unconnected storage = record { socket_ = none; storage = storage }

-- Socket(host, port, type, protocol), with the answer of ::socket, where it does not throw.
unfoldable pub create_socket : Store → ℕ → Option ℕ → Store
create_socket st storage none = append st (unconnected (some storage))
create_socket st storage (some fd) = make_socket st fd storage

-- A descriptor that the system gives is not open before.
abbrev pub IsNew : Store → Option ℕ → Type 0
IsNew st none = Unit
IsNew st (some fd) = st.is_open fd ≡ false

-- The copy and the move constructor; the new object is the first.
unfoldable pub copy_socket : Store → Socket → Store
copy_socket st other = copy_assign (append st default_socket) 0 default_socket other

unfoldable pub move_socket : Store → ℕ → Socket → Store
move_socket st j other = move_assign (append st default_socket) 0 (suc j) default_socket other

abbrev pub remove : ℕ → List Socket → List Socket
remove i [] = []
remove zero (s ∷ sockets) = sockets
remove (suc i) (s ∷ sockets) = s ∷ remove i sockets

abbrev pub removed : Store → ℕ → Store
removed st i = record st { sockets = remove i st.sockets }

abbrev pub give_up : Store → ℕ → Option ℕ → Store
give_up st i none = removed st i
give_up st i (some k) =
    if leb (use_count k st.sockets) 1 then close (removed st i) (pos (st.heap k)) else removed st i

-- ~Socket
unfoldable pub destroy : Store → ℕ → Socket → Store
destroy st i this = give_up st i this.socket_

pub data Step (st : Store) (u : Store) : Type 0 where
  makes : (fd storage : ℕ) → st.is_open fd ≡ false → u ≡ make_socket st fd storage → Step st u
  defaults : u ≡ append st (unconnected none) → Step st u
  creates :
      (storage : ℕ) (answer : Option ℕ)
      → IsNew st answer
      → u ≡ create_socket st storage answer
      → Step st u
  copies :
      (j : ℕ) (other : Socket)
      → get_elem? st.sockets j ≡ some other
      → u ≡ copy_socket st other
      → Step st u
  moves :
      (j : ℕ) (other : Socket)
      → get_elem? st.sockets j ≡ some other
      → u ≡ move_socket st j other
      → Step st u
  assigns :
      (i j : ℕ) (this other : Socket)
      → get_elem? st.sockets i ≡ some this
      → get_elem? st.sockets j ≡ some other
      → u ≡ copy_assign st i this other
      → Step st u
  move_assigns :
      (i j : ℕ) (this other : Socket)
      → get_elem? st.sockets i ≡ some this
      → get_elem? st.sockets j ≡ some other
      → u ≡ move_assign st i j this other
      → Step st u
  destroys :
      (i : ℕ) (this : Socket)
      → get_elem? st.sockets i ≡ some this
      → u ≡ destroy st i this
      → Step st u
