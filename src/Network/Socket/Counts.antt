-- ===== src/Network/Socket/Counts.antt =====
-- How many objects point to an int, when one is replaced or removed.
use mashroom.Common.{
  ℕ, zero, suc, ◌+◌, ◌<◌, ◌≡◌, ◌≢◌, refl, ap, arith, true, some, List, [], ◌∷◌, get_elem?,
}
use mashroom.Common.Int.{ℤ, pos, negsuc, eq_ℤ}
use mashroom.Network.Socket.{Socket, points_to, use_count, set, remove}

pub use_count-set :
    (k i : ℕ) (this x : Socket) (sockets : List Socket)
    → get_elem? sockets i ≡ some this
    → use_count k (set i x sockets) + points_to k this.socket_
      ≡ use_count k sockets + points_to k x.socket_
use_count-set k i this x [] e = ground arith
use_count-set k zero this x (s ∷ sockets) e = ground arith
use_count-set k (suc i) this x (s ∷ sockets) e = omega (arith, use_count-set k i this x sockets e)

pub use_count-remove :
    (k i : ℕ) (this : Socket) (sockets : List Socket)
    → get_elem? sockets i ≡ some this
    → use_count k (remove i sockets) + points_to k this.socket_ ≡ use_count k sockets
use_count-remove k i this [] e = ground arith
use_count-remove k zero this (s ∷ sockets) e = ground arith
use_count-remove k (suc i) this (s ∷ sockets) e = omega (arith, use_count-remove k i this sockets e)

pub use_count_held :
    (k i : ℕ) (s : Socket) (sockets : List Socket)
    → get_elem? sockets i ≡ some s
    → s.socket_ ≡ some k
    → 0 < use_count k sockets
use_count_held k i s [] e h = ground arith
use_count_held k zero s (t ∷ sockets) e h = ground arith
use_count_held k (suc i) s (t ∷ sockets) e h = omega (arith, use_count_held k i s sockets e h)

pub get_elem?-set :
    (i j : ℕ) (x : Socket) (sockets : List Socket)
    → i ≢ j
    → get_elem? (set i x sockets) j ≡ get_elem? sockets j
get_elem?-set i j x [] n = refl
get_elem?-set zero zero x (s ∷ sockets) n = absurd (n refl)
get_elem?-set zero (suc j) x (s ∷ sockets) n = refl
get_elem?-set (suc i) zero x (s ∷ sockets) n = refl
get_elem?-set (suc i) (suc j) x (s ∷ sockets) n = get_elem?-set i j x sockets (λ e. n (ap suc e))

pub eq_ℤ-refl : (a : ℤ) → eq_ℤ a a ≡ true
eq_ℤ-refl (pos a) = ground arith
eq_ℤ-refl (negsuc a) = ground arith
