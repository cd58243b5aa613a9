-- ===== src/Network/Pool/Map.antt =====
-- The map from descriptors to processes.
use mashroom.Common.{ℕ, ◌==◌, ◌≡◌, refl, arith, none, some, [], ◌∷◌, if◌then◌else◌}
use mashroom.Network.Pool.{Slot, Peers, find, contains, erase, assign, without_processes}

-- No descriptor has two entries.
abbrev pub IsMap : Peers → Type 0
IsMap [] = Unit
IsMap ((k, s) ∷ peers) = (find peers k ≡ none) × IsMap peers

pub find-erase :
    (peers : Peers) (k fd : ℕ) → find (erase peers k) fd ≡ (if k == fd then none else find peers fd)
find-erase [] k fd = ground arith
find-erase ((j, s) ∷ peers) k fd = ground (arith, find-erase peers k fd)

pub find-assign :
    (peers : Peers) (k fd : ℕ) (t : Slot)
    → find (assign peers k t) fd
      ≡ (if k == fd then elim (find peers fd) [ none ↦ none | some s ↦ some t ] else find peers fd)
find-assign [] k fd t = ground arith
find-assign ((j, s) ∷ peers) k fd t = ground (arith, find-assign peers k fd t)

pub erase-IsMap : (peers : Peers) (k : ℕ) → IsMap peers → IsMap (erase peers k)
erase-IsMap [] k m = m
erase-IsMap ((j, s) ∷ peers) k m = ground (arith, erase-IsMap peers k m.1, find-erase peers k j)

pub assign-IsMap : (peers : Peers) (k : ℕ) (t : Slot) → IsMap peers → IsMap (assign peers k t)
assign-IsMap [] k t m = m
assign-IsMap ((j, s) ∷ peers) k t m =
    (ground (arith, m, find-assign peers k j t), assign-IsMap peers k t m.1)

pub without-none :
    (peers : Peers) (fd : ℕ) → find peers fd ≡ none → find (without_processes peers) fd ≡ none
without-none [] fd e = refl
without-none ((j, s) ∷ peers) fd e = ground (arith, without-none peers fd)

pub without-IsMap : (peers : Peers) → IsMap peers → IsMap (without_processes peers)
without-IsMap [] m = m
without-IsMap ((j, s) ∷ peers) m = (without-none peers j m.0, without-IsMap peers m.1)

pub contains-assign :
    (peers : Peers) (k fd : ℕ) (t : Slot) → contains (assign peers k t) fd ≡ contains peers fd
contains-assign [] k fd t = refl
contains-assign ((j, s) ∷ peers) k fd t = ground (arith, contains-assign peers k fd t)

pub contains-without :
    (peers : Peers) (fd : ℕ) → contains (without_processes peers) fd ≡ contains peers fd
contains-without [] fd = refl
contains-without ((j, s) ∷ peers) fd = ground (arith, contains-without peers fd)
