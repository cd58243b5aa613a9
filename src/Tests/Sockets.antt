-- ===== src/Tests/Sockets.antt =====
-- Network: objects that share a descriptor.
use mashroom.Common.{refl, arith, inr, false, some, []}
use mashroom.Network.Socket.{
  Socket, Store, copy_assign, make_socket, copy_socket, makes, copies, assigns,
}
use mashroom.Network.Socket.Sharing.{IsSound}
use mashroom.Network.Socket.Lifetime.{Step-IsSound}

abbrev no_sockets : Store
no_sockets = record { sockets = []; heap = λ k. 0; next = 0; is_open = λ f. false }

no_sockets-IsSound : IsSound no_sockets
no_sockets-IsSound = record {
  fresh = λ k l. refl;
  one_int = λ j k p q e. absurd (omega arith);
  opened = λ k p. absurd (omega arith);
  no_leak = λ fd e. ground arith;
}

abbrev one_socket : Store
one_socket = make_socket no_sockets 5 80

abbrev two_sockets : Store
two_sockets = make_socket one_socket 6 80

abbrev socket_5 : Socket
socket_5 = record { socket_ = some 0; storage = some 80 }

abbrev socket_6 : Socket
socket_6 = record { socket_ = some 1; storage = some 80 }

one_socket-IsSound : IsSound one_socket
one_socket-IsSound = Step-IsSound no_sockets one_socket (makes 5 80 refl refl) tt no_sockets-IsSound

two_sockets-IsSound : IsSound two_sockets
unfolding make_socket
two_sockets-IsSound =
    Step-IsSound one_socket two_sockets (makes 6 80 refl refl) tt one_socket-IsSound

-- The object on 6 is the last on it and gets 5.
Step-IsSound_example : IsSound (copy_assign two_sockets 0 socket_6 socket_5)
unfolding make_socket
Step-IsSound_example =
    Step-IsSound two_sockets (copy_assign two_sockets 0 socket_6 socket_5)
      (assigns 0 1 socket_6 socket_5 refl refl refl) (inr (λ k x. ground arith)) two_sockets-IsSound

-- Two objects share 6, and one of them gets 5.
abbrev three_sockets : Store
three_sockets = copy_socket two_sockets socket_6

three_sockets-IsSound : IsSound three_sockets
unfolding make_socket copy_socket
three_sockets-IsSound =
    Step-IsSound two_sockets three_sockets (copies 0 socket_6 refl refl) tt two_sockets-IsSound
