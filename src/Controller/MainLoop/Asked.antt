-- ===== src/Controller/MainLoop/Asked.antt =====
-- A round of the main loop asks about every socket that the server has.
use lighting_gateway.Prelude.{
  ℕ, ◌<◌, ◌==◌, ◌^◌, ◌||◌, ◌∷◌, ◌≡◌, List, arith, false, leb, length, refl, take_all,
}
use lighting_gateway.Prelude.Int.{ℤ}
use lighting_gateway.Lists.{Lists}
use lighting_gateway.Sockets.{socket_sever_get_num_clients, socket_sever_get_client_fds}
use lighting_gateway.Srpc.{System, Gateway}
use lighting_gateway.Controller.MainLoop.{Round, serial_half, sockets_half, main_round}

pub main_round_lem :
    {L : Type 0} (ops : Lists L) (sys : System) (prev : ℕ) (round : Round) (listening : ℤ)
    (clients : List ℤ) (g : Gateway L)
    → g.server.records ≡ listening ∷ clients
    → length (listening ∷ clients) < 2 ^ 31
    → main_round ops sys prev round g
      ≡ sockets_half ops sys round (listening ∷ clients) (serial_half ops sys prev round g)
unfolding main_round socket_sever_get_num_clients socket_sever_get_client_fds
main_round_lem ops sys prev round listening clients g e few =
    let fds = listening ∷ clients in
    let not_empty : (length fds == 0) ≡ false = ground arith in
    let small : (leb (2 ^ 31) (length fds) || length fds == 0) ≡ false = ground arith in
    let count : socket_sever_get_num_clients g.server ≡ length fds =
      rw (socket_sever_get_num_clients, e, not_empty) refl in
    let asked : socket_sever_get_client_fds (length fds) g.server ≡ fds =
      rw (socket_sever_get_client_fds, e) (take_all (length fds) fds (omega arith)) in
    rw (main_round, count, small, asked) refl
