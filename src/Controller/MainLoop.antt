-- ===== src/Controller/MainLoop.antt =====
-- The main loop (server/Source/zbController.c): in each round `poll` reports on the serial port and
-- on the sockets that the server has, and the program handles them in that order.
pub mod Asked
pub mod Headed
pub mod Lost
pub mod Obeyed
pub mod Turns
use lighting_gateway.Prelude.{
  if◌then◌else◌, ℕ, ◌==◌, ◌^◌, ◌||◌, ◌∷◌, List, Option, [], leb, length, none, some, suc,
}
use lighting_gateway.Prelude.Reading.{Bytes}
use lighting_gateway.Prelude.Int.{ℤ}
use lighting_gateway.Lists.{Lists}
use lighting_gateway.Sockets.{
  RxResult, idle, proceed, socket_sever_poll, socket_sever_get_num_clients,
  socket_sever_get_client_fds,
}
use lighting_gateway.Soc.Rpc.{Stack}
use lighting_gateway.Soc.Rpc.Receive.{ReadResult}
use lighting_gateway.Srpc.{System, Gateway}
use lighting_gateway.Srpc.Incoming.{rx_loop}
use lighting_gateway.Srpc.Incoming.Kept.{sockets}
use lighting_gateway.Controller.{serial_round}

-- What the system has for a socket in a round: what `poll` reports, the number of a new connection,
-- the bytes that `ioctl` says are waiting, and the results of the reads.
pub record Ready : Type 0 where
  pub revents : ℕ
  pub accepted : ℤ
  pub byte_to_read : ℤ
  pub reads : List (ReadResult × ReadResult)

-- What it has in a round: the report on the serial port, what its message meets in the memory of the
-- driver, the results of the reads from it, and what it has for each socket.
pub record Round : Type 0 where
  pub serial_revents : ℕ
  pub stack : Stack
  pub junk : Bytes
  pub serial_reads : List ReadResult
  pub ready : ℤ → Ready

module _ {L : Type 0} (ops : Lists L) (sys : System) where
  -- `SRPC_RxCB`
  unfoldable pub srpc_rx_cb : (ℤ → Ready) → ℤ → Gateway L → Option (RxResult (Gateway L))
  unfolding rx_loop
  srpc_rx_cb ready fd g = rx_loop ops sys fd (ready fd).reads (ready fd).byte_to_read g

  -- The loop over the sockets that were asked about.
  unfoldable pub poll_sockets : (ℤ → Ready) → List ℤ → Gateway L → Option (RxResult (Gateway L))
  unfolding socket_sever_poll srpc_rx_cb proceed
  poll_sockets ready [] g = some (idle g)
  poll_sockets ready (fd ∷ fds) g =
      let rest = poll_sockets ready fds in
      let r = ready fd in
      if r.revents == 0
      then rest g
      else proceed (socket_sever_poll sockets (srpc_rx_cb ready) r.accepted fd r.revents g) rest

  unfoldable pub sockets_half : Round → List ℤ → Option (Gateway L) → Option (RxResult (Gateway L))
  unfolding poll_sockets
  sockets_half round fds none = none
  sockets_half round fds (some g) = poll_sockets round.ready fds g

-- `prev` is what an unset `prevNwkAddr` holds.
module _ {L : Type 0} (ops : Lists L) (sys : System) (prev : ℕ) where
  -- The first half of a round. The loop that removes a device gets enough fuel for every endpoint.
  unfoldable pub serial_half : Round → Gateway L → Option (Gateway L)
  unfolding serial_round
  serial_half round g =
      if round.serial_revents == 0
      then some g
      else serial_round ops sys prev (suc (length (ops.devices g.lists).0)) round.stack round.junk
          round.serial_reads g

  -- A round. The number of sockets is an `int`; where it is negative, there is no memory for so
  -- many, and the round does nothing.
  unfoldable pub main_round : Round → Gateway L → Option (RxResult (Gateway L))
  unfolding socket_sever_get_num_clients socket_sever_get_client_fds serial_half sockets_half
  main_round round g =
      let num_client_fds = socket_sever_get_num_clients g.server in
      if leb (2 ^ 31) num_client_fds || num_client_fds == 0
      then some (idle g)
      else sockets_half ops sys round (socket_sever_get_client_fds num_client_fds g.server)
          (serial_half round g)

  -- `while (1)`, for as many rounds as are given.
  unfoldable pub main_loop : List Round → Gateway L → Option (RxResult (Gateway L))
  unfolding main_round
  main_loop [] g = some (idle g)
  main_loop (round ∷ rounds) g = proceed (main_round round g) (main_loop rounds)
