-- ===== src/Srpc.antt =====
-- The messages between the server and its TCP clients (server/Source/interface_srpcserver.c).
-- `none` is a read or a write outside of an array, or the use of `NULL`.
pub mod Reply
pub mod Light
pub mod Store
pub mod Incoming
pub mod Client
use lighting_gateway.Prelude.{
  if◌then◌else◌, ℕ, ◌++◌, ◌+◌, Option, drop, get_or, leb, length, none, some, take,
}
use lighting_gateway.Prelude.Int.{ℤ}
use lighting_gateway.Prelude.Reading.{Bytes, Reader}
use lighting_gateway.Soc.Port.{Soc}
use lighting_gateway.Sockets.{Server, socket_sever_send, socket_sever_send_allclients}

-- What the server works on: the chip, the sockets, and the lists.
pub record Gateway (L : Type 0) : Type 0 where
  pub soc : Soc
  pub server : Server
  pub lists : L

-- What the system decides: the result of `write` on a socket, and what fresh memory holds.
pub record System : Type 0 where
  pub write_result : ℤ → ℤ
  pub fresh : Bytes

pub data Outcome (L : Type 0) : Type 0 where
  running : Gateway L → Outcome L
  -- the process has ended
  exited : Gateway L → Outcome L

-- A handler reads its arguments from the buffer, and then acts.
abbrev pub Action : Type 0 → Type 0
Action L = Gateway L → Option (Outcome L)

abbrev pub Handler : Type 0 → Type 0
Handler L = Reader (Action L)

module _ {L : Type 0} where
  -- A call of the driver.
  abbrev pub drive : (Soc → Soc) → Action L
  drive f g = some (running (record g { soc = f g.soc }))

  abbrev pub with_server : Gateway L → Option (ℤ × Server) → Option (Gateway L)
  with_server g none = none
  with_server g (some (_, s)) = some (record g { server = s })

  -- `srpcSend`: as many bytes as the second byte of the message says, and two more.
  unfoldable pub srpc_send : System → Bytes → ℤ → Gateway L → Option (Gateway L)
  srpc_send sys msg fd g =
      let len = get_or msg 1 0 + 2 in
      if leb len (length msg)
      then with_server g (some (socket_sever_send sys.write_result (take len msg) fd g.server))
      else none

  -- `srpcSendAll`
  unfoldable pub srpc_send_all : System → Bytes → Gateway L → Option (Gateway L)
  srpc_send_all sys msg g =
      let len = get_or msg 1 0 + 2 in
      if leb len (length msg)
      then with_server g (socket_sever_send_allclients sys.write_result (take len msg) g.server)
      else none

-- A block of `size` bytes from `malloc`, into which `bs` were written from its start.
unfoldable pub filled : System → ℕ → Bytes → Option Bytes
filled sys size bs =
    if leb (length bs) size then some (take size (bs ++ drop (length bs) sys.fresh)) else none
