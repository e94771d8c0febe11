-- ===== src/CommandLine.antt =====
-- The command line clients: the one that flashes a light
-- (client/CClients/lightFlashCmdLine/Source/flashled.c), the one that opens the network
-- (client/CClients/openNetwork/Source/openNetwork.c), the request of the one that lists the devices
-- (client/CClients/listDevsCmdLine/Source/listdevs.c), and how they send a message
-- (socketClientSendData, client/CClients/Source/socket_client.c).
pub mod Flashed
pub mod Requests
pub mod Sent
pub mod Served
use lighting_gateway.Prelude.{
  if◌then◌else◌, ℕ, ◌%◌, ◌++◌, ◌+◌, ◌-◌, ◌==◌, ◌^◌, ◌∷◌, List, Option, [], length, ltb, none, set,
  some, suc, take, zero,
}
use lighting_gateway.Prelude.Int.{ℤ, negsuc, eq_ℤ}
use lighting_gateway.Prelude.Reading.{Bytes, hi_uint16, lo_uint16}
use lighting_gateway.SocketClient.{srpc_frame_hdr_sz}

-- `msgData_t`; `pData` has 128 places.
pub record MsgData : Type 0 where
  pub cmd_id : ℕ
  pub len : ℕ
  pub p_data : Bytes

-- What was sent; and what `send` will return, given what was sent before and the message.
pub record Line : Type 0 where
  pub sent : List Bytes
  pub send : List Bytes → Bytes → ℤ

pub data Client : Type 0 where
  running : Line → Client
  exited : Line → Client

abbrev pub bytes_of : MsgData → Bytes
bytes_of m = m.cmd_id ∷ m.len ∷ m.p_data

-- `socketClientSendData`; `none` is a read behind the message.
unfoldable pub socket_client_send_data : MsgData → Line → Option Client
socket_client_send_data m l =
    let size = m.len + srpc_frame_hdr_sz in
    let buf = take size (bytes_of m) in
    if ltb (length (bytes_of m)) size
    then none
    else if eq_ℤ (l.send l.sent buf) (negsuc 0)
    then some (exited l)
    else some (running (record l { sent = l.sent ++ buf ∷ [] }))

-- `sendLightState`; `fill` is what the stack holds where the message is put.
unfoldable pub send_light_state : Bytes → (addr addr_mode ep state : ℕ) → Line → Option Client
unfolding socket_client_send_data
send_light_state fill addr addr_mode ep state l =
    let p0 = set fill 0 (addr_mode % 256) in
    let p1 = set p0 1 (lo_uint16 addr) in
    let p2 = set p1 2 (hi_uint16 addr) in
    let p9 = set p2 9 (ep % 256) in
    socket_client_send_data (record { cmd_id = 0x82; len = 15; p_data = set p9 12 state }) l

unfoldable pub and_then : Option Client → (Line → Option Client) → Option Client
and_then none next = none
and_then (some (exited l)) next = some (exited l)
and_then (some (running l)) next = next l

-- `if(loops > 1) loops--; else loops^=1;`, on a `uint16_t`.
unfoldable pub next_loops : ℕ → ℕ
next_loops loops = if ltb 1 loops then loops - 1 else if loops == 0 then 1 else 0

-- `while(loops != 2)`. `none` also if the fuel runs out.
unfoldable pub flash_loop :
    ℕ → Bytes → (addr addr_mode ep start_with loops : ℕ) → Line → Option Client
unfolding send_light_state and_then next_loops
flash_loop zero fill addr addr_mode ep start_with loops l = none
flash_loop (suc fuel) fill addr addr_mode ep start_with loops l =
    let state = if loops % 2 == start_with then 1 else 0 in
    let rest = flash_loop fuel fill addr addr_mode ep start_with (next_loops loops) in
    if loops == 2
    then some (running l)
    else and_then (send_light_state fill addr addr_mode ep state l) rest

-- `main` of flashled.c from the numbers on the command line on, which are put into variables of 16
-- bits, and the address mode and the endpoint into 8.
unfoldable pub flash : ℕ → Bytes → (addr addr_mode ep start_with loops : ℕ) → Line → Option Client
unfolding flash_loop
flash fuel fill addr addr_mode ep start_with loops l =
    let loops' = loops % 2 ^ 16 in
    flash_loop fuel fill (addr % 2 ^ 16) (addr_mode % 2 ^ 8) (ep % 2 ^ 8) start_with
      (if loops' == 0 then 0 else (loops' + 2) % 2 ^ 16) l

-- `sendOpenNetwork`; `JOIN_AUTH_NUM` is 0xEBD4.
unfoldable pub send_open_network : Bytes → ℕ → Line → Option Client
unfolding socket_client_send_data
send_open_network fill duration l =
    let p0 = set fill 0 duration in
    let p1 = set p0 1 (lo_uint16 0xEBD4) in
    socket_client_send_data
      (record { cmd_id = 0x9C; len = 5; p_data = set p1 2 (hi_uint16 0xEBD4) }) l

-- `main` of openNetwork.c, from the number on the command line on.
unfoldable pub open_network : Bytes → ℕ → Line → Option Client
unfolding send_open_network
open_network fill duration l = send_open_network fill (duration % 2 ^ 8) l

-- `srpcSendGetDevices`
unfoldable pub srpc_send_get_devices : Bytes → Line → Option Client
unfolding socket_client_send_data
srpc_send_get_devices fill l =
    socket_client_send_data (record { cmd_id = 0x81; len = 0; p_data = fill }) l
