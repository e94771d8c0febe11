-- ===== src/Srpc/Store/Devices.antt =====
-- Devices: what a client is told of them, the change of a name, and the end of the server.
use lighting_gateway.Prelude.{
  if◌then◌else◌, ℕ, ◌++◌, ◌<◌, ◌==◌, ◌∙◌, ◌∷◌, ◌≡◌, All, Bool-cases, List, [], ap, false, inl, inr,
  length, refl, some,
}
use lighting_gateway.Prelude.Int.{ℤ, pos, eq_ℤ}
use lighting_gateway.Prelude.Reading.{Bytes, build_uint16_lem}
use lighting_gateway.Endpoint.{EpInfo, EpInfoExtended, type_existing}
use lighting_gateway.Lists.{Lists}
use lighting_gateway.Sockets.{Server, max_clients}
use lighting_gateway.Sockets.Close.{IsClient, socket_sever_close_done}
use lighting_gateway.Soc.Wire.{word}
use lighting_gateway.Soc.Wire.RoundTrip.{IsWord}
use lighting_gateway.Srpc.{System, Gateway, running, exited}
use lighting_gateway.Srpc.Reply.{send_made}
use lighting_gateway.Srpc.Reply.Device.{
  IsDevice, device_message_of, length-device_message_of, srpc_parse_ep_info_lem,
}
use lighting_gateway.Srpc.Store.{
  device_message, send_each, srpc_get_devices, srpc_close, closed, finish,
}
use lighting_gateway.Srpc.Store.Groups.{wrote, srpc_send_lem}
use lighting_gateway.Srpc.Incoming.{srpc_process_incoming}

-- What a client is told of a device in the list.
abbrev pub existing : EpInfo → EpInfoExtended
existing e = record {
  ep_info = record e { flags = 0 };
  prev_nwk_addr = 0xFFFF;
  type = type_existing;
}

-- One message each.
abbrev pub wrote_each : ℤ → List EpInfo → Server → Server
wrote_each fd [] s = s
wrote_each fd (e ∷ es) s = wrote_each fd es (wrote fd (device_message_of (existing e)) s)

module _ {L : Type 0} (ops : Lists L) (sys : System) (fd : ℤ) where
  send_each_lem :
      (es : List EpInfo) (g : Gateway L)
      → All IsDevice es
      → eq_ℤ fd (pos 0) ≡ false
      → send_each ops sys (device_message sys) es fd g
        ≡ some (record g { server = wrote_each fd es g.server })
  unfolding send_each device_message
  send_each_lem [] g d open_fd = refl
  send_each_lem (e ∷ es) g d open_fd =
      let first : send_made sys (device_message sys e) fd g
          ≡ some (record g { server = wrote fd (device_message_of (existing e)) g.server }) =
        ap (λ m. send_made sys m fd g) (srpc_parse_ep_info_lem sys (existing e) d.0)
        ∙ srpc_send_lem ops sys fd (device_message_of (existing e)) g
            (length-device_message_of (existing e) d.0) open_fd in
      rw (send_each, first)
        (send_each_lem es (record g { server = wrote fd (device_message_of (existing e)) g.server })
          d.1 open_fd)

  -- A client that asks for the devices, on a socket other than 0, gets one message for each device
  -- in the list, in its order, marked as existing; the lists are as going through the devices
  -- leaves them, and nothing else changes, if every device has an IEEE address of eight bytes and a
  -- name of at most 233.
  pub devices_told :
      (rest : Bytes) (g : Gateway L)
      → All IsDevice (ops.devices g.lists).0
      → eq_ℤ fd (pos 0) ≡ false
      → srpc_process_incoming ops sys fd (0x81 ∷ 0 ∷ rest) g
        ≡ some (
            running (record g {
              server = wrote_each fd (ops.devices g.lists).0 g.server;
              lists = (ops.devices g.lists).1;
            }))
  unfolding srpc_process_incoming srpc_get_devices
  devices_told rest g d open_fd = ap (finish ops sys) (
      send_each_lem (ops.devices g.lists).0 (record g { lists = (ops.devices g.lists).1 }) d
        open_fd)

  -- A message to close the server, with a sixteen-bit authorisation number, closes all clients and
  -- the listening socket and ends the process if the number is 0x2536, and changes nothing
  -- otherwise; with fewer than fifty clients, none of them with the number of the listening socket,
  -- which is not 0.
  pub close_authorised :
      (magic : ℕ) (rest : Bytes) (g : Gateway L) (listening : ℤ) (clients : List ℤ)
      → IsWord magic
      → g.server.records ≡ listening ∷ clients
      → length clients < max_clients
      → All (IsClient listening) clients
      → IsClient listening (pos 0)
      → srpc_process_incoming ops sys fd (0x80 ∷ 2 ∷ word magic rest) g
        ≡ some (
            if magic == 0x2536
            then exited (record g {
              server = record g.server {
                records = listening ∷ [];
                closed = (g.server.closed ++ clients) ++ listening ∷ [];
              };
            })
            else running g)
  unfolding srpc_process_incoming srpc_close
  close_authorised magic rest g listening clients w e short others nonzero =
      rw (build_uint16_lem magic w) (elim (Bool-cases (magic == 0x2536)) [
        | inl known ↦ rw known (
            ap (closed ops sys g)
              (socket_sever_close_done listening g.server clients e short others nonzero))
        | inr other ↦ rw other refl
      ])
