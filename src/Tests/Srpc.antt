-- ===== src/Tests/Srpc.antt =====
-- A client on socket 4 with a lamp at address 0x1234, endpoint 11.
use mathlib.Core.List.{map}
use lighting_gateway.Prelude.{
  ◌++◌, ◌+◌, ◌∷◌, ◌≡◌, List, [], arith, concat, get_or, length, refl, some,
}
use lighting_gateway.Prelude.Int.{pos}
use lighting_gateway.Prelude.Reading.{Bytes}
use lighting_gateway.Endpoint.{EpInfo, type_new}
use lighting_gateway.Soc.Api.{Target, perform, add_group}
use lighting_gateway.Soc.Api.Sending.{line}
use lighting_gateway.Soc.Api.Heard.{decode_many, requests_all}
use lighting_gateway.Srpc.{System, Gateway, running, exited}
use lighting_gateway.Sockets.{idle}
use lighting_gateway.Srpc.Incoming.{rx_loop, srpc_process_incoming}
use lighting_gateway.Srpc.Incoming.Stream.{frame_bytes, reads, handle_all, rx_loop_lem}
use lighting_gateway.Srpc.Client.{Address, Message, calls, light, join, switch, dim}
use lighting_gateway.Srpc.Client.Run.{frame_of, run_heard}
use lighting_gateway.Srpc.Reply.{srpc_parse_ep_info}
use lighting_gateway.Srpc.Reply.Device.{read_device, named, read_device_lem}
use lighting_gateway.Srpc.Store.Groups.{group_answer, wrote, add_group_message, group_added}
use lighting_gateway.Srpc.Store.Devices.{wrote_each, devices_told, close_authorised}
use lighting_gateway.Tests.Memory.{memory}

abbrev pub lamp : Target
lamp = record { dst_addr = 0x1234; endpoint = 11; addr_mode = 2 }

abbrev at_lamp : Address
at_lamp = record { target = lamp; fill = []; pan = [] }

abbrev pub device : EpInfo
device = record {
  ieee_addr = 1 ∷ 2 ∷ 3 ∷ 4 ∷ 5 ∷ 6 ∷ 7 ∷ 8 ∷ [];
  nwk_addr = 0x1234;
  endpoint = 11;
  profile_id = 0xC05E;
  device_id = 0x0100;
  version = 2;
  device_name = some (0x4C ∷ 0x31 ∷ []);
  status = 0;
  flags = 0;
}

abbrev pub gateway : Gateway (List EpInfo)
gateway = record {
  soc = record { trans_seq_number = 7; written = [] };
  server = record { records = pos 3 ∷ pos 4 ∷ pos 5 ∷ []; closed = []; written = [] };
  lists = device ∷ [];
}

abbrev pub system : System
system = record { write_result = λ fd. pos 2; fresh = [] }

abbrev pub messages : List Message
messages = light (switch 1) at_lamp ∷ join 60 0xEBD4 ∷ light (dim 128 10) at_lamp ∷ []

abbrev kitchen : Bytes
kitchen = 0x4B ∷ 0x31 ∷ []

run_heard_example :
    (g' : Gateway (List EpInfo)) × (sent : Bytes) × (rx_loop memory system
        (pos 4)
        (map reads (map frame_of messages))
        (pos (length (concat (map frame_bytes (map frame_of messages)))))
        gateway
      ≡ some (idle g'))
    × (line g'.soc ≡ line gateway.soc ++ sent)
    × (decode_many (length (requests_all (concat (map calls messages)) 7)) sent
        ≡ some (requests_all (concat (map calls messages)) 7))
run_heard_example =
    run_heard memory system (pos 4) messages gateway
      ((omega arith, tt), (omega arith, ((omega arith, omega arith), tt)))

rx_loop_example :
    rx_loop memory system (pos 4) (map reads (map frame_of messages)) (pos 37) gateway
    ≡ handle_all memory system (pos 4) (map frame_of messages) gateway
rx_loop_example =
    rx_loop_lem memory system (pos 4) (map frame_of messages) gateway
      (omega arith, (omega arith, (omega arith, tt)))

read_device_example :
    (msg : Bytes) × (srpc_parse_ep_info system
        (record { ep_info = device; prev_nwk_addr = 0; type = type_new })
      ≡ some msg)
    × (length msg ≡ get_or msg 1 0 + 2)
    × (read_device msg
        ≡ some (named (record { ep_info = device; prev_nwk_addr = 0; type = type_new }), []))
read_device_example =
    read_device_lem system (record { ep_info = device; prev_nwk_addr = 0; type = type_new })
      ((refl, omega arith), omega arith, omega arith, omega arith, omega arith)

group_added_example :
    srpc_process_incoming memory system (pos 4) (add_group_message at_lamp kitchen []) gateway
    ≡ some (
        running (record gateway {
          soc = perform (add_group 1 lamp) gateway.soc;
          server = wrote (pos 4) (group_answer 1 kitchen) gateway.server;
        }))
unfolding memory
group_added_example =
    group_added memory system (pos 4) at_lamp kitchen [] gateway (omega arith)
      (ground arith, (ground arith, tt)) (omega arith) refl

devices_told_example :
    srpc_process_incoming memory system (pos 4) (0x81 ∷ 0 ∷ []) gateway
    ≡ some (running (record gateway { server = wrote_each (pos 4) (device ∷ []) gateway.server }))
unfolding memory
devices_told_example = devices_told memory system (pos 4) [] gateway ((refl, omega arith), tt) refl

close_authorised_example :
    srpc_process_incoming memory system (pos 4) (0x80 ∷ 2 ∷ 0x36 ∷ 0x25 ∷ []) gateway
    ≡ some (
        exited (record gateway {
          server = record gateway.server {
            records = pos 3 ∷ [];
            closed = pos 4 ∷ pos 5 ∷ pos 3 ∷ [];
          };
        }))
close_authorised_example =
    close_authorised memory system (pos 4) 0x2536 [] gateway (pos 3) (pos 4 ∷ pos 5 ∷ [])
      (omega arith) refl (omega arith) (refl, (refl, tt)) refl
