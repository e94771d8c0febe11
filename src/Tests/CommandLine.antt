-- ===== src/Tests/CommandLine.antt =====
-- A light that is flashed three times, and a network that is opened for a minute.
use lighting_gateway.Prelude.{
  ◌++◌, ◌∷◌, ◌≡◌, List, [], arith, concat, inl, inr, length, none, refl, replicate, some,
}
use lighting_gateway.Prelude.Int.{ℤ, pos}
use lighting_gateway.Prelude.Reading.{Bytes}
use lighting_gateway.Endpoint.{EpInfo}
use lighting_gateway.Sockets.{idle}
use lighting_gateway.Soc.Api.{open_nwk}
use lighting_gateway.Soc.Api.Heard.{requests_all, decode_many}
use lighting_gateway.Soc.Api.Sending.{line}
use lighting_gateway.Srpc.{Gateway}
use lighting_gateway.Srpc.Incoming.{rx_loop}
use lighting_gateway.Srpc.Incoming.Stream.{Frame, frame_bytes, reads}
use mathlib.Core.List.{map}
use lighting_gateway.CommandLine.{Line, Client, flash, open_network}
use lighting_gateway.CommandLine.Flashed.{alternating, flash-endless}
use lighting_gateway.CommandLine.Served.{state_calls, flash_heard}
use lighting_gateway.CommandLine.Requests.{open_network_heard}
use lighting_gateway.Tests.Memory.{memory}
use lighting_gateway.Tests.Srpc.{gateway, system, lamp}

abbrev fill : Bytes
fill = replicate 128 7

abbrev works : List Bytes → Bytes → ℤ
works before buf = pos (length buf)

abbrev new_line : Line
new_line = record { sent = []; send = works }

flash_example :
    (l : Line) × (frames : List Frame) × (g' : Gateway (List EpInfo)) × (sent : Bytes) × (flash 4
        fill 0x1234 2 11 0 3 new_line
      ≡ some (Client.running l))
    × (l.sent ≡ map frame_bytes frames)
    × (rx_loop memory system
          (pos 4)
          (map reads frames)
          (pos (length (concat (map frame_bytes frames))))
          gateway
        ≡ some (idle g'))
    × (line g'.soc ≡ line gateway.soc ++ sent)
    × (decode_many (length (requests_all (state_calls lamp (alternating 0 3)) 7)) sent
        ≡ some (requests_all (state_calls lamp (alternating 0 3)) 7))
flash_example =
    flash_heard memory system (pos 4) fill 3 4 0 lamp works gateway (omega arith) (omega arith)
      (omega arith) refl (λ before buf. refl) (omega arith) (omega arith) (omega arith)

endless_example : flash 100 fill 0x1234 2 11 0 65534 new_line ≡ none
endless_example =
    flash-endless 65534 100 fill 0x1234 2 11 0 new_line (inr (inl refl)) refl (λ before buf. refl)

open_example :
    (frame : Frame) × (g' : Gateway (List EpInfo)) × (sent : Bytes) × (open_network fill 60 new_line
      ≡ some (Client.running (record new_line { sent = frame_bytes frame ∷ [] })))
    × (rx_loop memory system (pos 4) (reads frame ∷ []) (pos (length (frame_bytes frame))) gateway
        ≡ some (idle g'))
    × (line g'.soc ≡ line gateway.soc ++ sent)
    × (decode_many (length (requests_all (open_nwk 60 ∷ []) 7)) sent
        ≡ some (requests_all (open_nwk 60 ∷ []) 7))
open_example =
    open_network_heard memory system (pos 4) fill 60 new_line gateway (omega arith) refl
      (λ before buf. refl)
