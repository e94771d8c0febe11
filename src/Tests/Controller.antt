-- ===== src/Tests/Controller.antt =====
-- A lamp answers and leaves, with two clients connected.
use lighting_gateway.Prelude.{
  if◌then◌else◌, ◌++◌, ◌∷◌, ◌≡◌, List, [], arith, concat, length, refl, some,
}
use mathlib.Core.List.{map}
use lighting_gateway.Prelude.Int.{ℤ, pos, negsuc, eq_ℤ}
use lighting_gateway.Prelude.Reading.{Bytes}
use lighting_gateway.Sockets.{idle, ended}
use lighting_gateway.Sockets.Records.{Keeps}
use lighting_gateway.Soc.Api.Heard.{requests_all, decode_many}
use lighting_gateway.Soc.Api.Sending.{line}
use lighting_gateway.Srpc.Client.{Message}
use lighting_gateway.Srpc.Client.Run.{frame_of}
use lighting_gateway.Srpc.Incoming.Stream.{frame_bytes, reads}
use lighting_gateway.Srpc.Incoming.Kept.{sockets}
use lighting_gateway.Controller.MainLoop.{Ready, Round, main_round}
use lighting_gateway.Controller.MainLoop.Turns.{heard_calls}
use lighting_gateway.Controller.Start.{Opened, main, main-Keeps}
use lighting_gateway.Controller.MainLoop.Obeyed.{Served, round_heard, round_answered}
use lighting_gateway.Controller.MainLoop.Lost.{round-ended}
use lighting_gateway.Endpoint.{EpInfo, zero_ep_info}
use lighting_gateway.Soc.Rpc.{Stack}
use lighting_gateway.Soc.Rpc.Receive.{ReadResult, got, failed, zb_soc_process_rpc}
use lighting_gateway.Soc.Rpc.Report.{on_off, render}
use lighting_gateway.Srpc.{Gateway, System}
use lighting_gateway.Controller.{serial_round}
use lighting_gateway.Controller.Answers.{told_all, answered}
use lighting_gateway.Tests.Memory.{memory}
use lighting_gateway.Tests.Srpc.{gateway, system, messages}

abbrev pub stack : Stack
stack = record {
  sof_byte = 0;
  ep_info = zero_ep_info;
  nwk_addr = 0;
  ieee_addr = [];
  dev_type = 0;
  dev_state = 0;
}

abbrev pieces : List ReadResult
pieces =
    got (0x49 ∷ 0x80 ∷ 0x0B ∷ 0x34 ∷ [])
    ∷ failed
    ∷ got (0x12 ∷ 11 ∷ 6 ∷ 0 ∷ 8 ∷ 0 ∷ 7 ∷ 1 ∷ 0 ∷ 0 ∷ [])
    ∷ got (0 ∷ 0x10 ∷ 1 ∷ 0x55 ∷ [])
    ∷ []

answered_example :
    serial_round memory system 0 1 stack [] (got (0xFE ∷ []) ∷ got (15 ∷ []) ∷ pieces) gateway
    ≡ some (record gateway {
      server = told_all (0x07 ∷ 4 ∷ 0x34 ∷ 0x12 ∷ 11 ∷ 1 ∷ []) (pos 4 ∷ pos 5 ∷ []) gateway.server;
    })
unfolding render
answered_example =
    answered memory system 0 1 stack [] on_off 1 0x1234 11 7 (0x55 ∷ []) 15 pieces (pos 3)
      (pos 4 ∷ pos 5 ∷ []) gateway (omega arith) refl refl (omega arith) (omega arith) refl
      (refl, (refl, tt))

-- `poll` reports that a new client connects as 9, that client 4 speaks and hangs up, and that client 5
-- has data.
abbrev said : ℤ → List Message
said fd = if eq_ℤ fd (pos 4) then messages else []

abbrev ready : ℤ → Ready
ready fd = record {
  revents = if eq_ℤ fd (pos 4) then 0x2001 else 1;
  accepted = pos 9;
  byte_to_read = pos (length (concat (map frame_bytes (map frame_of (said fd)))));
  reads = map reads (map frame_of (said fd));
}

abbrev speaking_round : Round
speaking_round = record {
  serial_revents = 0;
  stack = stack;
  junk = [];
  serial_reads = [];
  ready = ready;
}

round_heard_example :
    (g' : Gateway (List EpInfo)) × (sent : Bytes) × (main_round memory system 0 speaking_round
        gateway
      ≡ some (idle g'))
    × (g'.server
        ≡ record { records = pos 3 ∷ pos 5 ∷ pos 9 ∷ []; closed = pos 4 ∷ []; written = [] })
    × (line g'.soc ≡ line gateway.soc ++ sent)
    × (decode_many (length (requests_all (heard_calls ready said (pos 4 ∷ pos 5 ∷ [])) 7)) sent
        ≡ some (requests_all (heard_calls ready said (pos 4 ∷ pos 5 ∷ [])) 7))
round_heard_example =
    round_heard memory system 0 speaking_round said (pos 3) (pos 4 ∷ pos 5 ∷ []) gateway refl refl
      (refl, (refl, (refl, tt))) (omega arith)
      (
        (refl, refl, ((omega arith, tt), (omega arith, ((omega arith, omega arith), tt)))),
        ((refl, refl, tt), tt),
      )

-- In the same round the lamp tells its state.
round_answered_example :
    Served ready said
      (pos 3)
      (pos 4 ∷ pos 5 ∷ [])
      (record gateway {
        server =
            told_all (0x07 ∷ 4 ∷ 0x34 ∷ 0x12 ∷ 11 ∷ 1 ∷ []) (pos 4 ∷ pos 5 ∷ []) gateway.server;
      })
      (main_round memory system 0
        (record speaking_round {
          serial_revents = 1;
          serial_reads = got (0xFE ∷ []) ∷ got (15 ∷ []) ∷ pieces;
        })
        gateway)
unfolding render
round_answered_example =
    round_answered memory system 0 stack [] ready 1 on_off 1 0x1234 11 7 (0x55 ∷ []) 15 pieces said
      (pos 3) (pos 4 ∷ pos 5 ∷ []) gateway refl (omega arith) refl refl (omega arith) (omega arith)
      refl (refl, (refl, tt)) (refl, (refl, (refl, tt))) (omega arith)
      (
        (refl, refl, ((omega arith, tt), (omega arith, ((omega arith, omega arith), tt)))),
        ((refl, refl, tt), tt),
      )

-- The lamp tells its level; the write to client 4 fails, and `poll` has reported data from it.
abbrev fails_at_4 : System
fails_at_4 = record { write_result = λ fd. if eq_ℤ fd (pos 4) then negsuc 0 else pos 2; fresh = [] }

abbrev level_pieces : List ReadResult
level_pieces =
    got (0xFE ∷ [])
    ∷ got (15 ∷ [])
    ∷ got (
        0x49 ∷ 0x80 ∷ 0x0B ∷ 0x34 ∷ 0x12 ∷ 11 ∷ 8 ∷ 0 ∷ 8 ∷ 0 ∷ 7 ∷ 1 ∷ 0 ∷ 0 ∷ 0 ∷ 0x20 ∷ 200
        ∷ 0x55 ∷ [])
    ∷ []

abbrev lost : ℤ → Ready
lost fd = record {
  revents = if eq_ℤ fd (pos 4) then 1 else 0;
  accepted = pos 9;
  byte_to_read = pos 32767;
  reads = (failed, failed) ∷ [];
}

abbrev lost_round : Round
lost_round = record {
  serial_revents = 1;
  stack = stack;
  junk = [];
  serial_reads = level_pieces;
  ready = lost;
}

abbrev closed_gateway : Gateway (List EpInfo)
closed_gateway = record gateway { server = record { records = []; closed = []; written = [] } }

abbrev opened : Opened
opened = record { serial_port = pos 7; listening = pos 3; bound = pos 0 }

main_example :
    Keeps sockets (pos 3) (
      main memory system 0 opened
        (speaking_round ∷ lost_round ∷ speaking_round ∷ [])
        closed_gateway)
main_example =
    main-Keeps memory system 0 opened (speaking_round ∷ lost_round ∷ speaking_round ∷ [])
      closed_gateway refl

round-ended_example :
    main_round memory fails_at_4 0 lost_round gateway
    ≡ some (
        ended (record gateway {
          server = record {
            records = pos 3 ∷ pos 5 ∷ [];
            closed = pos 4 ∷ [];
            written = (pos 4, 0x08 ∷ 4 ∷ 0x34 ∷ 0x12 ∷ 11 ∷ 200 ∷ []) ∷ [];
          };
        }))
unfolding zb_soc_process_rpc
round-ended_example =
    round-ended memory fails_at_4 0 lost_round (pos 3) (pos 4) [] (pos 5 ∷ []) 200 0x1234 11 gateway
      refl refl refl (omega arith) tt refl refl (refl, tt) (refl, refl, [], refl)
