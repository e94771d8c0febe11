-- ===== src/Tests/Soc/Sending.antt =====
-- Calls of the driver with a lamp at address 0x1234, endpoint 11.
use lighting_gateway.Prelude.{◌++◌, ◌∷◌, ◌≡◌, List, [], arith, some}
use lighting_gateway.Prelude.Reading.{Bytes}
use lighting_gateway.Soc.Port.{Soc, calc_fcs}
use lighting_gateway.Soc.Port.Checksum.{calc_fcs_lem}
use lighting_gateway.Soc.Api.{Target, Call, requests, set_state, set_level, open_nwk, seq_after}
use lighting_gateway.Soc.Api.Sending.{line}
use lighting_gateway.Soc.Api.Heard.{decode_many, heard_run, perform_all, requests_all}

abbrev lamp : Target
lamp = record { dst_addr = 0x1234; endpoint = 11; addr_mode = 2 }

abbrev soc : Soc
soc = record { trans_seq_number = 255; written = [] }

abbrev three : List Call
three = set_state 1 lamp ∷ open_nwk 60 ∷ set_level 128 10 lamp ∷ []

heard_run_example :
    (sent : Bytes) × (line (perform_all three soc) ≡ [] ++ sent)
    × (decode_many 4 sent ≡ some (requests_all three 255))
unfolding requests seq_after
heard_run_example = heard_run three soc (omega arith, (tt, (omega arith, tt)))

calc_fcs_example : calc_fcs (0xFE ∷ 1 ∷ 0x25 ∷ 0x36 ∷ 0 ∷ []) ≡ 0xFE ∷ 1 ∷ 0x25 ∷ 0x36 ∷ 0x12 ∷ []
calc_fcs_example = calc_fcs_lem 0xFE (1 ∷ 0x25 ∷ 0x36 ∷ [])
