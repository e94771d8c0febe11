-- ===== src/Tests/Firmware.antt =====
-- A chip that is asked for the name of its model.
use lighting_gateway.Prelude.{◌++◌, ◌∷◌, ◌≡◌, List, [], arith, length, refl, some}
use lighting_gateway.Prelude.Int.{pos}
use lighting_gateway.Prelude.Reading.{Bytes, bytes}
use lighting_gateway.SimpleDb.Consolidation.{codes}
use lighting_gateway.Soc.Port.{Soc, force_boot}
use lighting_gateway.Soc.Api.{Target, get_model, bridge_start_nwk}
use lighting_gateway.Soc.Api.Heard.{requests_all, decode_many}
use lighting_gateway.Soc.Api.Sending.{line}
use lighting_gateway.Soc.Rpc.Receive.{ReadResult, got, zb_soc_process_rpc}
use lighting_gateway.Firmware.{
  Tool, PollResult, exited, news, timeout, model_loop, get_fw_model, zb_fw_start,
}
use lighting_gateway.Firmware.Over.{IsOver, tools-IsOver}
use lighting_gateway.Firmware.Asked.{silent_calls, zb_fw_start-unanswered, model_told}
use lighting_gateway.Tests.Controller.{stack}

abbrev soc : Soc
soc = record { trans_seq_number = 255; written = [] }

-- The node has the address 0x1234.
abbrev info_reads : List ReadResult
info_reads =
    got (0xFE ∷ [])
    ∷ got (13 ∷ [])
    ∷ got (0x67 ∷ 0x00 ∷ 0 ∷ 1 ∷ 2 ∷ 3 ∷ 4 ∷ 5 ∷ 6 ∷ 7 ∷ 8 ∷ 0x34 ∷ 0x12 ∷ 7 ∷ 9 ∷ 0x55 ∷ [])
    ∷ []

-- The model is called "ZB".
abbrev model_reads : List ReadResult
model_reads =
    got (0xFE ∷ [])
    ∷ got (17 ∷ [])
    ∷ got (
        0x49 ∷ 0x80 ∷ 0x0B ∷ 0x34 ∷ 0x12 ∷ 11 ∷ 0 ∷ 0 ∷ 10 ∷ 0 ∷ 7 ∷ 1 ∷ 5 ∷ 0 ∷ 0 ∷ 0x42 ∷ 2 ∷ 0x5A
        ∷ 0x42 ∷ 0x55 ∷ [])
    ∷ []

abbrev answered_rounds : List PollResult
answered_rounds = news stack [] info_reads ∷ news stack [] model_reads ∷ []

abbrev silent : List PollResult
silent = timeout ∷ timeout ∷ timeout ∷ timeout ∷ timeout ∷ timeout ∷ []

abbrev tool : Tool
tool = record { soc = soc; timeout_cnt = 2; output = [] }

tools_example :
    IsOver (get_fw_model (pos 3) (news stack [] info_reads ∷ silent) soc)
    × IsOver (zb_fw_start (pos 3) (news stack [] info_reads ∷ silent) soc)
tools_example = tools-IsOver (pos 3) (news stack [] info_reads ∷ silent) soc (omega arith)

unanswered_example :
    (t : Tool) × (sent : Bytes) × (zb_fw_start (pos 3) silent soc ≡ some (exited t))
    × (t.output ≡ codes "Unknown model" ++ 10 ∷ [])
    × (line t.soc ≡ line soc ++ (force_boot ++ sent))
    × (decode_many (length (requests_all (bridge_start_nwk ∷ silent_calls) 255)) sent
        ≡ some (requests_all (bridge_start_nwk ∷ silent_calls) 255))
unanswered_example = zb_fw_start-unanswered (pos 3) soc refl

told_example :
    (t' : Tool) × (sent : Bytes) × (model_loop answered_rounds tool ≡ some (exited t'))
    × (t'.output ≡ codes "Model ID:" ++ (0x5A ∷ 0x42 ∷ [] ++ 10 ∷ []))
    × (line t'.soc ≡ line soc ++ sent)
    × (let asked : Target = record { dst_addr = 0x1234; endpoint = 0xFF; addr_mode = 2 } in
        decode_many (length (requests_all (get_model asked ∷ []) 255)) sent
        ≡ some (requests_all (get_model asked ∷ []) 255))
unfolding zb_soc_process_rpc bytes
told_example =
    model_told stack stack [] [] info_reads model_reads 0 0x1234
      (1 ∷ 2 ∷ 3 ∷ 4 ∷ 5 ∷ 6 ∷ 7 ∷ 8 ∷ []) 7 9 (0x5A ∷ 0x42 ∷ []) (0x55 ∷ []) tool (omega arith)
      refl refl
