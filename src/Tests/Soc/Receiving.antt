-- ===== src/Tests/Soc/Receiving.antt =====
-- A lamp tells that it is on; the serial port brings the report in pieces.
use lighting_gateway.Prelude.{◌∷◌, ◌≡◌, List, [], arith, refl, some, true}
use lighting_gateway.Endpoint.{zero_ep_info}
use lighting_gateway.Soc.Rpc.{Callbacks, Stack, zcl_get_state}
use lighting_gateway.Soc.Rpc.Receive.{ReadResult, got, failed, handled, zb_soc_process_rpc}
use lighting_gateway.Soc.Rpc.Report.{attribute, on_off, render, due}
use lighting_gateway.Soc.Rpc.Report.Delivery.{received_report}

abbrev callbacks : Callbacks
callbacks = record {
  pfn_tl_indication = true;
  pfn_new_dev_indication = true;
  pfn_zcl_get_state = true;
  pfn_zcl_get_level = true;
  pfn_zcl_get_hue = true;
  pfn_zcl_get_sat = true;
  pfn_zdo_simple_desc_rsp = true;
  pfn_zdo_leave_ind = true;
  pfn_util_get_dev_info_rsp = true;
  pfn_zcl_get_model = true;
}

abbrev stack : Stack
stack = record {
  sof_byte = 0;
  ep_info = zero_ep_info;
  nwk_addr = 0;
  ieee_addr = [];
  dev_type = 0;
  dev_state = 0;
}

-- Payload of 17 bytes, 0x0B to the value, in three pieces; one read fails.
abbrev pieces : List ReadResult
pieces =
    got (0x49 ∷ 0x80 ∷ 0x0B ∷ 0x34 ∷ [])
    ∷ failed
    ∷ got (0x12 ∷ 11 ∷ 6 ∷ 0 ∷ 8 ∷ 0 ∷ 7 ∷ 1 ∷ 0 ∷ 0 ∷ [])
    ∷ got (0 ∷ 0x10 ∷ 1 ∷ 0x55 ∷ [])
    ∷ []

received_report_example :
    zb_soc_process_rpc callbacks stack [] (got (0xFE ∷ []) ∷ got (15 ∷ []) ∷ pieces)
    ≡ handled (some (some (zcl_get_state 1 0x1234 11)))
unfolding render due
received_report_example =
    received_report callbacks stack [] (attribute on_off 1 0x1234 11 7) (0x55 ∷ []) 15 pieces
      (omega arith) refl refl (omega arith) (omega arith)
