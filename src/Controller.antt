-- ===== src/Controller.antt =====
-- The program itself (server/Source/zbController.c): the callbacks from the driver, which keep the
-- device list and tell the clients, and a round of the main loop.
pub mod Answers
pub mod Leaving
pub mod MainLoop
pub mod Start
use lighting_gateway.Prelude.{
  if◌then◌else◌, ℕ, ◌==◌, List, Option, false, none, some, suc, true, zero,
}
use lighting_gateway.Prelude.Int.{ℤ}
use lighting_gateway.Prelude.Reading.{Bytes}
use lighting_gateway.Endpoint.{EpInfo, EpInfoExtended, type_new, type_updated, type_removed}
use lighting_gateway.Lists.{Lists}
use lighting_gateway.Soc.Rpc.{
  Event, Callbacks, Stack, tl_indication, new_dev_indication, zcl_get_state, zcl_get_level,
  zcl_get_hue, zcl_get_sat, zdo_simple_desc_rsp, zdo_leave_ind, util_get_dev_info_rsp,
  zcl_get_model,
}
use lighting_gateway.Soc.Rpc.Receive.{ReadResult, Outcome, handled, zb_soc_process_rpc}
use lighting_gateway.Srpc.{System, Gateway}
use lighting_gateway.Srpc.Reply.{
  srpc_send_ep_info, srpc_call_back_get_state_rsp, srpc_call_back_get_level_rsp,
  srpc_call_back_get_hue_rsp, srpc_call_back_get_sat_rsp,
}

-- `zbSocCbs`
abbrev pub zb_soc_cbs : Callbacks
zb_soc_cbs = record {
  pfn_tl_indication = true;
  pfn_new_dev_indication = true;
  pfn_zcl_get_state = true;
  pfn_zcl_get_level = true;
  pfn_zcl_get_hue = true;
  pfn_zcl_get_sat = true;
  pfn_zdo_simple_desc_rsp = true;
  pfn_zdo_leave_ind = true;
  pfn_util_get_dev_info_rsp = false;
  pfn_zcl_get_model = false;
}

-- `prev` is what an unset `prevNwkAddr` holds.
module _ {L : Type 0} (ops : Lists L) (sys : System) (prev : ℕ) where
  abbrev news : EpInfo → ℕ → ℕ → EpInfoExtended
  news e prev_nwk_addr type = record { ep_info = e; prev_nwk_addr = prev_nwk_addr; type = type }

  abbrev add : EpInfo → Gateway L → Gateway L
  add e g = record g { lists = ops.dev_list_add_device e g.lists }

  abbrev remove : ℕ → ℕ → L → L
  remove nwk_addr endpoint l = (ops.dev_list_remove_device_by_na_ep nwk_addr endpoint l).1

  unfoldable pub tl_indication_cb : EpInfo → Gateway L → Option (Gateway L)
  unfolding srpc_send_ep_info
  tl_indication_cb e g = srpc_send_ep_info sys (news e prev type_new) (add e g)

  unfoldable pub new_dev_indication_cb : EpInfo → Gateway L → Option (Gateway L)
  new_dev_indication_cb e g = some (add e g)

  -- The second half of `zdoSimpleDescRspCb`: `old` is the record with the same IEEE address and
  -- endpoint.
  unfoldable pub simple_desc_known : EpInfo → Option EpInfo × L → Gateway L → Option (Gateway L)
  unfolding srpc_send_ep_info
  simple_desc_known e (none, l) g =
      srpc_send_ep_info sys (news e prev type_new) (add e (record g { lists = l }))
  simple_desc_known e (some old, l) g =
      if e.nwk_addr == old.nwk_addr
      then some (record g { lists = l })
      else srpc_send_ep_info sys (news e old.nwk_addr type_updated)
          (add e (record g { lists = remove old.nwk_addr old.endpoint l }))

  -- `none` is the use of `ieeeEpInfo` where it is `NULL`.
  unfoldable pub simple_desc_of : EpInfo → Option EpInfo × L → Gateway L → Option (Gateway L)
  unfolding simple_desc_known
  simple_desc_of e (none, l) g = none
  simple_desc_of e (some ieee_ep_info, l) g =
      let e' = record e { ieee_addr = ieee_ep_info.ieee_addr } in
      simple_desc_known e'
        (ops.dev_list_get_device_by_ieee_ep e'.ieee_addr e.endpoint (remove e.nwk_addr 0x00 l)) g

  unfoldable pub zdo_simple_desc_rsp_cb : EpInfo → Gateway L → Option (Gateway L)
  unfolding simple_desc_of
  zdo_simple_desc_rsp_cb e g =
      simple_desc_of e (ops.dev_list_get_device_by_na_ep e.nwk_addr 0xFF g.lists) g

  -- The loop of `zdoLeaveIndCb`. `none` also if the fuel runs out.
  unfoldable pub leave_loop : ℕ → ℕ → Gateway L → Option (Gateway L)
  unfolding srpc_send_ep_info
  leave_loop zero nwk_addr g = none
  leave_loop (suc fuel) nwk_addr g =
      let l = remove nwk_addr 0xFF g.lists in
      elim (ops.dev_list_remove_device_by_na_ep nwk_addr 0xFF g.lists).0 [
        | none ↦ some (record g { lists = l })
        | some e ↦
            elim (srpc_send_ep_info sys (news e prev type_removed) (record g { lists = l })) [
              | none ↦ none
              | some g' ↦ leave_loop fuel nwk_addr g'
            ]
      ]

  -- The callback that an event names; the last two are `NULL`, and the driver does not call them.
  unfoldable pub on_event : ℕ → Event → Gateway L → Option (Gateway L)
  unfolding tl_indication_cb new_dev_indication_cb zdo_simple_desc_rsp_cb leave_loop
      srpc_call_back_get_state_rsp srpc_call_back_get_level_rsp srpc_call_back_get_hue_rsp
      srpc_call_back_get_sat_rsp
  on_event fuel (tl_indication e) g = tl_indication_cb e g
  on_event fuel (new_dev_indication e) g = new_dev_indication_cb e g
  on_event fuel (zcl_get_state state nwk_addr endpoint) g =
      srpc_call_back_get_state_rsp sys state nwk_addr endpoint g
  on_event fuel (zcl_get_level level nwk_addr endpoint) g =
      srpc_call_back_get_level_rsp sys level nwk_addr endpoint g
  on_event fuel (zcl_get_hue hue nwk_addr endpoint) g =
      srpc_call_back_get_hue_rsp sys hue nwk_addr endpoint g
  on_event fuel (zcl_get_sat sat nwk_addr endpoint) g =
      srpc_call_back_get_sat_rsp sys sat nwk_addr endpoint g
  on_event fuel (zdo_simple_desc_rsp e) g = zdo_simple_desc_rsp_cb e g
  on_event fuel (zdo_leave_ind nwk_addr) g = leave_loop fuel nwk_addr g
  on_event fuel (util_get_dev_info_rsp _ _ _ _ _) g = none
  on_event fuel (zcl_get_model _) g = none

  unfoldable pub serial_round_of : ℕ → Gateway L → Outcome → Option (Gateway L)
  unfolding on_event
  serial_round_of fuel g (handled none) = none
  serial_round_of fuel g (handled (some none)) = some g
  serial_round_of fuel g (handled (some (some e))) = on_event fuel e g
  serial_round_of fuel g _ = some g

  -- What the main loop does when the serial port has news: the driver reads a message, and its
  -- callback runs.
  unfoldable pub serial_round : ℕ → Stack → Bytes → List ReadResult → Gateway L → Option (Gateway L)
  unfolding zb_soc_process_rpc serial_round_of
  serial_round fuel stack junk reads g =
      serial_round_of fuel g (zb_soc_process_rpc zb_soc_cbs stack junk reads)
