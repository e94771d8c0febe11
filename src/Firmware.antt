-- ===== src/Firmware.antt =====
-- The tools that talk to a chip from the command line: the one that asks it for the name of its model
-- (getFwModel/getFwModel.c), and the one that starts its network first (zbFwStart/zbFwStart.c).
pub mod Asked
pub mod Over
use lighting_gateway.Prelude.{
  if◌then◌else◌, ℕ, ◌++◌, ◌+◌, ◌∷◌, List, Option, [], false, leb, length, ltb, none, some, take,
  true,
}
use lighting_gateway.Prelude.Int.{ℤ, negsuc, eq_ℤ}
use lighting_gateway.Prelude.Reading.{Bytes}
use lighting_gateway.SimpleDb.Consolidation.{codes}
use lighting_gateway.Soc.Port.{Soc, zb_soc_open}
use lighting_gateway.Soc.Command.Network.{zb_soc_get_info, zb_soc_bridge_start_nwk}
use lighting_gateway.Soc.Command.Query.{zb_soc_get_model}
use lighting_gateway.Soc.Rpc.{
  Event, Callbacks, Stack, tl_indication, util_get_dev_info_rsp, zcl_get_model,
}
use lighting_gateway.Soc.Rpc.Receive.{ReadResult, Outcome, handled, zb_soc_process_rpc}

-- `zbSocCbs`
abbrev pub zb_soc_cbs : Callbacks
zb_soc_cbs = record {
  pfn_tl_indication = true;
  pfn_new_dev_indication = false;
  pfn_zcl_get_state = false;
  pfn_zcl_get_level = false;
  pfn_zcl_get_hue = false;
  pfn_zcl_get_sat = false;
  pfn_zdo_simple_desc_rsp = false;
  pfn_zdo_leave_ind = false;
  pfn_util_get_dev_info_rsp = true;
  pfn_zcl_get_model = true;
}

-- The chip, `timeoutCnt` and what was printed.
pub record Tool : Type 0 where
  pub soc : Soc
  pub timeout_cnt : ℕ
  pub output : Bytes

pub data Progress : Type 0 where
  running : Tool → Progress
  exited : Tool → Progress

-- What `poll` waits for: a message, with what it meets in the memory of the driver and the results of
-- the reads, or half a second.
pub data PollResult : Type 0 where
  news : Stack → Bytes → List ReadResult → PollResult
  timeout : PollResult

abbrev pub print : Bytes → Tool → Tool
print text t = record t { output = t.output ++ text }

abbrev pub ask_model : ℕ → Tool → Tool
ask_model nwk_addr t = record t { soc = zb_soc_get_model nwk_addr 0xFF 2 t.soc }

-- `zclGetModelCb`: the first byte is the number of characters. `none` is a read past the end.
unfoldable pub zcl_get_model_cb : Bytes → Tool → Option Progress
zcl_get_model_cb [] t = none
zcl_get_model_cb (len ∷ chars) t =
    if leb len (length chars)
    then some (exited (print (codes "Model ID:" ++ (take len chars ++ 10 ∷ [])) t))
    else none

-- The callback that an event names; the others are `NULL`, and the driver does not call them.
unfoldable pub model_event : Event → Tool → Option Progress
unfolding zcl_get_model_cb zb_soc_get_model
model_event (tl_indication e) t = some (running t)
model_event (util_get_dev_info_rsp status nwk_addr ieee_addr dev_type dev_state) t =
    some (running (ask_model nwk_addr t))
model_event (zcl_get_model model_id) t = zcl_get_model_cb model_id t
model_event _ t = none

-- A message that never becomes whole (`waiting`) counts as the end of the round here.
unfoldable pub received : Outcome → Tool → Option Progress
unfolding model_event
received (handled none) t = none
received (handled (some none)) t = some (running t)
received (handled (some (some e))) t = model_event e t
received _ t = some (running t)

-- What a round does after half a second without a message.
unfoldable pub timed_out : Tool → Progress
unfolding zb_soc_get_info zb_soc_get_model
timed_out t =
    let t' = record t { timeout_cnt = t.timeout_cnt + 1 } in
    if ltb 5 t'.timeout_cnt
    then exited (print (codes "Unknown model" ++ 10 ∷ []) t')
    else if ltb 3 t'.timeout_cnt
    then running (ask_model 0x0000 t')
    else running (record t' { soc = zb_soc_get_info t.soc })

unfoldable pub poll_round : PollResult → Tool → Option Progress
unfolding received timed_out zb_soc_process_rpc
poll_round (news stack junk reads) t = received (zb_soc_process_rpc zb_soc_cbs stack junk reads) t
poll_round timeout t = some (timed_out t)

unfoldable pub go_on : (Tool → Option Progress) → Option Progress → Option Progress
go_on loop none = none
go_on loop (some (exited t)) = some (exited t)
go_on loop (some (running t)) = loop t

-- `while (1)`, for as many rounds as are given.
unfoldable pub model_loop : List PollResult → Tool → Option Progress
unfolding poll_round go_on
model_loop [] t = some (running t)
model_loop (p ∷ ps) t = go_on (model_loop ps) (poll_round p t)

unfoldable pub model_from : (Soc → Soc) → List PollResult → ℤ × Soc → Option Progress
unfolding model_loop zb_soc_get_info
model_from before ps (fd, soc) =
    let t : Tool = record { soc = soc; timeout_cnt = 0; output = [] } in
    if eq_ℤ fd (negsuc 0)
    then some (exited t)
    else model_loop ps (record t { soc = zb_soc_get_info (before soc) })

-- `main` of getFwModel.c; the first argument is what `open` returns.
unfoldable pub get_fw_model : ℤ → List PollResult → Soc → Option Progress
unfolding model_from zb_soc_open
get_fw_model fd ps soc = model_from (λ s. s) ps (zb_soc_open fd soc)

-- `main` of zbFwStart.c, whose loop and callbacks are the same.
unfoldable pub zb_fw_start : ℤ → List PollResult → Soc → Option Progress
unfolding model_from zb_soc_open zb_soc_bridge_start_nwk
zb_fw_start fd ps soc = model_from zb_soc_bridge_start_nwk ps (zb_soc_open fd soc)
