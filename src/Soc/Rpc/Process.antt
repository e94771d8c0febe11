-- ===== src/Soc/Rpc/Process.antt =====
-- The dispatch of a received message by its subsystem and its command: `processRpcSysApp`,
-- `processRpcSysZdo`, `processRpcSysUtil`, `processRpcSysDbg` and the switch of `zbSocProcessRpc`
-- (zbSocDriver/zbSocCmd.c). What is only printed is left out.
use lighting_gateway.Prelude.{if◌then◌else◌, ℕ, ◌==◌, Option, bit_and}
use lighting_gateway.Prelude.Reading.{Reader, byte, ◌>>=◌, ◌>>◌}
use lighting_gateway.Soc.Rpc.{Event, Callbacks, Stack, nothing}
use lighting_gateway.Soc.Rpc.Zcl.{process_rpc_sys_app_tl_ind, process_rpc_sys_app_zcl}
use lighting_gateway.Soc.Rpc.Zdo.{
  process_rpc_sys_zdo_end_device_annce_ind, process_rpc_sys_zdo_active_ep_rsp,
  process_rpc_sys_zdo_simple_desc_rsp, process_rpc_sys_zdo_leave_ind,
  process_rpc_util_get_dev_info_rsp,
}

-- The pointer stands behind `rpcBuff[1]`, whose value is the argument.
unfoldable pub process_rpc_sys_app : Callbacks → Stack → ℕ → Reader (Option Event)
unfolding process_rpc_sys_app_tl_ind process_rpc_sys_app_zcl
process_rpc_sys_app cb stack command =
    if command == 0x81
    then process_rpc_sys_app_tl_ind cb stack
    else if command == 0x80
    then process_rpc_sys_app_zcl cb
    else if command == 0
    then (byte >> nothing)
    else nothing

unfoldable pub process_rpc_sys_zdo : Callbacks → Stack → ℕ → Reader (Option Event)
unfolding process_rpc_sys_zdo_end_device_annce_ind process_rpc_sys_zdo_active_ep_rsp
    process_rpc_sys_zdo_simple_desc_rsp process_rpc_sys_zdo_leave_ind
process_rpc_sys_zdo cb stack command =
    if command == 0xC1
    then process_rpc_sys_zdo_end_device_annce_ind cb
    else if command == 0x85
    then process_rpc_sys_zdo_active_ep_rsp
    else if command == 0x84
    then process_rpc_sys_zdo_simple_desc_rsp cb stack
    else if command == 0xC9
    then process_rpc_sys_zdo_leave_ind cb
    else nothing

unfoldable pub process_rpc_sys_util : Callbacks → Stack → ℕ → Reader (Option Event)
unfolding process_rpc_util_get_dev_info_rsp
process_rpc_sys_util cb stack command =
    if command == 0 then process_rpc_util_get_dev_info_rsp cb stack else nothing

-- The text of a debug message is only printed, by `%s`, and the bytes of that are left out.
unfoldable pub process_rpc_sys_dbg : ℕ → Reader (Option Event)
process_rpc_sys_dbg command =
    if command == 0x80 then nothing else if command == 0 then (byte >> nothing) else nothing

-- `MT_RPC_SYS_DBG`, `MT_RPC_SYS_APP`, `MT_RPC_SYS_ZDO`, `MT_RPC_SYS_UTIL`. Only a message of one of
-- these has its second byte read.
unfoldable pub process_rpc : Callbacks → Stack → Reader (Option Event)
unfolding process_rpc_sys_app process_rpc_sys_zdo process_rpc_sys_util process_rpc_sys_dbg
process_rpc cb stack = do
  cmd0 ← byte
  let subsystem = bit_and cmd0 0x1F
  if subsystem == 8
      then (do command ← byte; process_rpc_sys_dbg command)
      else if subsystem == 9
      then (do command ← byte; process_rpc_sys_app cb stack command)
      else if subsystem == 5
      then (do command ← byte; process_rpc_sys_zdo cb stack command)
      else if subsystem == 7
      then (do command ← byte; process_rpc_sys_util cb stack command)
      else nothing
