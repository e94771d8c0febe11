-- ===== src/Soc/Rpc/Zcl.antt =====
-- `processRpcSysAppTlInd`, `processRpcSysAppZcl` and `processRpcSysAppZclFoundation` of
-- zbSocDriver/zbSocCmd.c.
use lighting_gateway.Prelude.{if◌then◌else◌, ℕ, ◌&&◌, ◌==◌, Bool, Option, bit_and, set, some}
use lighting_gateway.Prelude.Reading.{Bytes, Reader, byte, pure, uint16, ◌>>=◌, ◌>>◌}
use lighting_gateway.Soc.Rpc.{
  Event, Callbacks, Stack, tl_indication, zcl_get_state, zcl_get_level, zcl_get_hue, zcl_get_sat,
  zcl_get_model, notify, nothing,
}

-- The address, the name and the flags are not set.
unfoldable pub process_rpc_sys_app_tl_ind : Callbacks → Stack → Reader (Option Event)
process_rpc_sys_app_tl_ind cb stack = do
  nwk_addr ← uint16
  endpoint ← byte
  profile_id ← uint16
  device_id ← uint16
  version ← byte
  status ← byte
  notify cb.pfn_tl_indication (
      tl_indication (record stack.ep_info {
        nwk_addr = nwk_addr;
        endpoint = endpoint;
        profile_id = profile_id;
        device_id = device_id;
        version = version;
        status = status;
      }))

-- The rest of the buffer, unread.
abbrev rest_of_buffer : Reader Bytes
rest_of_buffer buf = some (buf, buf)

-- The callback of one attribute: its value is read only if the pointer is set.
abbrev with_value : Bool → (ℕ → Event) → Reader (Option Event)
with_value set e = if set then (do value ← byte; pure (some (e value))) else nothing

unfoldable pub process_rpc_sys_app_zcl_foundation : Callbacks → ℕ → ℕ → ℕ → Reader (Option Event)
process_rpc_sys_app_zcl_foundation cb cluster_id nwk_addr endpoint = do
  byte
  command_id ← byte
  if command_id == 1
      then (do
        attr_id ← uint16
        byte
        data_type ← byte
        if (cluster_id == 0x0000) && (attr_id == 0x0005) && (data_type == 0x42)
            then (do model ← rest_of_buffer; notify cb.pfn_zcl_get_model (zcl_get_model model))
            else if (cluster_id == 0x0006) && (attr_id == 0x0000) && (data_type == 0x10)
            then with_value cb.pfn_zcl_get_state (λ v. zcl_get_state v nwk_addr endpoint)
            else if (cluster_id == 0x0008) && (attr_id == 0x0000) && (data_type == 0x20)
            then with_value cb.pfn_zcl_get_level (λ v. zcl_get_level v nwk_addr endpoint)
            else if (cluster_id == 0x0300) && (attr_id == 0x0000) && (data_type == 0x20)
            then with_value cb.pfn_zcl_get_hue (λ v. zcl_get_hue v nwk_addr endpoint)
            else if (cluster_id == 0x0300) && (attr_id == 0x0001) && (data_type == 0x20)
            then with_value cb.pfn_zcl_get_sat (λ v. zcl_get_sat v nwk_addr endpoint)
            else nothing)
      else nothing

-- A manufacturer's code, if the frame control announces one, is skipped.
abbrev skip_manufacturer_code : ℕ → Reader (Unit {0})
skip_manufacturer_code control = if bit_and control 4 == 0 then pure tt else (uint16 >> pure tt)

unfoldable pub process_rpc_sys_app_zcl : Callbacks → Reader (Option Event)
unfolding process_rpc_sys_app_zcl_foundation
process_rpc_sys_app_zcl cb = do
  byte
  nwk_addr ← uint16
  endpoint ← byte
  cluster_id ← uint16
  byte
  control ← byte
  skip_manufacturer_code control
  if bit_and control 3 == 0
      then process_rpc_sys_app_zcl_foundation cb cluster_id nwk_addr endpoint
      else nothing
