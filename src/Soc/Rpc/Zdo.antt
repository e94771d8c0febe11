-- ===== src/Soc/Rpc/Zdo.antt =====
-- The handlers of the network layer's messages and of the device information
-- (zbSocDriver/zbSocCmd.c, `processRpcSysZdo…` and `processRpcUtilGetDevInfoRsp`).
use lighting_gateway.Prelude.{
  if◌then◌else◌, ℕ, ◌&&◌, ◌==◌, ◌∷◌, List, Option, [], none, not, suc, zero,
}
use lighting_gateway.Prelude.Reading.{Reader, byte, bytes, pure, skip, uint16, ◌>>=◌, ◌>>◌}
use lighting_gateway.Endpoint.{zero_ep_info}
use lighting_gateway.Soc.Rpc.{
  Event, Callbacks, Stack, new_dev_indication, zdo_simple_desc_rsp, zdo_leave_ind,
  util_get_dev_info_rsp, notify, nothing,
}

unfoldable pub process_rpc_sys_zdo_end_device_annce_ind : Callbacks → Reader (Option Event)
process_rpc_sys_zdo_end_device_annce_ind cb = do
  skip 2
  nwk_addr ← uint16
  ieee_addr ← bytes 8
  notify cb.pfn_new_dev_indication
      (new_dev_indication (record zero_ep_info { ieee_addr = ieee_addr; nwk_addr = nwk_addr }))

-- The address and the number of endpoints are printed, and that is all.
unfoldable pub process_rpc_sys_zdo_active_ep_rsp : Reader (Option Event)
process_rpc_sys_zdo_active_ep_rsp = do uint16; byte; nothing

-- `for (clusterIdx …) clusters[clusterIdx] = BUILD_UINT16(…)`
unfoldable pub clusters : ℕ → Reader (List ℕ)
clusters zero = pure []
clusters (suc n) = do c ← uint16; cs ← clusters n; pure (c ∷ cs)

-- The address and the flags are not set. An endpoint with one cluster in, one out and the profile
-- of touch link is passed over.
unfoldable pub process_rpc_sys_zdo_simple_desc_rsp : Callbacks → Stack → Reader (Option Event)
unfolding clusters
process_rpc_sys_zdo_simple_desc_rsp cb stack = do
  skip 2
  status ← byte
  nwk_addr ← uint16
  skip 1
  endpoint ← byte
  profile_id ← uint16
  device_id ← uint16
  version ← byte
  num_input_clusters ← byte
  clusters num_input_clusters
  num_output_clusters ← byte
  clusters num_output_clusters
  if not ((num_input_clusters == 1) && (num_output_clusters == 1) && (profile_id == 0xC05E))
      then notify cb.pfn_zdo_simple_desc_rsp (
          zdo_simple_desc_rsp (record stack.ep_info {
            nwk_addr = nwk_addr;
            endpoint = endpoint;
            profile_id = profile_id;
            device_id = device_id;
            version = version;
            device_name = none;
            status = status;
          }))
      else nothing

unfoldable pub process_rpc_sys_zdo_leave_ind : Callbacks → Reader (Option Event)
process_rpc_sys_zdo_leave_ind cb = do
  nwk_addr ← uint16
  notify cb.pfn_zdo_leave_ind (zdo_leave_ind nwk_addr)

-- With a status other than 0 nothing but the status is set.
unfoldable pub process_rpc_util_get_dev_info_rsp : Callbacks → Stack → Reader (Option Event)
process_rpc_util_get_dev_info_rsp cb stack = do
  status ← byte
  if status == 0
      then (do
        ieee_addr ← bytes 8
        nwk_addr ← uint16
        dev_type ← byte
        dev_state ← byte
        notify cb.pfn_util_get_dev_info_rsp
            (util_get_dev_info_rsp status nwk_addr ieee_addr dev_type dev_state))
      else notify cb.pfn_util_get_dev_info_rsp (
          util_get_dev_info_rsp status stack.nwk_addr stack.ieee_addr stack.dev_type
            stack.dev_state)
