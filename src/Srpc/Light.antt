-- ===== src/Srpc/Light.antt =====
-- The handlers of client messages that ask for one call of the driver
-- (server/Source/interface_srpcserver.c). Each first passes the two bytes of the header.
use lighting_gateway.Prelude.{if◌then◌else◌, ◌==◌, some}
use lighting_gateway.Prelude.Reading.{byte, bytes, pure, skip, uint16, ◌>>=◌, ◌>>◌}
use lighting_gateway.Soc.Command.Network.{zb_soc_open_nwk, zb_soc_bind}
use lighting_gateway.Soc.Command.Light.{
  zb_soc_send_identify, zb_soc_set_state, zb_soc_set_level, zb_soc_set_hue_sat,
}
use lighting_gateway.Soc.Command.Query.{
  zb_soc_get_state, zb_soc_get_level, zb_soc_get_hue, zb_soc_get_sat,
}
use lighting_gateway.Srpc.{Handler, drive, running}

module _ {L : Type 0} where
  unfoldable pub srpc_identify_device : Handler L
  unfolding zb_soc_send_identify
  srpc_identify_device = do
    skip 2
    addr_mode ← byte
    dst_addr ← uint16
    skip 6
    endpoint ← byte
    skip 2
    identify_time ← uint16
    pure (drive (zb_soc_send_identify identify_time dst_addr endpoint addr_mode))

  unfoldable pub srpc_bind_devices : Handler L
  unfolding zb_soc_bind
  srpc_bind_devices = do
    skip 2
    src_nwk_addr ← uint16
    src_endpoint ← byte
    src_ieee ← bytes 8
    dst_endpoint ← byte
    dst_ieee ← bytes 8
    cluster_id ← uint16
    pure (drive (zb_soc_bind src_nwk_addr src_endpoint src_ieee dst_endpoint dst_ieee cluster_id))

  -- `(bool) *pBuf`
  unfoldable pub srpc_set_device_state : Handler L
  unfolding zb_soc_set_state
  srpc_set_device_state = do
    skip 2
    addr_mode ← byte
    dst_addr ← uint16
    skip 6
    endpoint ← byte
    skip 2
    state ← byte
    pure (drive (zb_soc_set_state (if state == 0 then 0 else 1) dst_addr endpoint addr_mode))

  unfoldable pub srpc_set_device_level : Handler L
  unfolding zb_soc_set_level
  srpc_set_device_level = do
    skip 2
    addr_mode ← byte
    dst_addr ← uint16
    skip 6
    endpoint ← byte
    skip 2
    level ← byte
    transition_time ← uint16
    pure (drive (zb_soc_set_level level transition_time dst_addr endpoint addr_mode))

  unfoldable pub srpc_set_device_color : Handler L
  unfolding zb_soc_set_hue_sat
  srpc_set_device_color = do
    skip 2
    addr_mode ← byte
    dst_addr ← uint16
    skip 6
    endpoint ← byte
    skip 2
    hue ← byte
    saturation ← byte
    transition_time ← uint16
    pure (drive (zb_soc_set_hue_sat hue saturation transition_time dst_addr endpoint addr_mode))

  unfoldable pub srpc_get_device_state : Handler L
  unfolding zb_soc_get_state
  srpc_get_device_state = do
    skip 2
    addr_mode ← byte
    dst_addr ← uint16
    skip 6
    endpoint ← byte
    skip 2
    pure (drive (zb_soc_get_state dst_addr endpoint addr_mode))

  unfoldable pub srpc_get_device_level : Handler L
  unfolding zb_soc_get_level
  srpc_get_device_level = do
    skip 2
    addr_mode ← byte
    dst_addr ← uint16
    skip 6
    endpoint ← byte
    skip 2
    pure (drive (zb_soc_get_level dst_addr endpoint addr_mode))

  unfoldable pub srpc_get_device_hue : Handler L
  unfolding zb_soc_get_hue
  srpc_get_device_hue = do
    skip 2
    addr_mode ← byte
    dst_addr ← uint16
    skip 6
    endpoint ← byte
    skip 2
    pure (drive (zb_soc_get_hue dst_addr endpoint addr_mode))

  unfoldable pub srpc_get_device_sat : Handler L
  unfolding zb_soc_get_sat
  srpc_get_device_sat = do
    skip 2
    addr_mode ← byte
    dst_addr ← uint16
    skip 6
    endpoint ← byte
    skip 2
    pure (drive (zb_soc_get_sat dst_addr endpoint addr_mode))

  -- `JOIN_AUTH_NUM` is 0xEBD4.
  unfoldable pub srpc_permit_join : Handler L
  unfolding zb_soc_open_nwk
  srpc_permit_join = do
    skip 2
    duration ← byte
    magic_number ← uint16
    pure
        (if magic_number == 0xEBD4 then drive (zb_soc_open_nwk duration) else λ g. some (running g))

  unfoldable pub srpc_not_supported : Handler L
  srpc_not_supported = pure (λ g. some (running g))
