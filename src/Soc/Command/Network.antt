-- ===== src/Soc/Command/Network.antt =====
-- The commands to the chip itself and to the network layer: touch link, start, reset, join, bind
-- and device information (zbSocDriver/zbSocCmd.c).
use lighting_gateway.Prelude.{ℕ, ◌∷◌, [], bit_or, get_or}
use lighting_gateway.Prelude.Reading.{Bytes, lo_uint16, hi_uint16}
use lighting_gateway.Soc.Port.{Soc, send}

abbrev pub cmd_touchlink : ℕ
cmd_touchlink = 0x01

abbrev pub cmd_reset_to_fn : ℕ
cmd_reset_to_fn = 0x02

abbrev pub cmd_permit_join : ℕ
cmd_permit_join = 0x05

abbrev pub cmd_send_reset_to_fn : ℕ
cmd_send_reset_to_fn = 0x06

abbrev pub cmd_start_distrib_nwk : ℕ
cmd_start_distrib_nwk = 0x07

-- MT_RPC_CMD_SREQ | MT_RPC_SYS_ZDO and MT_RPC_CMD_SREQ | MT_RPC_SYS_UTIL
abbrev pub sreq_zdo : ℕ
sreq_zdo = bit_or 0x20 5

abbrev pub sreq_util : ℕ
sreq_util = bit_or 0x20 7

-- `APPCMDHEADER(len)`
abbrev app_cmd_header : ℕ → Bytes → Bytes
app_cmd_header len rest = 0xFE ∷ len ∷ 0x29 ∷ 0x00 ∷ 0x0B ∷ 0x02 ∷ 0x00 ∷ 0x0B ∷ 0xFF ∷ 0xFF ∷ rest

-- `zbSocTouchLink`
unfoldable pub zb_soc_touch_link : Soc → Soc
unfolding send
zb_soc_touch_link s =
    send (app_cmd_header 13 (0x06 ∷ 0x02 ∷ 0x00 ∷ 0x00 ∷ cmd_touchlink ∷ 0x00 ∷ 0x00 ∷ 0x00 ∷ [])) s

-- `zbSocBridgeStartNwk`
unfoldable pub zb_soc_bridge_start_nwk : Soc → Soc
unfolding send
zb_soc_bridge_start_nwk s =
    send
      (app_cmd_header 13
        (0x06 ∷ 0x02 ∷ 0x00 ∷ 0x00 ∷ cmd_start_distrib_nwk ∷ 0x00 ∷ 0x00 ∷ 0x00 ∷ []))
      s

-- `zbSocResetToFn`
unfoldable pub zb_soc_reset_to_fn : Soc → Soc
unfolding send
zb_soc_reset_to_fn s =
    send (app_cmd_header 13 (0x06 ∷ 0x02 ∷ 0x00 ∷ 0x00 ∷ cmd_reset_to_fn ∷ 0x00 ∷ 0x00 ∷ 0x00 ∷ []))
      s

-- `zbSocSendResetToFn`
unfoldable pub zb_soc_send_reset_to_fn : Soc → Soc
unfolding send
zb_soc_send_reset_to_fn s =
    send
      (app_cmd_header 13
        (0x06 ∷ 0x02 ∷ 0x00 ∷ 0x00 ∷ cmd_send_reset_to_fn ∷ 0x00 ∷ 0x00 ∷ 0x00 ∷ []))
      s

-- `zbSocOpenNwk`: the chip is told first, the network then.
unfoldable pub zb_soc_open_nwk : ℕ → Soc → Soc
unfolding send
zb_soc_open_nwk duration s =
    let src_nwk_addr : ℕ = 0xFFFD in
    let mgmt_permit =
      0xFE
      ∷ 5
      ∷ sreq_zdo
      ∷ 0x36
      ∷ 15
      ∷ lo_uint16 src_nwk_addr
      ∷ hi_uint16 src_nwk_addr
      ∷ duration
      ∷ 1
      ∷ 0x00
      ∷ [] in
    let local_permit =
      app_cmd_header 13
        (0x06 ∷ 0x02 ∷ 0x00 ∷ 0x00 ∷ cmd_permit_join ∷ duration ∷ 0x00 ∷ 0x00 ∷ []) in
    send mgmt_permit (send local_permit s)

-- `zbSocBind`; the addresses are arrays of eight bytes.
unfoldable pub zb_soc_bind : ℕ → ℕ → Bytes → ℕ → Bytes → ℕ → Soc → Soc
unfolding send
zb_soc_bind src_nwk_addr src_endpoint src_ieee dst_endpoint dst_ieee cluster_id s =
    send
      (0xFE
        ∷ 23
        ∷ sreq_zdo
        ∷ 0x21
        ∷ lo_uint16 src_nwk_addr
        ∷ hi_uint16 src_nwk_addr
        ∷ get_or src_ieee 0 0
        ∷ get_or src_ieee 1 0
        ∷ get_or src_ieee 2 0
        ∷ get_or src_ieee 3 0
        ∷ get_or src_ieee 4 0
        ∷ get_or src_ieee 5 0
        ∷ get_or src_ieee 6 0
        ∷ get_or src_ieee 7 0
        ∷ src_endpoint
        ∷ lo_uint16 cluster_id
        ∷ hi_uint16 cluster_id
        ∷ 3
        ∷ get_or dst_ieee 0 0
        ∷ get_or dst_ieee 1 0
        ∷ get_or dst_ieee 2 0
        ∷ get_or dst_ieee 3 0
        ∷ get_or dst_ieee 4 0
        ∷ get_or dst_ieee 5 0
        ∷ get_or dst_ieee 6 0
        ∷ get_or dst_ieee 7 0
        ∷ dst_endpoint
        ∷ 0x00
        ∷ [])
      s

-- `zbSocGetInfo`
unfoldable pub zb_soc_get_info : Soc → Soc
unfolding send
zb_soc_get_info s = send (0xFE ∷ 0 ∷ sreq_util ∷ 0x00 ∷ 0x00 ∷ []) s
