-- ===== src/Soc/Command/Query.antt =====
-- The ZigBee cluster library commands that read an attribute
-- (zbSocDriver/zbSocCmd.c). `transSeqNumber++` stands in each: the frame holds the old number.
use lighting_gateway.Prelude.{ℕ, ◌∷◌, []}
use lighting_gateway.Prelude.Reading.{lo_uint16, hi_uint16}
use lighting_gateway.Soc.Port.{Soc, next_seq, send}
use lighting_gateway.Soc.Command.Clusters.{
  cluster_basic, cluster_on_off, cluster_level_control, cluster_color_control,
}

-- `zbSocGetState`
unfoldable pub zb_soc_get_state : (dst_addr endpoint addr_mode : ℕ) → Soc → Soc
unfolding send
zb_soc_get_state dst_addr endpoint addr_mode s =
    send
      (0xFE
        ∷ 13
        ∷ 0x29
        ∷ 0x00
        ∷ 0x0B
        ∷ lo_uint16 dst_addr
        ∷ hi_uint16 dst_addr
        ∷ endpoint
        ∷ lo_uint16 cluster_on_off
        ∷ hi_uint16 cluster_on_off
        ∷ 0x06
        ∷ addr_mode
        ∷ 0x00
        ∷ s.trans_seq_number
        ∷ 0x00
        ∷ 0
        ∷ 0x00
        ∷ 0x00
        ∷ [])
      (next_seq s)

-- `zbSocGetLevel`
unfoldable pub zb_soc_get_level : (dst_addr endpoint addr_mode : ℕ) → Soc → Soc
unfolding send
zb_soc_get_level dst_addr endpoint addr_mode s =
    send
      (0xFE
        ∷ 13
        ∷ 0x29
        ∷ 0x00
        ∷ 0x0B
        ∷ lo_uint16 dst_addr
        ∷ hi_uint16 dst_addr
        ∷ endpoint
        ∷ lo_uint16 cluster_level_control
        ∷ hi_uint16 cluster_level_control
        ∷ 0x06
        ∷ addr_mode
        ∷ 0x00
        ∷ s.trans_seq_number
        ∷ 0x00
        ∷ 0
        ∷ 0x00
        ∷ 0x00
        ∷ [])
      (next_seq s)

-- `zbSocGetHue`
unfoldable pub zb_soc_get_hue : (dst_addr endpoint addr_mode : ℕ) → Soc → Soc
unfolding send
zb_soc_get_hue dst_addr endpoint addr_mode s =
    send
      (0xFE
        ∷ 13
        ∷ 0x29
        ∷ 0x00
        ∷ 0x0B
        ∷ lo_uint16 dst_addr
        ∷ hi_uint16 dst_addr
        ∷ endpoint
        ∷ lo_uint16 cluster_color_control
        ∷ hi_uint16 cluster_color_control
        ∷ 0x06
        ∷ addr_mode
        ∷ 0x00
        ∷ s.trans_seq_number
        ∷ 0x00
        ∷ 0
        ∷ 0x00
        ∷ 0x00
        ∷ [])
      (next_seq s)

-- `zbSocGetSat`
unfoldable pub zb_soc_get_sat : (dst_addr endpoint addr_mode : ℕ) → Soc → Soc
unfolding send
zb_soc_get_sat dst_addr endpoint addr_mode s =
    send
      (0xFE
        ∷ 13
        ∷ 0x29
        ∷ 0x00
        ∷ 0x0B
        ∷ lo_uint16 dst_addr
        ∷ hi_uint16 dst_addr
        ∷ endpoint
        ∷ lo_uint16 cluster_color_control
        ∷ hi_uint16 cluster_color_control
        ∷ 0x06
        ∷ addr_mode
        ∷ 0x00
        ∷ s.trans_seq_number
        ∷ 0x00
        ∷ 1
        ∷ 0x00
        ∷ 0x00
        ∷ [])
      (next_seq s)

-- `zbSocGetModel`
unfoldable pub zb_soc_get_model : (dst_addr endpoint addr_mode : ℕ) → Soc → Soc
unfolding send
zb_soc_get_model dst_addr endpoint addr_mode s =
    send
      (0xFE
        ∷ 13
        ∷ 0x29
        ∷ 0x00
        ∷ 0x0B
        ∷ lo_uint16 dst_addr
        ∷ hi_uint16 dst_addr
        ∷ endpoint
        ∷ lo_uint16 cluster_basic
        ∷ hi_uint16 cluster_basic
        ∷ 0x06
        ∷ addr_mode
        ∷ 0x00
        ∷ s.trans_seq_number
        ∷ 0x00
        ∷ 5
        ∷ 0x00
        ∷ 0x00
        ∷ [])
      (next_seq s)
