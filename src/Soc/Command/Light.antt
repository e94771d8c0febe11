-- ===== src/Soc/Command/Light.antt =====
-- The ZigBee cluster library commands that set something on a light
-- (zbSocDriver/zbSocCmd.c). `transSeqNumber++` stands in each: the frame holds the old number.
use lighting_gateway.Prelude.{if◌then◌else◌, ℕ, ◌==◌, ◌∷◌, []}
use lighting_gateway.Prelude.Reading.{lo_uint16, hi_uint16}
use lighting_gateway.Soc.Port.{Soc, next_seq, send}
use lighting_gateway.Soc.Command.Clusters.{
  cluster_identify, cluster_on_off, cluster_level_control, cluster_color_control,
}

-- `zbSocSendIdentify`
unfoldable pub zb_soc_send_identify : (identify_time dst_addr endpoint addr_mode : ℕ) → Soc → Soc
unfolding send
zb_soc_send_identify identify_time dst_addr endpoint addr_mode s =
    send
      (0xFE
        ∷ 13
        ∷ 0x29
        ∷ 0x00
        ∷ 0x0B
        ∷ lo_uint16 dst_addr
        ∷ hi_uint16 dst_addr
        ∷ endpoint
        ∷ lo_uint16 cluster_identify
        ∷ hi_uint16 cluster_identify
        ∷ 0x06
        ∷ addr_mode
        ∷ 0x01
        ∷ s.trans_seq_number
        ∷ 0x00
        ∷ lo_uint16 identify_time
        ∷ hi_uint16 identify_time
        ∷ 0x00
        ∷ [])
      (next_seq s)

-- `zbSocSendIdentifyEffect`
unfoldable pub zb_soc_send_identify_effect :
    (effect effect_varient dst_addr endpoint addr_mode : ℕ) → Soc → Soc
unfolding send
zb_soc_send_identify_effect effect effect_varient dst_addr endpoint addr_mode s =
    send
      (0xFE
        ∷ 13
        ∷ 0x29
        ∷ 0x00
        ∷ 0x0B
        ∷ lo_uint16 dst_addr
        ∷ hi_uint16 dst_addr
        ∷ endpoint
        ∷ lo_uint16 cluster_identify
        ∷ hi_uint16 cluster_identify
        ∷ 0x06
        ∷ addr_mode
        ∷ 0x01
        ∷ s.trans_seq_number
        ∷ 0x40
        ∷ effect
        ∷ effect_varient
        ∷ 0x00
        ∷ [])
      (next_seq s)

-- `zbSocSetState`: the command is 1 for on and 0 for off.
unfoldable pub zb_soc_set_state : (state dst_addr endpoint addr_mode : ℕ) → Soc → Soc
unfolding send
zb_soc_set_state state dst_addr endpoint addr_mode s =
    send
      (0xFE
        ∷ 11
        ∷ 0x29
        ∷ 0x00
        ∷ 0x0B
        ∷ lo_uint16 dst_addr
        ∷ hi_uint16 dst_addr
        ∷ endpoint
        ∷ lo_uint16 cluster_on_off
        ∷ hi_uint16 cluster_on_off
        ∷ 0x04
        ∷ addr_mode
        ∷ 0x01
        ∷ s.trans_seq_number
        ∷ (if state == 0 then 0 else 1)
        ∷ 0x00
        ∷ [])
      (next_seq s)

-- `zbSocSetLevel`
unfoldable pub zb_soc_set_level : (level time dst_addr endpoint addr_mode : ℕ) → Soc → Soc
unfolding send
zb_soc_set_level level time dst_addr endpoint addr_mode s =
    send
      (0xFE
        ∷ 14
        ∷ 0x29
        ∷ 0x00
        ∷ 0x0B
        ∷ lo_uint16 dst_addr
        ∷ hi_uint16 dst_addr
        ∷ endpoint
        ∷ lo_uint16 cluster_level_control
        ∷ hi_uint16 cluster_level_control
        ∷ 0x07
        ∷ addr_mode
        ∷ 0x01
        ∷ s.trans_seq_number
        ∷ 0x00
        ∷ level
        ∷ lo_uint16 time
        ∷ hi_uint16 time
        ∷ 0x00
        ∷ [])
      (next_seq s)

-- `zbSocSetHue`
unfoldable pub zb_soc_set_hue : (hue time dst_addr endpoint addr_mode : ℕ) → Soc → Soc
unfolding send
zb_soc_set_hue hue time dst_addr endpoint addr_mode s =
    send
      (0xFE
        ∷ 15
        ∷ 0x29
        ∷ 0x00
        ∷ 0x0B
        ∷ lo_uint16 dst_addr
        ∷ hi_uint16 dst_addr
        ∷ endpoint
        ∷ lo_uint16 cluster_color_control
        ∷ hi_uint16 cluster_color_control
        ∷ 0x08
        ∷ addr_mode
        ∷ 0x01
        ∷ s.trans_seq_number
        ∷ 0x00
        ∷ hue
        ∷ 0x00
        ∷ lo_uint16 time
        ∷ hi_uint16 time
        ∷ 0x00
        ∷ [])
      (next_seq s)

-- `zbSocSetSat`
unfoldable pub zb_soc_set_sat : (sat time dst_addr endpoint addr_mode : ℕ) → Soc → Soc
unfolding send
zb_soc_set_sat sat time dst_addr endpoint addr_mode s =
    send
      (0xFE
        ∷ 14
        ∷ 0x29
        ∷ 0x00
        ∷ 0x0B
        ∷ lo_uint16 dst_addr
        ∷ hi_uint16 dst_addr
        ∷ endpoint
        ∷ lo_uint16 cluster_color_control
        ∷ hi_uint16 cluster_color_control
        ∷ 0x07
        ∷ addr_mode
        ∷ 0x01
        ∷ s.trans_seq_number
        ∷ 0x03
        ∷ sat
        ∷ lo_uint16 time
        ∷ hi_uint16 time
        ∷ 0x00
        ∷ [])
      (next_seq s)

-- `zbSocSetHueSat`
unfoldable pub zb_soc_set_hue_sat : (hue sat time dst_addr endpoint addr_mode : ℕ) → Soc → Soc
unfolding send
zb_soc_set_hue_sat hue sat time dst_addr endpoint addr_mode s =
    send
      (0xFE
        ∷ 15
        ∷ 0x29
        ∷ 0x00
        ∷ 0x0B
        ∷ lo_uint16 dst_addr
        ∷ hi_uint16 dst_addr
        ∷ endpoint
        ∷ lo_uint16 cluster_color_control
        ∷ hi_uint16 cluster_color_control
        ∷ 0x08
        ∷ addr_mode
        ∷ 0x01
        ∷ s.trans_seq_number
        ∷ 0x06
        ∷ hue
        ∷ sat
        ∷ lo_uint16 time
        ∷ hi_uint16 time
        ∷ 0x00
        ∷ [])
      (next_seq s)
