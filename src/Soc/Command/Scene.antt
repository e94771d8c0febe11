-- ===== src/Soc/Command/Scene.antt =====
-- The ZigBee cluster library commands on groups and scenes
-- (zbSocDriver/zbSocCmd.c). `transSeqNumber++` stands in each: the frame holds the old number.
use lighting_gateway.Prelude.{ℕ, ◌∷◌, []}
use lighting_gateway.Prelude.Reading.{lo_uint16, hi_uint16}
use lighting_gateway.Soc.Port.{Soc, next_seq, send}
use lighting_gateway.Soc.Command.Clusters.{cluster_groups, cluster_scenes}

-- `zbSocAddGroup`
unfoldable pub zb_soc_add_group : (group_id dst_addr endpoint addr_mode : ℕ) → Soc → Soc
unfolding send
zb_soc_add_group group_id dst_addr endpoint addr_mode s =
    send
      (0xFE
        ∷ 14
        ∷ 0x29
        ∷ 0x00
        ∷ 0x0B
        ∷ lo_uint16 dst_addr
        ∷ hi_uint16 dst_addr
        ∷ endpoint
        ∷ lo_uint16 cluster_groups
        ∷ hi_uint16 cluster_groups
        ∷ 0x07
        ∷ addr_mode
        ∷ 0x01
        ∷ s.trans_seq_number
        ∷ 0x00
        ∷ lo_uint16 group_id
        ∷ hi_uint16 group_id
        ∷ 0
        ∷ 0x00
        ∷ [])
      (next_seq s)

-- `zbSocStoreScene`; the `sceneId++` there changes a local copy.
unfoldable pub zb_soc_store_scene : (group_id scene_id dst_addr endpoint addr_mode : ℕ) → Soc → Soc
unfolding send
zb_soc_store_scene group_id scene_id dst_addr endpoint addr_mode s =
    send
      (0xFE
        ∷ 14
        ∷ 0x29
        ∷ 0x00
        ∷ 0x0B
        ∷ lo_uint16 dst_addr
        ∷ hi_uint16 dst_addr
        ∷ endpoint
        ∷ lo_uint16 cluster_scenes
        ∷ hi_uint16 cluster_scenes
        ∷ 0x07
        ∷ addr_mode
        ∷ 0x01
        ∷ s.trans_seq_number
        ∷ 0x04
        ∷ lo_uint16 group_id
        ∷ hi_uint16 group_id
        ∷ scene_id
        ∷ 0x00
        ∷ [])
      (next_seq s)

-- `zbSocRecallScene`
unfoldable pub zb_soc_recall_scene : (group_id scene_id dst_addr endpoint addr_mode : ℕ) → Soc → Soc
unfolding send
zb_soc_recall_scene group_id scene_id dst_addr endpoint addr_mode s =
    send
      (0xFE
        ∷ 14
        ∷ 0x29
        ∷ 0x00
        ∷ 0x0B
        ∷ lo_uint16 dst_addr
        ∷ hi_uint16 dst_addr
        ∷ endpoint
        ∷ lo_uint16 cluster_scenes
        ∷ hi_uint16 cluster_scenes
        ∷ 0x07
        ∷ addr_mode
        ∷ 0x01
        ∷ s.trans_seq_number
        ∷ 0x05
        ∷ lo_uint16 group_id
        ∷ hi_uint16 group_id
        ∷ scene_id
        ∷ 0x00
        ∷ [])
      (next_seq s)
