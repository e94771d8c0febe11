-- ===== src/Soc/Command/Clusters.antt =====
-- The cluster identifiers of zbSocDriver/zbSocCmd.c.
use lighting_gateway.Prelude.{ℕ}

abbrev pub cluster_basic : ℕ
cluster_basic = 0x0000

abbrev pub cluster_identify : ℕ
cluster_identify = 0x0003

abbrev pub cluster_groups : ℕ
cluster_groups = 0x0004

abbrev pub cluster_scenes : ℕ
cluster_scenes = 0x0005

abbrev pub cluster_on_off : ℕ
cluster_on_off = 0x0006

abbrev pub cluster_level_control : ℕ
cluster_level_control = 0x0008

abbrev pub cluster_color_control : ℕ
cluster_color_control = 0x0300
