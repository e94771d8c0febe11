-- ===== src/Soc/Api.antt =====
-- The command functions of zbSocDriver/zbSocCmd.c as one type of calls, what each call asks of the
-- chip, and the proofs that this is what reaches the line.
pub mod Sending
pub mod Heard
use lighting_gateway.Prelude.{if◌then◌else◌, ℕ, ◌%◌, ◌+◌, ◌==◌, ◌∷◌, List, [], get_or}
use lighting_gateway.Prelude.Reading.{Bytes, hi_uint16, lo_uint16}
use lighting_gateway.Soc.Port.{Soc}
use lighting_gateway.Soc.Wire.{Request, app, zcl, permit_join, device_info}
use lighting_gateway.Soc.Command.Clusters.{
  cluster_on_off, cluster_basic, cluster_identify, cluster_groups, cluster_scenes,
  cluster_level_control, cluster_color_control,
}
use lighting_gateway.Soc.Command.Network.{
  zb_soc_touch_link, zb_soc_bridge_start_nwk, zb_soc_reset_to_fn, zb_soc_send_reset_to_fn,
  zb_soc_open_nwk, zb_soc_bind, zb_soc_get_info,
}
use lighting_gateway.Soc.Command.Light.{
  zb_soc_send_identify, zb_soc_send_identify_effect, zb_soc_set_state, zb_soc_set_level,
  zb_soc_set_hue, zb_soc_set_sat, zb_soc_set_hue_sat,
}
use lighting_gateway.Soc.Command.Scene.{zb_soc_add_group, zb_soc_store_scene, zb_soc_recall_scene}
use lighting_gateway.Soc.Command.Query.{
  zb_soc_get_state, zb_soc_get_level, zb_soc_get_hue, zb_soc_get_sat, zb_soc_get_model,
}

-- Where a cluster library command goes: address, endpoint, address mode.
pub record Target : Type 0 where
  pub dst_addr : ℕ
  pub endpoint : ℕ
  pub addr_mode : ℕ

pub data Call : Type 0 where
  touch_link : Call
  bridge_start_nwk : Call
  reset_to_fn : Call
  send_reset_to_fn : Call
  open_nwk : ℕ → Call
  get_info : Call
  identify : ℕ → Target → Call
  identify_effect : ℕ → ℕ → Target → Call
  set_state : ℕ → Target → Call
  set_level : ℕ → ℕ → Target → Call
  set_hue : ℕ → ℕ → Target → Call
  set_sat : ℕ → ℕ → Target → Call
  set_hue_sat : ℕ → ℕ → ℕ → Target → Call
  add_group : ℕ → Target → Call
  store_scene : ℕ → ℕ → Target → Call
  recall_scene : ℕ → ℕ → Target → Call
  get_state : Target → Call
  get_level : Target → Call
  get_hue : Target → Call
  get_sat : Target → Call
  get_model : Target → Call
  bind : ℕ → ℕ → Bytes → ℕ → Bytes → ℕ → Call

-- The function that a call names.
unfoldable pub perform : Call → Soc → Soc
unfolding zb_soc_touch_link zb_soc_bridge_start_nwk zb_soc_reset_to_fn zb_soc_send_reset_to_fn
    zb_soc_open_nwk zb_soc_get_info zb_soc_send_identify zb_soc_send_identify_effect
    zb_soc_set_state zb_soc_set_level zb_soc_set_hue zb_soc_set_sat zb_soc_set_hue_sat
    zb_soc_add_group zb_soc_store_scene zb_soc_recall_scene zb_soc_get_state zb_soc_get_level
    zb_soc_get_hue zb_soc_get_sat zb_soc_get_model zb_soc_bind
perform touch_link = zb_soc_touch_link
perform bridge_start_nwk = zb_soc_bridge_start_nwk
perform reset_to_fn = zb_soc_reset_to_fn
perform send_reset_to_fn = zb_soc_send_reset_to_fn
perform (open_nwk duration) = zb_soc_open_nwk duration
perform get_info = zb_soc_get_info
perform (identify time to) = zb_soc_send_identify time to.dst_addr to.endpoint to.addr_mode
perform (identify_effect effect varient to) =
    zb_soc_send_identify_effect effect varient to.dst_addr to.endpoint to.addr_mode
perform (set_state state to) = zb_soc_set_state state to.dst_addr to.endpoint to.addr_mode
perform (set_level level time to) = zb_soc_set_level level time to.dst_addr to.endpoint to.addr_mode
perform (set_hue hue time to) = zb_soc_set_hue hue time to.dst_addr to.endpoint to.addr_mode
perform (set_sat sat time to) = zb_soc_set_sat sat time to.dst_addr to.endpoint to.addr_mode
perform (set_hue_sat hue sat time to) =
    zb_soc_set_hue_sat hue sat time to.dst_addr to.endpoint to.addr_mode
perform (add_group group to) = zb_soc_add_group group to.dst_addr to.endpoint to.addr_mode
perform (store_scene group scene to) =
    zb_soc_store_scene group scene to.dst_addr to.endpoint to.addr_mode
perform (recall_scene group scene to) =
    zb_soc_recall_scene group scene to.dst_addr to.endpoint to.addr_mode
perform (get_state to) = zb_soc_get_state to.dst_addr to.endpoint to.addr_mode
perform (get_level to) = zb_soc_get_level to.dst_addr to.endpoint to.addr_mode
perform (get_hue to) = zb_soc_get_hue to.dst_addr to.endpoint to.addr_mode
perform (get_sat to) = zb_soc_get_sat to.dst_addr to.endpoint to.addr_mode
perform (get_model to) = zb_soc_get_model to.dst_addr to.endpoint to.addr_mode
perform (bind src src_endpoint src_ieee dst_endpoint dst_ieee cluster) =
    zb_soc_bind src src_endpoint src_ieee dst_endpoint dst_ieee cluster

abbrev pub zcl_request : Target → ℕ → ℕ → ℕ → ℕ → Bytes → Request
zcl_request to cluster frame_control seq command params = zcl (record {
  dst_addr = to.dst_addr;
  endpoint = to.endpoint;
  cluster = cluster;
  addr_mode = to.addr_mode;
  frame_control = frame_control;
  seq = seq;
  command = command;
  params = params;
})

-- The eight bytes of an address.
abbrev pub octets : Bytes → Bytes
octets a =
    get_or a 0 0
    ∷ get_or a 1 0
    ∷ get_or a 2 0
    ∷ get_or a 3 0
    ∷ get_or a 4 0
    ∷ get_or a 5 0
    ∷ get_or a 6 0
    ∷ get_or a 7 0
    ∷ []

-- What a call asks for, in the order on the line; `seq` is the transaction number before the call.
unfoldable pub requests : Call → ℕ → List Request
requests touch_link seq = app 0x01 0 ∷ []
requests bridge_start_nwk seq = app 0x07 0 ∷ []
requests reset_to_fn seq = app 0x02 0 ∷ []
requests send_reset_to_fn seq = app 0x06 0 ∷ []
requests (open_nwk duration) seq = app 0x05 duration ∷ permit_join duration ∷ []
requests get_info seq = device_info ∷ []
requests (identify time to) seq =
    zcl_request to cluster_identify 1 seq 0x00 (lo_uint16 time ∷ hi_uint16 time ∷ []) ∷ []
requests (identify_effect effect varient to) seq =
    zcl_request to cluster_identify 1 seq 0x40 (effect ∷ varient ∷ []) ∷ []
requests (set_state state to) seq =
    zcl_request to cluster_on_off 1 seq (if state == 0 then 0 else 1) ([]) ∷ []
requests (set_level level time to) seq =
    zcl_request to cluster_level_control 1 seq 0x00 (level ∷ lo_uint16 time ∷ hi_uint16 time ∷ [])
    ∷ []
requests (set_hue hue time to) seq =
    zcl_request to cluster_color_control 1 seq 0x00 (hue ∷ 0 ∷ lo_uint16 time ∷ hi_uint16 time ∷ [])
    ∷ []
requests (set_sat sat time to) seq =
    zcl_request to cluster_color_control 1 seq 0x03 (sat ∷ lo_uint16 time ∷ hi_uint16 time ∷ [])
    ∷ []
requests (set_hue_sat hue sat time to) seq =
    zcl_request to cluster_color_control 1 seq 0x06
      (hue ∷ sat ∷ lo_uint16 time ∷ hi_uint16 time ∷ [])
    ∷ []
requests (add_group group to) seq =
    zcl_request to cluster_groups 1 seq 0x00 (lo_uint16 group ∷ hi_uint16 group ∷ 0 ∷ []) ∷ []
requests (store_scene group scene to) seq =
    zcl_request to cluster_scenes 1 seq 0x04 (lo_uint16 group ∷ hi_uint16 group ∷ scene ∷ []) ∷ []
requests (recall_scene group scene to) seq =
    zcl_request to cluster_scenes 1 seq 0x05 (lo_uint16 group ∷ hi_uint16 group ∷ scene ∷ []) ∷ []
requests (get_state to) seq =
    zcl_request to cluster_on_off 0 seq 0 (lo_uint16 0 ∷ hi_uint16 0 ∷ []) ∷ []
requests (get_level to) seq =
    zcl_request to cluster_level_control 0 seq 0 (lo_uint16 0 ∷ hi_uint16 0 ∷ []) ∷ []
requests (get_hue to) seq =
    zcl_request to cluster_color_control 0 seq 0 (lo_uint16 0 ∷ hi_uint16 0 ∷ []) ∷ []
requests (get_sat to) seq =
    zcl_request to cluster_color_control 0 seq 0 (lo_uint16 1 ∷ hi_uint16 1 ∷ []) ∷ []
requests (get_model to) seq =
    zcl_request to cluster_basic 0 seq 0 (lo_uint16 5 ∷ hi_uint16 5 ∷ []) ∷ []
requests (bind src src_endpoint src_ieee dst_endpoint dst_ieee cluster) seq =
    Request.bind (record {
      src_addr = src;
      src_ieee = octets src_ieee;
      src_endpoint = src_endpoint;
      cluster = cluster;
      dst_ieee = octets dst_ieee;
      dst_endpoint = dst_endpoint;
    })
    ∷ []

-- Only the cluster library commands are numbered.
unfoldable pub seq_after : Call → ℕ → ℕ
seq_after touch_link seq = seq
seq_after bridge_start_nwk seq = seq
seq_after reset_to_fn seq = seq
seq_after send_reset_to_fn seq = seq
seq_after (open_nwk _) seq = seq
seq_after get_info seq = seq
seq_after (bind _ _ _ _ _ _) seq = seq
seq_after _ seq = (seq + 1) % 256
