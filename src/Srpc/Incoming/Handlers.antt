-- ===== src/Srpc/Incoming/Handlers.antt =====
-- Each handler of a client's message leaves the listening socket at the head of the list of sockets.
use lighting_gateway.Prelude.{
  if◌then◌else◌, ℕ, ◌==◌, Bool-cases, Option, arith, get_or, inl, inr, leb, length, none, some, suc,
}
use lighting_gateway.Prelude.Reading.{Bytes}
use lighting_gateway.Prelude.Int.{ℤ}
use lighting_gateway.Lists.{Lists}
use lighting_gateway.Sockets.Records.{IsHeaded}
use lighting_gateway.Srpc.{Gateway, running, System}
use lighting_gateway.Sockets.{Server, socket_sever_close}
use lighting_gateway.Endpoint.{EpInfo}
use lighting_gateway.Srpc.Store.{
  srpc_get_groups, srpc_get_scenes, srpc_get_devices, device_message, closed,
}
use lighting_gateway.Srpc.Store.{
  finish, rename, srpc_add_group, srpc_store_scene, srpc_recall_scene, srpc_change_device_name,
  srpc_close,
}
use lighting_gateway.Srpc.Reply.{
  group_message, scene_message, srpc_call_back_add_group_rsp, srpc_call_back_add_scene_rsp,
}
use lighting_gateway.Srpc.Light.{
  srpc_identify_device, srpc_bind_devices, srpc_set_device_state, srpc_set_device_level,
  srpc_set_device_color, srpc_get_device_state, srpc_get_device_level, srpc_get_device_hue,
  srpc_get_device_sat, srpc_permit_join, srpc_not_supported,
}
use lighting_gateway.Srpc.Incoming.Headed.{
  HeadedAfter, Leaves, finish_lem, bind-Leaves, srpc_send-StaysHeaded, send_each-StaysHeaded,
}

module _ {L : Type 0} (ops : Lists L) (sys : System) (listening : ℤ) where
  pub identify_device-Leaves : (bs : Bytes) → Leaves {L = L} listening (srpc_identify_device bs)
  unfolding srpc_identify_device
  identify_device-Leaves bs = search bind-Leaves depth 20

  pub bind_devices-Leaves : (bs : Bytes) → Leaves {L = L} listening (srpc_bind_devices bs)
  unfolding srpc_bind_devices
  bind_devices-Leaves bs = search bind-Leaves depth 20

  pub set_device_state-Leaves : (bs : Bytes) → Leaves {L = L} listening (srpc_set_device_state bs)
  unfolding srpc_set_device_state
  set_device_state-Leaves bs = search bind-Leaves depth 20

  pub set_device_level-Leaves : (bs : Bytes) → Leaves {L = L} listening (srpc_set_device_level bs)
  unfolding srpc_set_device_level
  set_device_level-Leaves bs = search bind-Leaves depth 20

  pub set_device_color-Leaves : (bs : Bytes) → Leaves {L = L} listening (srpc_set_device_color bs)
  unfolding srpc_set_device_color
  set_device_color-Leaves bs = search bind-Leaves depth 20

  pub get_device_state-Leaves : (bs : Bytes) → Leaves {L = L} listening (srpc_get_device_state bs)
  unfolding srpc_get_device_state
  get_device_state-Leaves bs = search bind-Leaves depth 20

  pub get_device_level-Leaves : (bs : Bytes) → Leaves {L = L} listening (srpc_get_device_level bs)
  unfolding srpc_get_device_level
  get_device_level-Leaves bs = search bind-Leaves depth 20

  pub get_device_hue-Leaves : (bs : Bytes) → Leaves {L = L} listening (srpc_get_device_hue bs)
  unfolding srpc_get_device_hue
  get_device_hue-Leaves bs = search bind-Leaves depth 20

  pub get_device_sat-Leaves : (bs : Bytes) → Leaves {L = L} listening (srpc_get_device_sat bs)
  unfolding srpc_get_device_sat
  get_device_sat-Leaves bs = search bind-Leaves depth 20

  pub permit_join-Leaves : (bs : Bytes) → Leaves {L = L} listening (srpc_permit_join bs)
  unfolding srpc_permit_join
  permit_join-Leaves bs = ground arith

  pub not_supported-Leaves : (bs : Bytes) → Leaves {L = L} listening (srpc_not_supported bs)
  unfolding srpc_not_supported
  not_supported-Leaves bs g h = h

  add_group_rsp-HeadedAfter :
      (group_id : ℕ) (name : Bytes) (fd : ℤ) (g : Gateway L)
      → IsHeaded listening g.server
      → HeadedAfter listening (finish ops sys (srpc_call_back_add_group_rsp sys group_id name fd g))
  unfolding srpc_call_back_add_group_rsp
  add_group_rsp-HeadedAfter group_id name fd g h =
      finish_lem ops sys listening _ (search srpc_send-StaysHeaded)

  add_scene_rsp-HeadedAfter :
      (group_id scene_id : ℕ) (name : Bytes) (fd : ℤ) (g : Gateway L)
      → IsHeaded listening g.server
      → HeadedAfter listening
          (finish ops sys (srpc_call_back_add_scene_rsp sys group_id scene_id name fd g))
  unfolding srpc_call_back_add_scene_rsp
  add_scene_rsp-HeadedAfter group_id scene_id name fd g h =
      let len = get_or name 0 0 in
      elim (Bool-cases (leb 128 len)) [
        | inl large ↦ rw (srpc_call_back_add_scene_rsp, large) tt
        | inr small ↦ elim (Bool-cases (leb (suc len) (length name))) [
          | inl inside ↦
              rw (srpc_call_back_add_scene_rsp, small, inside)
                (finish_lem ops sys listening _ (search srpc_send-StaysHeaded))
          | inr outside ↦ rw (srpc_call_back_add_scene_rsp, small, outside) tt
        ]
      ]

  pub add_group-Leaves : (fd : ℤ) (bs : Bytes) → Leaves listening (srpc_add_group ops sys fd bs)
  unfolding srpc_add_group
  add_group-Leaves fd bs = search (bind-Leaves, add_group_rsp-HeadedAfter) depth 20

  pub store_scene-Leaves : (fd : ℤ) (bs : Bytes) → Leaves listening (srpc_store_scene ops sys fd bs)
  unfolding srpc_store_scene
  store_scene-Leaves fd bs = search (bind-Leaves, add_scene_rsp-HeadedAfter) depth 20

  pub recall_scene-Leaves : (bs : Bytes) → Leaves listening (srpc_recall_scene ops sys bs)
  unfolding srpc_recall_scene
  recall_scene-Leaves bs = search bind-Leaves depth 20

  rename-IsHeaded :
      (name : Bytes) (found : Option EpInfo × L) (g : Gateway L)
      → IsHeaded listening g.server
      → IsHeaded listening (rename ops sys name found g).server
  unfolding rename
  rename-IsHeaded name (none, lists) g h = h
  rename-IsHeaded name (some e, lists) g h = h

  pub change_device_name-Leaves :
      (bs : Bytes) → Leaves listening (srpc_change_device_name ops sys bs)
  unfolding srpc_change_device_name
  change_device_name-Leaves bs = search (bind-Leaves, rename-IsHeaded) depth 20

  closed-HeadedAfter :
      (g : Gateway L) (r : Option Server) → HeadedAfter listening (closed ops sys g r)
  unfolding closed
  closed-HeadedAfter g none = tt
  closed-HeadedAfter g (some s) = tt

  close_action-HeadedAfter :
      (magic_number : ℕ) (g : Gateway L)
      → IsHeaded listening g.server
      → HeadedAfter listening (
          if magic_number == 0x2536
          then closed ops sys g (socket_sever_close g.server)
          else some (running g))
  close_action-HeadedAfter magic_number g h = elim (Bool-cases (magic_number == 0x2536)) [
    | inl right ↦ rw right (closed-HeadedAfter g (socket_sever_close g.server))
    | inr wrong ↦ rw wrong h
  ]

  pub close-Leaves : (bs : Bytes) → Leaves listening (srpc_close ops sys bs)
  unfolding srpc_close
  close-Leaves bs = search (bind-Leaves, close_action-HeadedAfter) depth 20

  pub get_groups-Leaves : (fd : ℤ) (bs : Bytes) → Leaves listening (srpc_get_groups ops sys fd bs)
  unfolding srpc_get_groups
  get_groups-Leaves fd bs g h =
      finish_lem ops sys listening _
        (send_each-StaysHeaded ops sys listening (group_message sys) (ops.groups g.lists).0 fd _ h)

  pub get_scenes-Leaves : (fd : ℤ) (bs : Bytes) → Leaves listening (srpc_get_scenes ops sys fd bs)
  unfolding srpc_get_scenes
  get_scenes-Leaves fd bs g h =
      finish_lem ops sys listening _
        (send_each-StaysHeaded ops sys listening (scene_message sys) (ops.scenes g.lists).0 fd _ h)

  pub get_devices-Leaves : (fd : ℤ) (bs : Bytes) → Leaves listening (srpc_get_devices ops sys fd bs)
  unfolding srpc_get_devices
  get_devices-Leaves fd bs g h =
      finish_lem ops sys listening _ (
        send_each-StaysHeaded ops sys listening (device_message sys) (ops.devices g.lists).0 fd _ h)
