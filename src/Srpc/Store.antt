-- ===== src/Srpc/Store.antt =====
-- The handlers of client messages that use the lists of devices, groups and scenes, and the one
-- that ends the server (server/Source/interface_srpcserver.c).
pub mod Groups
pub mod Devices
use lighting_gateway.Prelude.{if◌then◌else◌, ◌++◌, ◌==◌, ◌∷◌, List, Option, [], ltb, none, some}
use lighting_gateway.Prelude.Int.{ℤ}
use lighting_gateway.Prelude.Reading.{Bytes, byte, bytes, c_string, pure, skip, uint16, ◌>>=◌, ◌>>◌}
use lighting_gateway.Endpoint.{EpInfo, type_existing}
use lighting_gateway.Lists.{Lists}
use lighting_gateway.Sockets.{Server, socket_sever_close}
use lighting_gateway.Soc.Command.Scene.{zb_soc_add_group, zb_soc_store_scene, zb_soc_recall_scene}
use lighting_gateway.Srpc.{System, Gateway, Outcome, Handler, drive, running, exited}
use lighting_gateway.Srpc.Reply.{
  send_made, srpc_parse_ep_info, srpc_call_back_add_group_rsp, srpc_call_back_add_scene_rsp,
  group_message, scene_message,
}

unfoldable pub device_message : System → EpInfo → Option Bytes
unfolding srpc_parse_ep_info
device_message sys e =
    srpc_parse_ep_info sys
      (record { ep_info = record e { flags = 0 }; prev_nwk_addr = 0xFFFF; type = type_existing })

module _ {L : Type 0} (ops : Lists L) (sys : System) where
  abbrev pub finish : Option (Gateway L) → Option (Outcome L)
  finish none = none
  finish (some g) = some (running g)

  unfoldable pub srpc_add_group : ℤ → Handler L
  unfolding zb_soc_add_group srpc_call_back_add_group_rsp
  srpc_add_group fd = do
    skip 2
    addr_mode ← byte
    dst_addr ← uint16
    skip 6
    endpoint ← byte
    skip 2
    name_len ← byte
    name ← bytes name_len
    pure (λ g.
        let (group_id, lists) =
          ops.group_list_add_device_to_group (c_string name) dst_addr endpoint g.lists in
        finish (
          srpc_call_back_add_group_rsp sys group_id name fd (record g {
            soc = zb_soc_add_group group_id dst_addr endpoint addr_mode g.soc;
            lists = lists;
          })))

  unfoldable pub srpc_store_scene : ℤ → Handler L
  unfolding zb_soc_store_scene srpc_call_back_add_scene_rsp
  srpc_store_scene fd = do
    skip 2
    addr_mode ← byte
    dst_addr ← uint16
    skip 6
    endpoint ← byte
    skip 2
    group_id ← uint16
    name_len ← byte
    name ← bytes name_len
    pure (λ g.
        let (scene_id, lists) = ops.scene_list_add_scene (c_string name) group_id g.lists in
        finish (
          srpc_call_back_add_scene_rsp sys group_id scene_id (name ++ 0 ∷ []) fd (record g {
            soc = zb_soc_store_scene group_id scene_id dst_addr endpoint addr_mode g.soc;
            lists = lists;
          })))

  unfoldable pub srpc_recall_scene : Handler L
  unfolding zb_soc_recall_scene
  srpc_recall_scene = do
    skip 2
    addr_mode ← byte
    dst_addr ← uint16
    skip 6
    endpoint ← byte
    skip 2
    group_id ← uint16
    name_len ← byte
    name ← bytes name_len
    pure (λ g.
        let (scene_id, lists) = ops.scene_list_get_scene_id (c_string name) group_id g.lists in
        drive (zb_soc_recall_scene group_id scene_id dst_addr endpoint addr_mode)
          (record g { lists = lists }))

  -- The device that was taken out is put back with its new name.
  unfoldable pub rename : Bytes → Option EpInfo × L → Gateway L → Gateway L
  rename name (none, lists) g = record g { lists = lists }
  rename name (some e, lists) g = record g {
    lists = ops.dev_list_add_device (record e { device_name = some (c_string name) }) lists;
  }

  -- `MAX_SUPPORTED_DEVICE_NAME_LENGTH` is 32.
  unfoldable pub srpc_change_device_name : Handler L
  unfolding rename
  srpc_change_device_name = do
    skip 2
    dev_nwk_addr ← uint16
    dev_endpoint ← byte
    name_len ← byte
    name ← bytes (if ltb 32 name_len then 32 else name_len)
    pure (λ g. some (
        running
          (rename name (ops.dev_list_remove_device_by_na_ep dev_nwk_addr dev_endpoint g.lists) g)))

  -- One message for each, as long as they can be made.
  unfoldable pub send_each :
      {A : Type 0} → (A → Option Bytes) → List A → ℤ → Gateway L → Option (Gateway L)
  send_each make [] fd g = some g
  send_each make (a ∷ rest) fd g = elim (send_made sys (make a) fd g) [
    | none ↦ none
    | some g' ↦ send_each make rest fd g'
  ]

  -- What a list has given, with the list as that leaves it.
  abbrev pub send_all_of :
      {A : Type 0} → (A → Option Bytes) → List A × L → ℤ → Gateway L → Option (Gateway L)
  send_all_of make (as', lists) fd g = send_each make as' fd (record g { lists = lists })

  unfoldable pub srpc_get_groups : ℤ → Handler L
  unfolding send_each group_message
  srpc_get_groups fd =
      pure (λ g. finish (send_all_of (group_message sys) (ops.groups g.lists) fd g))

  unfoldable pub srpc_get_scenes : ℤ → Handler L
  unfolding send_each scene_message
  srpc_get_scenes fd =
      pure (λ g. finish (send_all_of (scene_message sys) (ops.scenes g.lists) fd g))

  unfoldable pub srpc_get_devices : ℤ → Handler L
  unfolding send_each device_message
  srpc_get_devices fd =
      pure (λ g. finish (send_all_of (device_message sys) (ops.devices g.lists) fd g))

  unfoldable pub closed : Gateway L → Option Server → Option (Outcome L)
  closed g none = none
  closed g (some s) = some (exited (record g { server = s }))

  -- `CLOSE_AUTH_NUM` is 0x2536.
  unfoldable pub srpc_close : Handler L
  unfolding socket_sever_close closed
  srpc_close = do
    skip 2
    magic_number ← uint16
    pure (λ g.
        if magic_number == 0x2536 then closed g (socket_sever_close g.server) else some (running g))
