-- ===== src/Srpc/Reply.antt =====
-- The messages to the clients (server/Source/interface_srpcserver.c).
pub mod Device
use lighting_gateway.Prelude.{
  if◌then◌else◌, ℕ, ◌%◌, ◌++◌, ◌+◌, ◌∷◌, Option, [], drop, get_or, leb, length, none, some, suc,
  take,
}
use lighting_gateway.Prelude.Int.{ℤ}
use lighting_gateway.Prelude.Reading.{Bytes, c_string, hi_uint16, lo_uint16}
use lighting_gateway.Endpoint.{EpInfoExtended}
use lighting_gateway.Lists.{Group, Scene}
use lighting_gateway.Srpc.{System, Gateway, srpc_send, srpc_send_all, filled}

-- The name of a device, as `devNameLen` says: a `uint8_t`.
abbrev pub short_name : Option Bytes → Bytes
short_name none = []
short_name (some name) = take (length name % 256) name

-- What `srpcParseEpInfo` writes, for the name and for the length that it has computed.
unfoldable pub ep_info_bytes : Bytes → ℕ → EpInfoExtended → Bytes
ep_info_bytes name size ex =
    let e = ex.ep_info in
    0x01
    ∷ size
    ∷ lo_uint16 e.nwk_addr
    ∷ hi_uint16 e.nwk_addr
    ∷ e.endpoint
    ∷ lo_uint16 e.profile_id
    ∷ hi_uint16 e.profile_id
    ∷ lo_uint16 e.device_id
    ∷ hi_uint16 e.device_id
    ∷ e.version
    ∷ length name
    ∷ (name
        ++ (e.status
            ∷ (take 8 e.ieee_addr
                ++ (ex.type
                    ∷ lo_uint16 ex.prev_nwk_addr
                    ∷ hi_uint16 ex.prev_nwk_addr
                    ∷ e.flags
                    ∷ []))))

-- `srpcParseEpInfo`; the length is a `uint8_t` as well, and so is the block that is allocated.
unfoldable pub srpc_parse_ep_info : System → EpInfoExtended → Option Bytes
unfolding filled ep_info_bytes
srpc_parse_ep_info sys ex =
    let name = short_name ex.ep_info.device_name in
    let size = (22 + length name) % 256 in filled sys (size + 2) (ep_info_bytes name size ex)

-- The message of `SRPC_getGroups` for a group: its length comes from the first character of the
-- name as well. A `char` above 127 is negative, but its sum as a `uint8_t` is the same.
unfoldable pub group_message : System → Group → Option Bytes
unfolding filled
group_message sys group = elim group.name [
  | none ↦ none
  | some name ↦
      (let first = get_or name 0 0 in
        let short = take (length name % 256) name in
        filled sys (5 + first) (
          0x0C
          ∷ (3 + first) % 256
          ∷ lo_uint16 group.id
          ∷ hi_uint16 group.id
          ∷ length short
          ∷ short))
]

unfoldable pub scene_message : System → Scene → Option Bytes
unfolding filled
scene_message sys scene = elim scene.name [
  | none ↦ none
  | some name ↦
      (let first = get_or name 0 0 in
        let short = take (length name % 256) name in
        filled sys (6 + first) (
          0x0E
          ∷ (4 + first) % 256
          ∷ lo_uint16 scene.group_id
          ∷ hi_uint16 scene.group_id
          ∷ scene.scene_id
          ∷ length short
          ∷ short))
]

module _ {L : Type 0} (sys : System) where
  -- A message that may not have come about is sent.
  abbrev pub send_made : Option Bytes → ℤ → Gateway L → Option (Gateway L)
  send_made none fd g = none
  send_made (some msg) fd g = srpc_send sys msg fd g

  abbrev pub send_all_made : Option Bytes → Gateway L → Option (Gateway L)
  send_all_made none g = none
  send_all_made (some msg) g = srpc_send_all sys msg g

  unfoldable pub srpc_send_ep_info : EpInfoExtended → Gateway L → Option (Gateway L)
  unfolding srpc_parse_ep_info srpc_send_all
  srpc_send_ep_info ex g = send_all_made (srpc_parse_ep_info sys ex) g

  unfoldable pub srpc_call_back_get_state_rsp :
      (state src_addr endpoint : ℕ) → Gateway L → Option (Gateway L)
  unfolding srpc_send_all
  srpc_call_back_get_state_rsp state src_addr endpoint =
      srpc_send_all sys (0x07 ∷ 4 ∷ lo_uint16 src_addr ∷ hi_uint16 src_addr ∷ endpoint ∷ state ∷ [])

  unfoldable pub srpc_call_back_get_level_rsp :
      (level src_addr endpoint : ℕ) → Gateway L → Option (Gateway L)
  unfolding srpc_send_all
  srpc_call_back_get_level_rsp level src_addr endpoint =
      srpc_send_all sys (0x08 ∷ 4 ∷ lo_uint16 src_addr ∷ hi_uint16 src_addr ∷ endpoint ∷ level ∷ [])

  unfoldable pub srpc_call_back_get_hue_rsp :
      (hue src_addr endpoint : ℕ) → Gateway L → Option (Gateway L)
  unfolding srpc_send_all
  srpc_call_back_get_hue_rsp hue src_addr endpoint =
      srpc_send_all sys (0x09 ∷ 4 ∷ lo_uint16 src_addr ∷ hi_uint16 src_addr ∷ endpoint ∷ hue ∷ [])

  unfoldable pub srpc_call_back_get_sat_rsp :
      (sat src_addr endpoint : ℕ) → Gateway L → Option (Gateway L)
  unfolding srpc_send_all
  srpc_call_back_get_sat_rsp sat src_addr endpoint =
      srpc_send_all sys (0x0A ∷ 4 ∷ lo_uint16 src_addr ∷ hi_uint16 src_addr ∷ endpoint ∷ sat ∷ [])

  -- The block has the right size, and the length byte is a `uint8_t`.
  unfoldable pub srpc_call_back_add_group_rsp : ℕ → Bytes → ℤ → Gateway L → Option (Gateway L)
  unfolding srpc_send
  srpc_call_back_add_group_rsp group_id name_str fd =
      let name = c_string name_str in
      srpc_send sys
        (0x0B
          ∷ (3 + length name) % 256
          ∷ lo_uint16 group_id
          ∷ hi_uint16 group_id
          ∷ length name % 256
          ∷ name)
        fd

  -- The first character of the name is taken for its length. `name_str` is the whole array, with the
  -- 0 at its end. A first character above 127 is a negative number, for which `malloc` fails.
  unfoldable pub srpc_call_back_add_scene_rsp : ℕ → ℕ → Bytes → ℤ → Gateway L → Option (Gateway L)
  unfolding srpc_send
  srpc_call_back_add_scene_rsp group_id scene_id name_str fd g =
      let len = get_or name_str 0 0 in
      if leb 128 len
      then none
      else if leb (suc len) (length name_str)
      then srpc_send sys
          (0x0D
            ∷ (4 + len)
            ∷ lo_uint16 group_id
            ∷ hi_uint16 group_id
            ∷ scene_id % 256
            ∷ len
            ∷ take len (drop 1 name_str))
          fd g
      else none
