-- ===== src/Soc/Rpc/Report.antt =====
-- What the chip reports to the host, described on its own: the reports, the bytes of each, and the
-- callback that the driver owes to its client. The child shows that zbSocDriver/zbSocCmd.c makes it.
pub mod Delivery
use lighting_gateway.Prelude.{
  if◌then◌else◌, ℕ, ◌*◌, ◌++◌, ◌+◌, ◌==◌, ◌∷◌, Bool, List, Option, [], false, length, none, set,
  some,
}
use lighting_gateway.Prelude.Reading.{Bytes}
use lighting_gateway.Endpoint.{EpInfo, zero_ep_info}
use lighting_gateway.Soc.Wire.{word}
use lighting_gateway.Soc.Rpc.{
  Event, Callbacks, Stack, tl_indication, new_dev_indication, zcl_get_state, zcl_get_level,
  zcl_get_hue, zcl_get_sat, zdo_simple_desc_rsp, zdo_leave_ind, util_get_dev_info_rsp,
}

-- The attributes of a light that the gateway asks for.
pub data Attribute : Type 0 where
  on_off level hue saturation : Attribute

-- Cluster, attribute identifier and data type of the ZigBee cluster library.
abbrev pub cluster_of : Attribute → ℕ
cluster_of on_off = 0x0006
cluster_of level = 0x0008
cluster_of hue = 0x0300
cluster_of saturation = 0x0300

abbrev pub id_of : Attribute → ℕ
id_of saturation = 1
id_of _ = 0

abbrev pub type_of : Attribute → ℕ
type_of on_off = 0x10
type_of _ = 0x20

-- A node as its simple descriptor gives it.
pub record Descriptor : Type 0 where
  pub nwk_addr : ℕ
  pub endpoint : ℕ
  pub profile_id : ℕ
  pub device_id : ℕ
  pub version : ℕ
  pub status : ℕ

pub data Report : Type 0 where
  touch_link : Descriptor → Report
  -- value, network address, endpoint and transaction number of the answer to a read
  attribute : Attribute → ℕ → ℕ → ℕ → ℕ → Report
  -- network address, IEEE address
  announce : ℕ → Bytes → Report
  -- clusters in and out
  simple_desc : Descriptor → List ℕ → List ℕ → Report
  leave : ℕ → Report
  -- network address, IEEE address, device type, device state
  device_info : ℕ → Bytes → ℕ → ℕ → Report
  device_info_error : ℕ → Report

abbrev pub words : List ℕ → Bytes → Bytes
words [] rest = rest
words (w ∷ ws) rest = word w (words ws rest)

-- Two command bytes and the payload; `rest` is what follows: the check sum, and for some reports
-- fields that the driver does not read.
unfoldable pub render : Report → Bytes → Bytes
render (touch_link d) rest =
    0x49
    ∷ 0x81
    ∷ word d.nwk_addr
        (d.endpoint ∷ word d.profile_id (word d.device_id (d.version ∷ d.status ∷ rest)))
render (attribute a value nwk endpoint seq) rest =
    0x49
    ∷ 0x80
    ∷ 0x0B
    ∷ word nwk (
        endpoint
        ∷ word (cluster_of a) (8 ∷ 0 ∷ seq ∷ 1 ∷ word (id_of a) (0 ∷ type_of a ∷ value ∷ rest)))
render (announce nwk ieee) rest = 0x45 ∷ 0xC1 ∷ word nwk (word nwk (ieee ++ rest))
render (simple_desc d ins outs) rest =
    0x45
    ∷ 0x84
    ∷ word d.nwk_addr (
        d.status
        ∷ word d.nwk_addr (
            (8 + 2 * length ins + 2 * length outs)
            ∷ d.endpoint
            ∷ word d.profile_id (
                word d.device_id
                  (d.version ∷ length ins ∷ words ins (length outs ∷ words outs rest)))))
render (leave nwk) rest = 0x45 ∷ 0xC9 ∷ word nwk rest
render (device_info nwk ieee device_type state) rest =
    0x67 ∷ 0 ∷ 0 ∷ (ieee ++ word nwk (device_type ∷ state ∷ rest))
render (device_info_error status) rest = 0x67 ∷ 0 ∷ status ∷ rest

abbrev pub told : Bool → Event → Option Event
told set e = if set then some e else none

-- The endpoint of touch link itself has one cluster in, one out and this profile.
abbrev pub is_touch_link : Descriptor → List ℕ → List ℕ → Bool
is_touch_link d (_ ∷ []) (_ ∷ []) = d.profile_id == 0xC05E
is_touch_link d _ _ = false

abbrev described : EpInfo → Descriptor → EpInfo
described e d = record e {
  nwk_addr = d.nwk_addr;
  endpoint = d.endpoint;
  profile_id = d.profile_id;
  device_id = d.device_id;
  version = d.version;
  status = d.status;
}

attribute_event : Attribute → ℕ → ℕ → ℕ → Event
attribute_event on_off = zcl_get_state
attribute_event level = zcl_get_level
attribute_event hue = zcl_get_hue
attribute_event saturation = zcl_get_sat

attribute_set : Callbacks → Attribute → Bool
attribute_set cb on_off = cb.pfn_zcl_get_state
attribute_set cb level = cb.pfn_zcl_get_level
attribute_set cb hue = cb.pfn_zcl_get_hue
attribute_set cb saturation = cb.pfn_zcl_get_sat

-- The callback that is due.
unfoldable pub due : Callbacks → Stack → Report → Option Event
unfolding attribute_event attribute_set
due cb stack (touch_link d) = told cb.pfn_tl_indication (tl_indication (described stack.ep_info d))
due cb stack (attribute a value nwk endpoint _) =
    told (attribute_set cb a) (attribute_event a value nwk endpoint)
due cb stack (announce nwk ieee) =
    told cb.pfn_new_dev_indication
      (new_dev_indication (record zero_ep_info { ieee_addr = ieee; nwk_addr = nwk }))
due cb stack (simple_desc d ins outs) =
    if is_touch_link d ins outs
    then none
    else told cb.pfn_zdo_simple_desc_rsp
        (zdo_simple_desc_rsp (record (described stack.ep_info d) { device_name = none }))
due cb stack (leave nwk) = told cb.pfn_zdo_leave_ind (zdo_leave_ind nwk)
due cb stack (device_info nwk ieee device_type state) =
    told cb.pfn_util_get_dev_info_rsp (util_get_dev_info_rsp 0 nwk ieee device_type state)
due cb stack (device_info_error status) =
    told cb.pfn_util_get_dev_info_rsp
      (util_get_dev_info_rsp status stack.nwk_addr stack.ieee_addr stack.dev_type stack.dev_state)
