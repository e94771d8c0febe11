-- ===== src/Soc/Rpc.antt =====
-- The messages from the chip (zbSocDriver/zbSocCmd.c): the callbacks that they lead to.
-- A handler reads its part of the buffer through a moving pointer, so it is a `Reader`; `none` is a
-- read past the end of the buffer. Its value is the callback that is made, if any.
pub mod Zcl
pub mod Zdo
pub mod Process
pub mod Receive
pub mod Report
use lighting_gateway.Prelude.{if◌then◌else◌, ℕ, Bool, Option, none, set, some}
use lighting_gateway.Prelude.Reading.{Bytes, Reader, pure}
use lighting_gateway.Endpoint.{EpInfo}

-- The calls through `zbSocCb`.
pub data Event : Type 0 where
  tl_indication : EpInfo → Event
  new_dev_indication : EpInfo → Event
  -- value, network address, endpoint
  zcl_get_state : ℕ → ℕ → ℕ → Event
  zcl_get_level : ℕ → ℕ → ℕ → Event
  zcl_get_hue : ℕ → ℕ → ℕ → Event
  zcl_get_sat : ℕ → ℕ → ℕ → Event
  zdo_simple_desc_rsp : EpInfo → Event
  zdo_leave_ind : ℕ → Event
  -- status, network address, IEEE address, device type, device state
  util_get_dev_info_rsp : ℕ → ℕ → Bytes → ℕ → ℕ → Event
  -- the buffer from the attribute's value on
  zcl_get_model : Bytes → Event

-- `zbSocCallbacks_t`: which of the pointers are not `NULL`.
pub record Callbacks : Type 0 where
  pub pfn_tl_indication : Bool
  pub pfn_new_dev_indication : Bool
  pub pfn_zcl_get_state : Bool
  pub pfn_zcl_get_level : Bool
  pub pfn_zcl_get_hue : Bool
  pub pfn_zcl_get_sat : Bool
  pub pfn_zdo_simple_desc_rsp : Bool
  pub pfn_zdo_leave_ind : Bool
  pub pfn_util_get_dev_info_rsp : Bool
  pub pfn_zcl_get_model : Bool

-- What the stack holds where a local variable is not set before it is used.
pub record Stack : Type 0 where
  pub sof_byte : ℕ
  pub ep_info : EpInfo
  pub nwk_addr : ℕ
  pub ieee_addr : Bytes
  pub dev_type : ℕ
  pub dev_state : ℕ

-- `if (callback) callback(…);`
abbrev pub notify : Bool → Event → Reader (Option Event)
notify set e = pure (if set then some e else none)

abbrev pub nothing : Reader (Option Event)
nothing = pure none
