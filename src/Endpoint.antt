-- ===== src/Endpoint.antt =====
-- The endpoint record of zbSocDriver/zbSocCmd.h, which the driver, the device list and the SRPC
-- server pass around, and what kind of news of it a client gets.
use lighting_gateway.Prelude.{ℕ, ◌∷◌, Option, [], none}
use lighting_gateway.Prelude.Reading.{Bytes}

-- `epInfo_t`; the IEEE address is an array of eight bytes, and `deviceName` a C string or `NULL`.
pub record EpInfo : Type 0 where
  pub ieee_addr : Bytes
  pub nwk_addr : ℕ
  pub endpoint : ℕ
  pub profile_id : ℕ
  pub device_id : ℕ
  pub version : ℕ
  pub device_name : Option Bytes
  pub status : ℕ
  pub flags : ℕ

-- `epInfo_t epInfo = { 0 };`
abbrev pub zero_ep_info : EpInfo
zero_ep_info = record {
  ieee_addr = 0 ∷ 0 ∷ 0 ∷ 0 ∷ 0 ∷ 0 ∷ 0 ∷ 0 ∷ [];
  nwk_addr = 0;
  endpoint = 0;
  profile_id = 0;
  device_id = 0;
  version = 0;
  device_name = none;
  status = 0;
  flags = 0;
}

-- `EP_INFO_TYPE_EXISTING` and the others
abbrev pub type_existing : ℕ
type_existing = 0

abbrev pub type_new : ℕ
type_new = 1

abbrev pub type_updated : ℕ
type_updated = 2

abbrev pub type_removed : ℕ
type_removed = 4

-- `epInfoExtended_t`
pub record EpInfoExtended : Type 0 where
  pub ep_info : EpInfo
  pub prev_nwk_addr : ℕ
  pub type : ℕ
