-- ===== src/Lists.antt =====
-- The lists of devices, groups and scenes as the rest of the server uses them
-- (server/Source/interface_devicelist.h, interface_grouplist.h, interface_scenelist.h): an interface
-- over the type `L` of the files that they are stored in.
use lighting_gateway.Prelude.{ℕ, ◌++◌, ◌==◌, ◌∷◌, ◌≡◌, All, List, Option, false, none, some}
use lighting_gateway.Prelude.Reading.{Bytes}
use lighting_gateway.Endpoint.{EpInfo}

-- `groupRecord_t` without its members, which no caller uses.
pub record Group : Type 0 where
  pub id : ℕ
  pub name : Option Bytes

-- `sceneRecord_t`
pub record Scene : Type 0 where
  pub name : Option Bytes
  pub scene_id : ℕ
  pub group_id : ℕ

-- The three enumerations are what the calls of `devListGetNextDev`, `groupListGetNextGroup` and
-- `sceneListGetNextScene` return one after the other, from a context of 0 on. A search or an
-- enumeration gives the lists as it leaves them: it marks the lines of bad format that it comes to.
pub record Lists (L : Type 0) : Type 0 where
  pub dev_list_add_device : EpInfo → L → L
  pub dev_list_remove_device_by_na_ep : ℕ → ℕ → L → Option EpInfo × L
  pub dev_list_get_device_by_na_ep : ℕ → ℕ → L → Option EpInfo × L
  pub dev_list_get_device_by_ieee_ep : Bytes → ℕ → L → Option EpInfo × L
  pub devices : L → List EpInfo × L
  pub group_list_add_device_to_group : Bytes → ℕ → ℕ → L → ℕ × L
  pub groups : L → List Group × L
  pub scene_list_add_scene : Bytes → ℕ → L → ℕ × L
  pub scene_list_get_scene_id : Bytes → ℕ → L → ℕ × L
  pub scenes : L → List Scene × L

-- What the callers rely on, on lists that are valid: after a removal they are valid; a removed device
-- has the address, was in the list, and the others stay as they are; and where there is none, the
-- devices stay and there is none afterwards. The endpoint 0xFF stands for all.
pub record DeviceLaws {L : Type 0} (ops : Lists L) (IsValid : L → Type 0) : Type 0 where
  pub remove-IsValid :
      (nwk_addr endpoint : ℕ) (l : L)
      → IsValid l
      → IsValid (ops.dev_list_remove_device_by_na_ep nwk_addr endpoint l).1
  pub removed :
      (nwk_addr endpoint : ℕ) (l : L) (e : EpInfo)
      → IsValid l
      → (ops.dev_list_remove_device_by_na_ep nwk_addr endpoint l).0 ≡ some e
      → (pre : List EpInfo) × (post : List EpInfo) × (e.nwk_addr ≡ nwk_addr)
        × ((ops.devices l).0 ≡ pre ++ e ∷ post)
        × ((ops.devices (ops.dev_list_remove_device_by_na_ep nwk_addr endpoint l).1).0
            ≡ pre ++ post)
  pub missing :
      (nwk_addr endpoint : ℕ) (l : L)
      → IsValid l
      → (ops.dev_list_remove_device_by_na_ep nwk_addr endpoint l).0 ≡ none
      → ((ops.dev_list_remove_device_by_na_ep nwk_addr endpoint
            (ops.dev_list_remove_device_by_na_ep nwk_addr endpoint l).1).0
          ≡ none)
        × ((ops.devices (ops.dev_list_remove_device_by_na_ep nwk_addr endpoint l).1).0
            ≡ (ops.devices l).0)
  pub none_left :
      (nwk_addr : ℕ) (l : L)
      → IsValid l
      → (ops.dev_list_remove_device_by_na_ep nwk_addr 0xFF l).0 ≡ none
      → All (λ e. (e.nwk_addr == nwk_addr) ≡ false) (ops.devices l).0
