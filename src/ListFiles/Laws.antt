-- ===== src/ListFiles/Laws.antt =====
-- The lists on files keep the laws of the interface.
use lighting_gateway.Prelude.{
  ℕ, ◌++◌, ◌==◌, ◌∙◌, ◌∷◌, ◌≡◌, All, List, ap, false, first_of, first_of-none, first_of-split, none,
  some, sym, without_first_of, without_first_of-missing,
}
use lighting_gateway.Endpoint.{EpInfo}
use lighting_gateway.Lists.{DeviceLaws}
use lighting_gateway.SimpleDb.Typed.Enumeration.{enumerate-HoldsAll}
use lighting_gateway.DeviceList.{dev_list_devices, has_na_ep}
use lighting_gateway.DeviceList.Contents.{
  first_of-nwk_addr, none_at, HoldsDevices, device_codec,
  dev_list_remove_device_by_na_ep-HoldsDevices,
}
use lighting_gateway.ListFiles.{ListFiles, files}

-- The file of devices holds devices that can be read back.
abbrev pub HasDevices : ListFiles → Type 0
HasDevices l = (es : List EpInfo) × HoldsDevices l.devices es

pub devices_lem :
    (l : ListFiles) (es : List EpInfo) → HoldsDevices l.devices es → (files.devices l).0 ≡ es
unfolding files dev_list_devices
devices_lem l es h = (enumerate-HoldsAll device_codec l.devices es h).0

remove_lem :
    (nwk_addr endpoint : ℕ) (l : ListFiles) (es : List EpInfo)
    → HoldsDevices l.devices es
    → ((files.dev_list_remove_device_by_na_ep nwk_addr endpoint l).0
        ≡ first_of (has_na_ep nwk_addr endpoint) es)
      × HoldsDevices
          (files.dev_list_remove_device_by_na_ep nwk_addr endpoint l).1.devices
          (without_first_of (has_na_ep nwk_addr endpoint) es)
unfolding files
remove_lem nwk_addr endpoint l es h =
    dev_list_remove_device_by_na_ep-HoldsDevices nwk_addr endpoint l.devices es h

remove-HasDevices :
    (nwk_addr endpoint : ℕ) (l : ListFiles)
    → HasDevices l
    → HasDevices (files.dev_list_remove_device_by_na_ep nwk_addr endpoint l).1
remove-HasDevices nwk_addr endpoint l (es, h) =
    (without_first_of (has_na_ep nwk_addr endpoint) es, (remove_lem nwk_addr endpoint l es h).1)

files_removed :
    (nwk_addr endpoint : ℕ) (l : ListFiles) (e : EpInfo)
    → HasDevices l
    → (files.dev_list_remove_device_by_na_ep nwk_addr endpoint l).0 ≡ some e
    → (pre : List EpInfo) × (post : List EpInfo) × (e.nwk_addr ≡ nwk_addr)
      × ((files.devices l).0 ≡ pre ++ e ∷ post)
      × ((files.devices (files.dev_list_remove_device_by_na_ep nwk_addr endpoint l).1).0
          ≡ pre ++ post)
files_removed nwk_addr endpoint l e (es, h) found =
    let (r, held) = remove_lem nwk_addr endpoint l es h in
    let (pre, post, before, after) =
      first_of-split (has_na_ep nwk_addr endpoint) es e (sym r ∙ found) in
    (
      pre,
      post,
      first_of-nwk_addr nwk_addr endpoint es e (sym r ∙ found),
      devices_lem l es h ∙ before,
      devices_lem (files.dev_list_remove_device_by_na_ep nwk_addr endpoint l).1
            (without_first_of (has_na_ep nwk_addr endpoint) es) held
          ∙ after,
    )

files_missing :
    (nwk_addr endpoint : ℕ) (l : ListFiles)
    → HasDevices l
    → (files.dev_list_remove_device_by_na_ep nwk_addr endpoint l).0 ≡ none
    → ((files.dev_list_remove_device_by_na_ep nwk_addr endpoint
          (files.dev_list_remove_device_by_na_ep nwk_addr endpoint l).1).0
        ≡ none)
      × ((files.devices (files.dev_list_remove_device_by_na_ep nwk_addr endpoint l).1).0
          ≡ (files.devices l).0)
files_missing nwk_addr endpoint l (es, h) gone =
    let q = has_na_ep nwk_addr endpoint in
    let (r, held) = remove_lem nwk_addr endpoint l es h in
    let same = without_first_of-missing q es (sym r ∙ gone) in
    let (again, _) =
      remove_lem nwk_addr endpoint (files.dev_list_remove_device_by_na_ep nwk_addr endpoint l).1
        (without_first_of q es) held in
    (
      again ∙ ap (first_of q) same ∙ sym r ∙ gone,
      devices_lem (files.dev_list_remove_device_by_na_ep nwk_addr endpoint l).1
            (without_first_of q es) held
          ∙ same
          ∙ sym (devices_lem l es h),
    )

files_none_left :
    (nwk_addr : ℕ) (l : ListFiles)
    → HasDevices l
    → (files.dev_list_remove_device_by_na_ep nwk_addr 0xFF l).0 ≡ none
    → All (λ e. (e.nwk_addr == nwk_addr) ≡ false) (files.devices l).0
files_none_left nwk_addr l (es, h) gone =
    let (r, _) = remove_lem nwk_addr 0xFF l es h in
    rw (devices_lem l es h)
      (none_at nwk_addr es (first_of-none (has_na_ep nwk_addr 0xFF) es (sym r ∙ gone)))

-- The lists on files keep the laws that the other parts rely on, where the file of devices holds
-- devices that can be read back: removing by address and endpoint leaves such a file and takes one
-- device with that address out of the list, with the others in order; where it finds none the list
-- stays and a second removal finds none, and with the endpoint 0xFF no device with the address is
-- left.
pub files-DeviceLaws : DeviceLaws files HasDevices
files-DeviceLaws = record {
  remove-IsValid = remove-HasDevices;
  removed = files_removed;
  missing = files_missing;
  none_left = files_none_left;
}
