-- ===== src/Tests/Memory.antt =====
-- Lists of devices in memory: an implementation of the interface of the lists that keeps its laws.
use lighting_gateway.Prelude.{
  ℕ, ◌++◌, ◌∙◌, ◌∷◌, List, Option, [], ap, first_of, first_of-split, first_of-none, none,
  without_first_of, without_first_of-missing,
}
use lighting_gateway.Endpoint.{EpInfo}
use lighting_gateway.Lists.{Lists, DeviceLaws}
use lighting_gateway.DeviceList.{has_na_ep}
use lighting_gateway.DeviceList.Contents.{first_of-nwk_addr, none_at}

abbrev pub remove : ℕ → ℕ → List EpInfo → Option EpInfo × List EpInfo
remove nwk_addr endpoint l =
    (first_of (has_na_ep nwk_addr endpoint) l, without_first_of (has_na_ep nwk_addr endpoint) l)

-- Every group has the number 1, and every scene the number 2.
unfoldable pub memory : Lists (List EpInfo)
memory = record {
  dev_list_add_device = λ e l. l ++ e ∷ [];
  dev_list_remove_device_by_na_ep = remove;
  dev_list_get_device_by_na_ep = λ nwk endpoint l. ((remove nwk endpoint l).0, l);
  dev_list_get_device_by_ieee_ep = λ ieee endpoint l. (none, l);
  devices = λ l. (l, l);
  group_list_add_device_to_group = λ name nwk endpoint l. (1, l);
  groups = λ l. ([], l);
  scene_list_add_scene = λ name group l. (2, l);
  scene_list_get_scene_id = λ name group l. (2, l);
  scenes = λ l. ([], l);
}

pub memory_laws : DeviceLaws memory (λ l. Unit)
unfolding memory
memory_laws = record {
  remove-IsValid = λ nwk_addr endpoint l v. v;
  removed = λ nwk_addr endpoint l e v h.
      let (pre, post, before, after) = first_of-split (has_na_ep nwk_addr endpoint) l e h in
      (pre, post, first_of-nwk_addr nwk_addr endpoint l e h, before, after);
  missing = λ nwk_addr endpoint l v h.
      let same = without_first_of-missing (has_na_ep nwk_addr endpoint) l h in
      (ap (first_of (has_na_ep nwk_addr endpoint)) same ∙ h, same);
  none_left = λ nwk_addr l v h. none_at nwk_addr l (first_of-none (has_na_ep nwk_addr 0xFF) l h);
}
