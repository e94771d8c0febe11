-- ===== src/ListFiles.antt =====
-- The three lists on their files (server/Source/interface_devicelist.c, interface_grouplist.c and
-- interface_scenelist.c) as an implementation of the interface that the other parts take.
pub mod Laws
pub mod Leave
pub mod Told
use mathlib.Core.List.{map}
use lighting_gateway.Prelude.{refl}
use lighting_gateway.Prelude.Reading.{Bytes}
use lighting_gateway.Endpoint.{EpInfo}
use lighting_gateway.Lists.{Lists, Group, Scene}
use lighting_gateway.SimpleDb.{Db}
use lighting_gateway.SimpleDb.SceneRecord.{SceneRecord}
use lighting_gateway.DeviceList.{
  dev_list_add_device, dev_list_remove_device_by_na_ep, dev_list_get_device_by_na_ep,
  dev_list_get_device_by_ieee_ep, dev_list_devices,
}
use lighting_gateway.GroupList.{
  GroupRecord, GroupList, group_list_add_device_to_group, group_list_groups,
}
use lighting_gateway.SceneList.{
  SceneList, scene_list_add_scene, scene_list_get_scene_id, scene_list_scenes,
}

pub record ListFiles : Type 0 where
  pub devices : Db
  pub groups : GroupList
  pub scenes : SceneList

-- `errno` and a fault are those of the one process.
abbrev pub share : Db → Db → Db
share from db = record db { erange = from.erange; fault = from.fault }

abbrev pub with_devices : ListFiles → Db → ListFiles
with_devices l db = record {
  devices = db;
  groups = record l.groups { db = share db l.groups.db };
  scenes = record l.scenes { db = share db l.scenes.db };
}

abbrev pub with_groups : ListFiles → GroupList → ListFiles
with_groups l gs = record {
  devices = share gs.db l.devices;
  groups = gs;
  scenes = record l.scenes { db = share gs.db l.scenes.db };
}

abbrev pub with_scenes : ListFiles → SceneList → ListFiles
with_scenes l ss = record {
  devices = share ss.db l.devices;
  groups = record l.groups { db = share ss.db l.groups.db };
  scenes = ss;
}

abbrev pub group_of : GroupRecord → Group
group_of g = record { id = g.id; name = g.name }

abbrev pub scene_of : SceneRecord → Scene
scene_of s = record { name = s.name; scene_id = s.scene_id; group_id = s.group_id }

-- Every operation gives the files as it leaves them, with the lines that a search has marked.
unfoldable pub files : Lists ListFiles
unfolding dev_list_add_device dev_list_remove_device_by_na_ep dev_list_get_device_by_na_ep
    dev_list_get_device_by_ieee_ep dev_list_devices group_list_add_device_to_group group_list_groups
    scene_list_add_scene scene_list_get_scene_id scene_list_scenes
files = record {
  dev_list_add_device = λ e l. with_devices l (dev_list_add_device e l.devices);
  dev_list_remove_device_by_na_ep = λ nwk_addr endpoint l.
      let (r, db) = dev_list_remove_device_by_na_ep nwk_addr endpoint l.devices in
      (r, with_devices l db);
  dev_list_get_device_by_na_ep = λ nwk_addr endpoint l.
      let (r, db) = dev_list_get_device_by_na_ep nwk_addr endpoint l.devices in
      (r, with_devices l db);
  dev_list_get_device_by_ieee_ep = λ ieee_addr endpoint l.
      let (r, db) = dev_list_get_device_by_ieee_ep ieee_addr endpoint l.devices in
      (r, with_devices l db);
  devices = λ l. let (es, db) = dev_list_devices l.devices in (es, with_devices l db);
  group_list_add_device_to_group = λ name nwk_addr endpoint l.
      let (n, gs) = group_list_add_device_to_group name nwk_addr endpoint l.groups in
      (n, with_groups l gs);
  groups =
      λ l. let (gs, list) = group_list_groups l.groups in (map group_of gs, with_groups l list);
  scene_list_add_scene = λ name group_id l.
      let (n, ss) = scene_list_add_scene name group_id l.scenes in (n, with_scenes l ss);
  scene_list_get_scene_id = λ name group_id l.
      let (n, list) = scene_list_get_scene_id name group_id l.scenes in (n, with_scenes l list);
  scenes =
      λ l. let (ss, list) = scene_list_scenes l.scenes in (map scene_of ss, with_scenes l list);
}
