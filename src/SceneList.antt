-- ===== src/SceneList.antt =====
-- The list of scenes (server/Source/interface_scenelist.c). A string has no NUL in it.
pub mod Line
pub mod Contents
use lighting_gateway.Prelude.{ℕ, ◌&&◌, ◌==◌, ◌^◌, Bool, List, Option, [], length, none, some, suc}
use lighting_gateway.Prelude.Reading.{Bytes}
use lighting_gateway.SimpleDb.{Db, sdb_add_record}
use lighting_gateway.SimpleDb.Parsing.{get_unique, get_unused, get_next, enumerate, always}
use lighting_gateway.SimpleDb.SceneRecord.{
  SceneRecord, scene_list_compose_record, scene_list_parse_record,
}
use lighting_gateway.DeviceList.{same_bytes}

-- The file, and the static variable of `sceneListGetUnusedSceneId`.
pub record SceneList : Type 0 where
  pub db : Db
  pub last_used_scene_id : ℕ

-- `strcmp(scene->name, key->name) == 0`; a scene without a name is compared by a null pointer.
abbrev pub named : Bytes → Option Bytes → Option Bool
named key none = none
named key (some name) = some (same_bytes name key)

abbrev pub and_group : Bool → Option Bool → Option Bool
and_group g none = none
and_group g (some b) = some (b && g)

-- `sceneListCheckKeyNameGid`
abbrev pub has_name_gid : Bytes → ℕ → SceneRecord → Option Bool
has_name_gid name group_id s = and_group (s.group_id == group_id) (named name s.name)

-- `sceneListCheckKeyId`
abbrev pub has_scene_id : ℕ → SceneRecord → Bool
has_scene_id n s = s.scene_id == n

unfoldable pub scene_list_get_scene_by_name_gid : Bytes → ℕ → Db → Option SceneRecord × Db
unfolding get_unique scene_list_parse_record
scene_list_get_scene_by_name_gid name group_id db =
    get_unique scene_list_parse_record (has_name_gid name group_id) db

-- A `uint8_t` that is counted up.
unfoldable pub scene_list_get_unused_scene_id : SceneList → ℕ × SceneList
unfolding get_unused scene_list_parse_record
scene_list_get_unused_scene_id l =
    let (n, db) =
      get_unused scene_list_parse_record (λ n. always (has_scene_id n)) (2 ^ 8) l.last_used_scene_id
        l.db in
    (n, record { db = db; last_used_scene_id = n })

abbrev pub new_scene : Bytes → ℕ → ℕ × SceneList → ℕ × SceneList
new_scene name group_id (n, l) =
    let s : SceneRecord = record {
      group_id = group_id;
      scene_id = n;
      name = some name;
      members = [];
    } in
    (n, record l { db = sdb_add_record (scene_list_compose_record s) l.db })

unfoldable pub add_found : Bytes → ℕ → Option SceneRecord → SceneList → ℕ × SceneList
unfolding scene_list_get_unused_scene_id
add_found name group_id (some s) l = (s.scene_id, l)
add_found name group_id none l = new_scene name group_id (scene_list_get_unused_scene_id l)

unfoldable pub scene_list_add_scene : Bytes → ℕ → SceneList → ℕ × SceneList
unfolding scene_list_get_scene_by_name_gid add_found
scene_list_add_scene name group_id l =
    let (s, db) = scene_list_get_scene_by_name_gid name group_id l.db in
    add_found name group_id s (record l { db = db })

-- -1 as a `uint8_t` where there is none.
abbrev pub scene_id_of : Option SceneRecord → ℕ
scene_id_of none = 0xFF
scene_id_of (some s) = s.scene_id

unfoldable pub scene_list_get_scene_id : Bytes → ℕ → SceneList → ℕ × SceneList
unfolding scene_list_get_scene_by_name_gid
scene_list_get_scene_id name group_id l =
    let (s, db) = scene_list_get_scene_by_name_gid name group_id l.db in
    (scene_id_of s, record l { db = db })

unfoldable pub scene_list_get_next_scene : ℕ → Db → Option (SceneRecord × ℕ) × Db
unfolding get_next scene_list_parse_record
scene_list_get_next_scene context db = get_next scene_list_parse_record context db

-- The calls of `sceneListGetNextScene` from a context of 0 on, until it returns `NULL`.
unfoldable pub scene_list_scenes : SceneList → List SceneRecord × SceneList
unfolding enumerate scene_list_parse_record
scene_list_scenes l =
    let (ss, db) = enumerate scene_list_parse_record (suc (length l.db.file)) 0 l.db in
    (ss, record l { db = db })
