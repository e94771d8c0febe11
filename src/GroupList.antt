-- ===== src/GroupList.antt =====
-- The list of groups (server/Source/interface_grouplist.c). A string has no NUL in it.
pub mod Line
pub mod Contents
use lighting_gateway.Prelude.{
  if◌then◌else◌, ℕ, ◌&&◌, ◌++◌, ◌==◌, ◌^◌, ◌||◌, ◌∷◌, Bool, List, Option, [], false, length, none,
  some, suc,
}
use lighting_gateway.Prelude.Reading.{Bytes}
use lighting_gateway.SimpleDb.{Db, sdb_add_record}
use lighting_gateway.SimpleDb.Fields.{
  Parser, sdb_txt_parser_get_numeric_field, sdb_txt_parser_get_quoted_string,
}
use lighting_gateway.SimpleDb.Fields.Numbers.{hex4}
use lighting_gateway.SimpleDb.Members.{print_members, parse_members, print_name, name_of}
use lighting_gateway.SimpleDb.Parsing.{
  Parsed, value, mark_error, ParseRecord, get_unique, remove_unique, get_unused, get_next,
  enumerate, always,
}
use lighting_gateway.SceneList.{named}

-- `groupRecord_t`; a member is its network address and its endpoint.
pub record GroupRecord : Type 0 where
  pub id : ℕ
  pub name : Option Bytes
  pub members : List (ℕ × ℕ)

-- The file, and the static variable of `groupListGetUnusedGroupId`.
pub record GroupList : Type 0 where
  pub db : Db
  pub last_used_group_id : ℕ

-- The line from its second character on.
unfoldable pub group_text : GroupRecord → Bytes
group_text g =
    let named = print_name g.name ++ (0x22 ∷ print_members g.members) in
    0x20
    ∷ 0x20
    ∷ 0x20
    ∷ 0x20
    ∷ 0x20
    ∷ 0x20
    ∷ 0x20
    ∷ 0x30
    ∷ 0x78
    ∷ hex4 g.id (0x20 ∷ 0x2C ∷ 0x20 ∷ 0x22 ∷ named)

unfoldable pub group_list_compose_record : GroupRecord → Bytes
unfolding group_text
group_list_compose_record g = 0x20 ∷ group_text g

abbrev pub group_parsed : ℕ → Bytes → List (ℕ × ℕ) × Parser → Parsed GroupRecord
group_parsed id name (members, p) =
    if (p.code == 0) || (p.code == 1)
    then value (record { id = id; name = name_of name; members = members })
    else mark_error p

unfoldable pub group_named : ℕ → Option (Bytes × Parser) → Option (Parsed GroupRecord)
unfolding parse_members
group_named id none = none
group_named id (some (name, p)) = some (group_parsed id name (parse_members 20 p))

unfoldable pub group_fields : ℕ × Parser → Option (Parsed GroupRecord)
unfolding group_named
group_fields (id, p) = group_named id (sdb_txt_parser_get_quoted_string 32 p)

unfoldable pub group_list_parse_record : ParseRecord GroupRecord
unfolding group_fields
group_list_parse_record erange [] = none
group_list_parse_record erange (mark ∷ text) = group_fields (
    sdb_txt_parser_get_numeric_field 2
      (record { rest = text; code = 0; error_left = 0; field = 0; erange = erange }))

-- `groupListCheckKeyName`
abbrev pub has_name : Bytes → GroupRecord → Option Bool
has_name key g = named key g.name

-- `groupListCheckKeyId`
abbrev pub has_id : ℕ → GroupRecord → Bool
has_id n g = g.id == n

unfoldable pub group_list_get_group_by_name : Bytes → Db → Option GroupRecord × Db
unfolding get_unique group_list_parse_record
group_list_get_group_by_name name db = get_unique group_list_parse_record (has_name name) db

-- A `uint16_t` that is counted up.
unfoldable pub group_list_get_unused_group_id : GroupList → ℕ × GroupList
unfolding get_unused group_list_parse_record
group_list_get_unused_group_id l =
    let (n, db) =
      get_unused group_list_parse_record (λ n. always (has_id n)) (2 ^ 16) l.last_used_group_id
        l.db in
    (n, record { db = db; last_used_group_id = n })

abbrev pub add_record : GroupRecord → GroupList → GroupList
add_record g l = record l { db = sdb_add_record (group_list_compose_record g) l.db }

abbrev pub new_group : Bytes → List (ℕ × ℕ) → ℕ × GroupList → GroupRecord × GroupList
new_group name members (n, l) = (record { id = n; name = some name; members = members }, l)

abbrev pub added_group : GroupRecord × GroupList → ℕ × GroupList
added_group (g, l) = (g.id, add_record g l)

unfoldable pub add_group_found : Bytes → Option GroupRecord → GroupList → ℕ × GroupList
unfolding group_list_get_unused_group_id
add_group_found name (some g) l = (g.id, l)
add_group_found name none l = added_group (new_group name [] (group_list_get_unused_group_id l))

unfoldable pub group_list_add_group : Bytes → GroupList → ℕ × GroupList
unfolding group_list_get_group_by_name add_group_found
group_list_add_group name l =
    let (g, db) = group_list_get_group_by_name name l.db in
    add_group_found name g (record l { db = db })

unfoldable pub group_list_remove_group_by_name : Bytes → Db → Option GroupRecord × Db
unfolding remove_unique group_list_parse_record
group_list_remove_group_by_name name db = remove_unique group_list_parse_record (has_name name) db

-- The search of `groupListAddDeviceToGroup` in the members.
abbrev pub is_member : ℕ × ℕ → List (ℕ × ℕ) → Bool
is_member m [] = false
is_member (address, endpoint) ((a, e) ∷ ms) =
    ((a == address) && (e == endpoint)) || is_member (address, endpoint) ms

-- The line is written anew behind the others, with the member at its end.
unfoldable pub join : Bytes → ℕ × ℕ → GroupRecord → GroupList → GroupList
unfolding group_list_remove_group_by_name
join name m g l =
    let (old, db) = group_list_remove_group_by_name name l.db in
    add_record (record g { members = g.members ++ m ∷ [] }) (record l { db = db })

unfoldable pub joined : Bytes → ℕ × ℕ → GroupRecord × GroupList → ℕ × GroupList
unfolding join
joined name m (g, l) = (g.id, if is_member m g.members then l else join name m g l)

unfoldable pub found_or_new : Bytes → Option GroupRecord → GroupList → GroupRecord × GroupList
unfolding group_list_get_unused_group_id
found_or_new name (some g) l = (g, l)
found_or_new name none l = new_group name [] (group_list_get_unused_group_id l)

unfoldable pub group_list_add_device_to_group : Bytes → ℕ → ℕ → GroupList → ℕ × GroupList
unfolding group_list_get_group_by_name found_or_new joined
group_list_add_device_to_group name nwk_addr endpoint l =
    let (g, db) = group_list_get_group_by_name name l.db in
    joined name (nwk_addr, endpoint) (found_or_new name g (record l { db = db }))

unfoldable pub group_list_get_next_group : ℕ → Db → Option (GroupRecord × ℕ) × Db
unfolding get_next group_list_parse_record
group_list_get_next_group context db = get_next group_list_parse_record context db

-- The calls of `groupListGetNextGroup` from a context of 0 on, until it returns `NULL`.
unfoldable pub group_list_groups : GroupList → List GroupRecord × GroupList
unfolding enumerate group_list_parse_record
group_list_groups l =
    let (gs, db) = enumerate group_list_parse_record (suc (length l.db.file)) 0 l.db in
    (gs, record l { db = db })
