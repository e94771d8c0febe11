-- ===== src/SimpleDb/SceneRecord.antt =====
-- A scene as a line of the database (server/Source/interface_scenelist.c, `sceneListComposeRecord`
-- and `sceneListParseRecord`). A string has no NUL in it.
pub mod Read
use lighting_gateway.Prelude.{
  if◌then◌else◌, ℕ, ◌++◌, ◌==◌, ◌||◌, ◌∷◌, Bool, List, Option, [], none, some,
}
use lighting_gateway.Prelude.Reading.{Bytes}
use lighting_gateway.SimpleDb.Parsing.{Parsed, value, mark_error}
use lighting_gateway.SimpleDb.Members.{print_members, print_name, name_of, parse_members}
use lighting_gateway.SimpleDb.Fields.{
  Parser, sdb_txt_parser_get_numeric_field, sdb_txt_parser_get_quoted_string,
}
use lighting_gateway.SimpleDb.Fields.Numbers.{hex2, hex4}

-- `sceneRecord_t`; a member is its network address and its endpoint.
pub record SceneRecord : Type 0 where
  pub group_id : ℕ
  pub scene_id : ℕ
  pub name : Option Bytes
  pub members : List (ℕ × ℕ)

-- From the second character of the line on; the first is a space too.
unfoldable pub scene_text : SceneRecord → Bytes
scene_text s =
    0x20
    ∷ 0x20
    ∷ 0x20
    ∷ 0x20
    ∷ 0x20
    ∷ 0x20
    ∷ 0x20
    ∷ 0x30
    ∷ 0x78
    ∷ hex4 s.group_id (
        0x20
        ∷ 0x2C
        ∷ 0x20
        ∷ 0x30
        ∷ 0x78
        ∷ hex2 s.scene_id
            (0x20 ∷ 0x2C ∷ 0x20 ∷ 0x22 ∷ (print_name s.name ++ (0x22 ∷ print_members s.members))))

unfoldable pub scene_list_compose_record : SceneRecord → Bytes
unfolding scene_text
scene_list_compose_record s = 0x20 ∷ scene_text s

abbrev pub parsed : ℕ → ℕ → Bytes → List (ℕ × ℕ) × Parser → Parsed SceneRecord
parsed group_id scene_id name (members, p) =
    if (p.code == 0) || (p.code == 1)
    then value (record {
      group_id = group_id;
      scene_id = scene_id;
      name = name_of name;
      members = members;
    })
    else mark_error p

-- `none`: the text was read past its end.
unfoldable pub parse_named : ℕ → ℕ → Option (Bytes × Parser) → Option (Parsed SceneRecord)
unfolding parse_members
parse_named group_id scene_id none = none
parse_named group_id scene_id (some (name, p)) =
    some (parsed group_id scene_id name (parse_members 20 p))

unfoldable pub parse_fields : ℕ → ℕ × Parser → Option (Parsed SceneRecord)
unfolding parse_named
parse_fields group_id (scene_id, p) =
    parse_named group_id scene_id (sdb_txt_parser_get_quoted_string 32 p)

unfoldable pub parse_from : ℕ × Parser → Option (Parsed SceneRecord)
unfolding parse_fields
parse_from (group_id, p) = parse_fields group_id (sdb_txt_parser_get_numeric_field 1 p)

-- With whether `errno` is `ERANGE` before; nothing resets it.
unfoldable pub scene_list_parse_record : Bool → Bytes → Option (Parsed SceneRecord)
unfolding parse_from
scene_list_parse_record erange [] = none
scene_list_parse_record erange (mark ∷ text) = parse_from (
    sdb_txt_parser_get_numeric_field 2
      (record { rest = text; code = 0; error_left = 0; field = 0; erange = erange }))
