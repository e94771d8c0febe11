-- ===== src/SimpleDb/SceneRecord/Read.antt =====
-- A scene that was written is read back.
use lighting_gateway.Prelude.{
  lt→ltb, ℕ, ◌++◌, ◌<◌, ◌∙◌, ◌∷◌, ◌≡◌, ◌≤◌, Bool, Option, ap, arith, false, length, none, refl,
  some, true,
}
use lighting_gateway.Prelude.Reading.{Bytes}
use lighting_gateway.SimpleDb.SceneRecord.{
  SceneRecord, print_members, scene_list_compose_record, parse_members, name_of,
  scene_list_parse_record, print_name, scene_text, parsed, parse_named, parse_fields, parse_from,
}
use lighting_gateway.SimpleDb.Parsing.{value, mark_error}
use lighting_gateway.SimpleDb.Members.{print_members, print_name, name_of, parse_members}
use lighting_gateway.SimpleDb.Members.Read.{AreReadable, parse_members-print}
use lighting_gateway.SimpleDb.Fields.Written.{get_address-hex, get_byte-hex, get_quoted_string-name}
use lighting_gateway.SimpleDb.Fields.{
  numeric_result, strtoul, strtoul_result, with_sign, to_quote, sdb_txt_parser_move_to_next_field,
  sdb_txt_parser_get_quoted_string, Parser, drop_spaces, next_field,
  sdb_txt_parser_get_numeric_field,
}
use lighting_gateway.SimpleDb.Fields.Numbers.{hex2, hex4, number-hex4, get_numeric_field-large}

-- The name is no empty string, has no quote and at most 32 characters; there are at most 20 members.
abbrev pub IsReadable : SceneRecord → Type 0
IsReadable s =
    (s.group_id ≤ 0xFF00)
    × (s.scene_id < 256)
    × (name_of (print_name s.name) ≡ s.name)
    × (to_quote (print_name s.name) ≡ none)
    × (length (print_name s.name) ≤ 32)
    × AreReadable s.members
    × (length s.members ≤ 20)

-- Parsing the line composed for a scene gives the scene back, if errno is not ERANGE before and the
-- scene has a group and members with 16-bit numbers of at most 0xFF00, 8-bit scene and endpoint
-- numbers, a name that is no empty string and has at most 32 characters and no quote, or no name,
-- and at most 20 members.
pub scene_list_parse_record-scene_list_compose_record :
    (s : SceneRecord)
    → IsReadable s
    → scene_list_parse_record false (scene_list_compose_record s) ≡ some (value s)
unfolding scene_list_parse_record scene_list_compose_record scene_text parse_from parse_fields
    parse_named sdb_txt_parser_move_to_next_field next_field
scene_list_parse_record-scene_list_compose_record s (hg, hs, named, plain, short, ok, few) =
    let name = print_name s.name in
    let quoted = 0x20 ∷ 0x22 ∷ (name ++ (0x22 ∷ print_members s.members)) in
    let later = 0x20 ∷ 0x30 ∷ 0x78 ∷ hex2 s.scene_id (0x20 ∷ 0x2C ∷ quoted) in
    ap parse_from (get_address-hex s.group_id 0 (scene_text s) later refl hg)
    ∙ ap (parse_fields s.group_id)
        (get_byte-hex s.scene_id 1 0x20 later (0x2C ∷ quoted) refl refl hs)
    ∙ ap (parse_named s.group_id s.scene_id)
        (get_quoted_string-name name (print_members s.members) 2 plain short)
    ∙ ap (λ r. some (parsed s.group_id s.scene_id name r))
        (parse_members-print 20 s.members 3 ok few)
    ∙ rw named refl

-- The line composed for a scene of a group with a 16-bit number above 0xFF00 is marked with the
-- error that a value is out of range when it is parsed, if errno is not ERANGE before.
pub scene_list_parse_record-mark_error :
    (s : SceneRecord)
    → 0xFF00 < s.group_id
    → s.group_id < 65536
    → (p : Parser) × (scene_list_parse_record false (scene_list_compose_record s)
        ≡ some (mark_error p))
      × (p.code ≡ 5)
unfolding scene_list_parse_record scene_list_compose_record scene_text parse_from parse_fields
    parse_named sdb_txt_parser_get_numeric_field sdb_txt_parser_get_quoted_string parse_members
scene_list_parse_record-mark_error s large small =
    let quoted = 0x20 ∷ 0x22 ∷ (print_name s.name ++ (0x22 ∷ print_members s.members)) in
    let later = 0x20 ∷ 0x2C ∷ 0x20 ∷ 0x30 ∷ 0x78 ∷ hex2 s.scene_id (0x20 ∷ 0x2C ∷ quoted) in
    (
      _,
      ap parse_from (
          get_numeric_field-large 2 s.group_id 0 (scene_text s) (hex4 s.group_id later) later refl
            (number-hex4 s.group_id 0x20 _ refl small) (omega arith)
            (lt→ltb 0xFF00 s.group_id large)),
      refl,
    )

abbrev late : Bytes → Parser
late text = record { rest = text; code = 0; error_left = 0; field = 0; erange = true }

numeric_result-erange :
    (text : Bytes) (r : Bool × Option (ℕ × Bytes))
    → (q : Parser) × (numeric_result 2 (strtoul_result (late text) r) ≡ (0, q)) × (q.code ≡ 5)
unfolding numeric_result strtoul_result
numeric_result-erange text (minus, none) = (_, refl, refl)
numeric_result-erange text (minus, some (v, rest)) = (_, refl, refl)

parse_from-failed :
    (q : Parser)
    → q.code ≡ 5
    → (p : Parser) × (parse_from (0, q) ≡ some (mark_error p)) × (p.code ≡ 5)
unfolding parse_from parse_fields parse_named sdb_txt_parser_get_numeric_field
    sdb_txt_parser_get_quoted_string parse_members
parse_from-failed q h = (q, rw h refl, h)

-- If errno is ERANGE before, every line that is parsed as a scene is marked with the error that a
-- value is out of range, unless the line is empty.
pub scene_list_parse_record-erange :
    (mark : ℕ) (text : Bytes)
    → (p : Parser) × (scene_list_parse_record true (mark ∷ text) ≡ some (mark_error p))
      × (p.code ≡ 5)
unfolding scene_list_parse_record sdb_txt_parser_get_numeric_field strtoul
scene_list_parse_record-erange mark text =
    let (q, eq, code) = numeric_result-erange text (with_sign 0 (drop_spaces text)) in
    let (p, end, code') = parse_from-failed q code in (p, ap parse_from eq ∙ end, code')
