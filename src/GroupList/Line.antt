-- ===== src/GroupList/Line.antt =====
-- A group on a line of the file is read back.
use lighting_gateway.Prelude.{
  ◌++◌, ◌∙◌, ◌∷◌, ◌≡◌, ◌≤◌, All, All-append, [], ap, append_assoc, arith, false, length,
  length-append, none, refl, some, sym,
}
use lighting_gateway.Prelude.Reading.{Bytes}
use lighting_gateway.SimpleDb.{sdbt_mark_deleted}
use lighting_gateway.SimpleDb.Lines.{Plain, line_of}
use lighting_gateway.SimpleDb.Contents.{IsRecord}
use lighting_gateway.SimpleDb.Fields.{to_quote, sdb_txt_parser_move_to_next_field, next_field}
use lighting_gateway.SimpleDb.Fields.Numbers.{hex4}
use lighting_gateway.SimpleDb.Fields.Written.{get_address-hex, get_quoted_string-name}
use lighting_gateway.SimpleDb.Fields.Characters.{lead-Plain, hex4-Plain}
use lighting_gateway.SimpleDb.Members.{print_name, print_members, name_of}
use lighting_gateway.SimpleDb.Members.Read.{
  AreReadable, parse_members-print, members_body, print_members-body, members_body-Plain,
  length-members_body,
}
use lighting_gateway.SimpleDb.Parsing.{value}
use lighting_gateway.SimpleDb.Typed.{Codec}
use lighting_gateway.GroupList.{
  GroupRecord, group_text, group_list_compose_record, group_list_parse_record, group_fields,
  group_named, group_parsed,
}

-- The name is no empty string, and has at most 32 characters, no quote and no end of a line; there are
-- at most 20 members.
abbrev pub IsStorable : GroupRecord → Type 0
IsStorable g =
    (g.id ≤ 0xFF00)
    × (name_of (print_name g.name) ≡ g.name)
    × (to_quote (print_name g.name) ≡ none)
    × (length (print_name g.name) ≤ 32)
    × AreReadable g.members
    × (length g.members ≤ 20)
    × All Plain (print_name g.name)

abbrev named_body : GroupRecord → Bytes
named_body g = print_name g.name ++ (0x22 ∷ members_body g.members)

abbrev pub group_body : GroupRecord → Bytes
group_body g =
    0x20
    ∷ 0x20
    ∷ 0x20
    ∷ 0x20
    ∷ 0x20
    ∷ 0x20
    ∷ 0x20
    ∷ 0x20
    ∷ 0x30
    ∷ 0x78
    ∷ hex4 g.id (0x20 ∷ 0x2C ∷ 0x20 ∷ 0x22 ∷ named_body g)

pub compose-group_body : (g : GroupRecord) → group_list_compose_record g ≡ line_of (group_body g)
unfolding group_list_compose_record group_text
compose-group_body g =
    let name = print_name g.name in
    ap
      (λ t.
        0x20
        ∷ 0x20
        ∷ 0x20
        ∷ 0x20
        ∷ 0x20
        ∷ 0x20
        ∷ 0x20
        ∷ 0x20
        ∷ 0x30
        ∷ 0x78
        ∷ hex4 g.id (0x20 ∷ 0x2C ∷ 0x20 ∷ 0x22 ∷ t))
      (ap (λ m. name ++ (0x22 ∷ m)) (print_members-body g.members)
        ∙ sym (append_assoc name (0x22 ∷ members_body g.members) (0x0A ∷ [])))

pub group_list_parse_record-group_list_compose_record :
    (g : GroupRecord)
    → IsStorable g
    → group_list_parse_record false (group_list_compose_record g) ≡ some (value g)
unfolding group_list_parse_record group_list_compose_record group_text group_fields group_named
    sdb_txt_parser_move_to_next_field next_field
group_list_parse_record-group_list_compose_record g (hg, named, plain, short, ok, few, _) =
    let name = print_name g.name in
    let quoted = 0x20 ∷ 0x22 ∷ (name ++ (0x22 ∷ print_members g.members)) in
    ap group_fields (get_address-hex g.id 0 (group_text g) quoted refl hg)
    ∙ ap (group_named g.id) (get_quoted_string-name name (print_members g.members) 1 plain short)
    ∙ ap (λ r. some (group_parsed g.id name r)) (parse_members-print 20 g.members 2 ok few)
    ∙ rw named refl

pub parse-group_body :
    (g : GroupRecord)
    → IsStorable g
    → group_list_parse_record false (line_of (group_body g)) ≡ some (value g)
parse-group_body g h =
    ap (group_list_parse_record false) (sym (compose-group_body g))
    ∙ group_list_parse_record-group_list_compose_record g h

-- The first character is not looked at.
pub parse-group_deleted :
    (g : GroupRecord)
    → IsStorable g
    → group_list_parse_record false (line_of (sdbt_mark_deleted (group_body g))) ≡ some (value g)
unfolding group_list_parse_record
parse-group_deleted g h = parse-group_body g h

pub group_body-IsRecord : (g : GroupRecord) → IsStorable g → IsRecord (group_body g)
group_body-IsRecord g (_, _, _, short, _, few, chars) =
    let name = print_name g.name in
    let spaces : Bytes = 0x20 ∷ 0x20 ∷ 0x20 ∷ 0x20 ∷ 0x20 ∷ 0x20 ∷ 0x20 ∷ 0x20 ∷ 0x30 ∷ 0x78 ∷ [] in
    let quoted = 0x20 ∷ 0x2C ∷ 0x20 ∷ 0x22 ∷ named_body g in
    let named-Plain =
      All-append Plain name (0x22 ∷ members_body g.members) chars
        (lead-Plain (0x22 ∷ []) (members_body g.members) refl (members_body-Plain g.members)) in
    let quoted-Plain =
      lead-Plain (0x20 ∷ 0x2C ∷ 0x20 ∷ 0x22 ∷ []) (named_body g) refl named-Plain in
    (
      (
        lead-Plain spaces (hex4 g.id quoted) refl (hex4-Plain g.id quoted quoted-Plain),
        omega arith,
        omega (
          arith,
          short,
          few,
          length-members_body g.members,
          length-append name (0x22 ∷ members_body g.members),
        ),
      ),
      refl,
    )

abbrev pub group_codec : Codec group_list_parse_record
group_codec = record {
  Readable = IsStorable;
  body = group_body;
  body-IsRecord = group_body-IsRecord;
  parse-body = parse-group_body;
  parse-deleted = parse-group_deleted;
}
