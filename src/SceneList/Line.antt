-- ===== src/SceneList/Line.antt =====
-- A scene on a line of the file.
use lighting_gateway.Prelude.{
  ◌++◌, ◌∙◌, ◌∷◌, ◌≡◌, All, All-append, [], ap, append_assoc, arith, false, length-append, refl,
  some, sym,
}
use lighting_gateway.Prelude.Reading.{Bytes}
use lighting_gateway.SimpleDb.{sdbt_mark_deleted}
use lighting_gateway.SimpleDb.Lines.{Plain, line_of}
use lighting_gateway.SimpleDb.Contents.{IsRecord}
use lighting_gateway.SimpleDb.Fields.Numbers.{hex2, hex4}
use lighting_gateway.SimpleDb.Fields.Characters.{lead-Plain, hex2-Plain, hex4-Plain}
use lighting_gateway.SimpleDb.Members.{print_name}
use lighting_gateway.SimpleDb.Members.Read.{
  members_body, print_members-body, members_body-Plain, length-members_body,
}
use lighting_gateway.SimpleDb.Parsing.{value}
use lighting_gateway.SimpleDb.Typed.{Codec}
use lighting_gateway.SimpleDb.SceneRecord.{
  SceneRecord, scene_text, scene_list_compose_record, scene_list_parse_record,
}
use lighting_gateway.SimpleDb.SceneRecord.Read.{
  IsReadable, scene_list_parse_record-scene_list_compose_record,
}

-- A scene that is read back from its line, which ends behind its members.
abbrev pub IsStorable : SceneRecord → Type 0
IsStorable s = IsReadable s × All Plain (print_name s.name)

abbrev named_body : SceneRecord → Bytes
named_body s = print_name s.name ++ (0x22 ∷ members_body s.members)

abbrev pub scene_body : SceneRecord → Bytes
scene_body s =
    0x20
    ∷ 0x20
    ∷ 0x20
    ∷ 0x20
    ∷ 0x20
    ∷ 0x20
    ∷ 0x20
    ∷ 0x20
    ∷ 0x30
    ∷ 0x78
    ∷ hex4 s.group_id (
        0x20
        ∷ 0x2C
        ∷ 0x20
        ∷ 0x30
        ∷ 0x78
        ∷ hex2 s.scene_id (0x20 ∷ 0x2C ∷ 0x20 ∷ 0x22 ∷ named_body s))

pub compose-scene_body : (s : SceneRecord) → scene_list_compose_record s ≡ line_of (scene_body s)
unfolding scene_list_compose_record scene_text
compose-scene_body s =
    let name = print_name s.name in
    ap
      (λ t.
        0x20
        ∷ 0x20
        ∷ 0x20
        ∷ 0x20
        ∷ 0x20
        ∷ 0x20
        ∷ 0x20
        ∷ 0x20
        ∷ 0x30
        ∷ 0x78
        ∷ hex4 s.group_id
            (0x20 ∷ 0x2C ∷ 0x20 ∷ 0x30 ∷ 0x78 ∷ hex2 s.scene_id (0x20 ∷ 0x2C ∷ 0x20 ∷ 0x22 ∷ t)))
      (ap (λ m. name ++ (0x22 ∷ m)) (print_members-body s.members)
        ∙ sym (append_assoc name (0x22 ∷ members_body s.members) (0x0A ∷ [])))

pub parse-scene_body :
    (s : SceneRecord)
    → IsStorable s
    → scene_list_parse_record false (line_of (scene_body s)) ≡ some (value s)
parse-scene_body s h =
    ap (scene_list_parse_record false) (sym (compose-scene_body s))
    ∙ scene_list_parse_record-scene_list_compose_record s h.0

-- The first character is not looked at.
pub parse-scene_deleted :
    (s : SceneRecord)
    → IsStorable s
    → scene_list_parse_record false (line_of (sdbt_mark_deleted (scene_body s))) ≡ some (value s)
unfolding scene_list_parse_record
parse-scene_deleted s h = parse-scene_body s h

pub scene_body-IsRecord : (s : SceneRecord) → IsStorable s → IsRecord (scene_body s)
scene_body-IsRecord s ((_, _, _, _, short, _, few), chars) =
    let name = print_name s.name in
    let spaces : Bytes = 0x20 ∷ 0x20 ∷ 0x20 ∷ 0x20 ∷ 0x20 ∷ 0x20 ∷ 0x20 ∷ 0x20 ∷ 0x30 ∷ 0x78 ∷ [] in
    let quoted = 0x20 ∷ 0x2C ∷ 0x20 ∷ 0x22 ∷ named_body s in
    let later = 0x20 ∷ 0x2C ∷ 0x20 ∷ 0x30 ∷ 0x78 ∷ hex2 s.scene_id quoted in
    let named-Plain =
      All-append Plain name (0x22 ∷ members_body s.members) chars
        (lead-Plain (0x22 ∷ []) (members_body s.members) refl (members_body-Plain s.members)) in
    let quoted-Plain =
      lead-Plain (0x20 ∷ 0x2C ∷ 0x20 ∷ 0x22 ∷ []) (named_body s) refl named-Plain in
    let later-Plain =
      lead-Plain (0x20 ∷ 0x2C ∷ 0x20 ∷ 0x30 ∷ 0x78 ∷ []) (hex2 s.scene_id quoted) refl
        (hex2-Plain s.scene_id quoted quoted-Plain) in
    (
      (
        lead-Plain spaces (hex4 s.group_id later) refl (hex4-Plain s.group_id later later-Plain),
        omega arith,
        omega (
          arith,
          short,
          few,
          length-members_body s.members,
          length-append name (0x22 ∷ members_body s.members),
        ),
      ),
      refl,
    )

abbrev pub scene_codec : Codec scene_list_parse_record
scene_codec = record {
  Readable = IsStorable;
  body = scene_body;
  body-IsRecord = scene_body-IsRecord;
  parse-body = parse-scene_body;
  parse-deleted = parse-scene_deleted;
}
