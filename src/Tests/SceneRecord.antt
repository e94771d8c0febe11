-- ===== src/Tests/SceneRecord.antt =====
-- A scene with a name and two members, and one of a group with a large number.
use lighting_gateway.Prelude.{◌∷◌, ◌≡◌, [], arith, false, none, refl, some}
use lighting_gateway.SimpleDb.Fields.{to_quote}
use lighting_gateway.SimpleDb.Parsing.{value}
use lighting_gateway.SimpleDb.SceneRecord.{
  SceneRecord, scene_list_compose_record, scene_list_parse_record,
}
use lighting_gateway.SimpleDb.SceneRecord.Read.{scene_list_parse_record-scene_list_compose_record}

abbrev evening : SceneRecord
evening = record {
  group_id = 0x12;
  scene_id = 3;
  name = some (0x41 ∷ 0x62 ∷ []);
  members = (0x1A2B, 11) ∷ (0xFF00, 8) ∷ [];
}

to_quote_two : to_quote (0x41 ∷ 0x62 ∷ []) ≡ none
unfolding to_quote
to_quote_two = refl

parse_evening_example :
    scene_list_parse_record false (scene_list_compose_record evening) ≡ some (value evening)
parse_evening_example = scene_list_parse_record-scene_list_compose_record evening (
  omega arith,
  omega arith,
  refl,
  to_quote_two,
  omega arith,
  (omega arith, omega arith, (omega arith, omega arith, tt)),
  omega arith,
)
