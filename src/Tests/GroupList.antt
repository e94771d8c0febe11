-- ===== src/Tests/GroupList.antt =====
-- A device joins a new group, and a file with a group that has no name.
use lighting_gateway.Prelude.{◌∷◌, ◌≡◌, [], arith, none, refl, true}
use lighting_gateway.Prelude.Reading.{Bytes}
use lighting_gateway.SimpleDb.{Db, sdb_add_record}
use lighting_gateway.SimpleDb.Contents.{records}
use lighting_gateway.SimpleDb.Lines.{line_of}
use lighting_gateway.SimpleDb.Fields.{to_quote}
use lighting_gateway.SimpleDb.Typed.{add-HoldsAll}
use lighting_gateway.GroupList.{
  GroupRecord, GroupList, group_list_add_device_to_group, group_list_get_group_by_name,
}
use lighting_gateway.GroupList.Line.{IsStorable, group_codec, group_body}
use lighting_gateway.GroupList.Contents.{
  IsJoined, group_list_add_device_to_group-HoldsGroups, get_group_by_name-null,
}
use lighting_gateway.Tests.DeviceList.{empty}

abbrev no_groups : GroupList
no_groups = record { db = empty; last_used_group_id = 0 }

abbrev name : Bytes
name = 0x41 ∷ []

to_quote_name : to_quote name ≡ none
unfolding to_quote
to_quote_name = refl

to_quote_nil : to_quote [] ≡ none
unfolding to_quote
to_quote_nil = refl

first_number : (group_list_add_device_to_group name 0x1234 11 no_groups).0 ≡ 1
unfolding group_list_add_device_to_group
first_number = refl

join_example :
    IsJoined name (0x1234, 11) [] (group_list_add_device_to_group name 0x1234 11 no_groups)
unfolding records
join_example =
    group_list_add_device_to_group-HoldsGroups name 0x1234 11 []
      (omega arith, to_quote_name, omega arith, ((ground arith, ground arith), tt)) (omega arith)
      (omega arith) no_groups 0 (omega arith) (omega arith) refl (omega (arith, first_number))
      ((([], refl, tt, refl), tt, (refl, refl)), tt)

abbrev nameless : GroupRecord
nameless = record { id = 1; name = none; members = (0x1234, 11) ∷ [] }

abbrev db : Db
db = sdb_add_record (line_of (group_body nameless)) empty

nameless-IsStorable : IsStorable nameless
nameless-IsStorable =
    (omega arith, refl, to_quote_nil, omega arith, (omega arith, omega arith, tt), omega arith, tt)

null_example : (group_list_get_group_by_name name db).1.fault ≡ true
unfolding records
null_example =
    get_group_by_name-null name db nameless []
      (add-HoldsAll group_codec nameless empty [] nameless-IsStorable
        (([], refl, tt, refl), tt, (refl, refl)))
      refl
