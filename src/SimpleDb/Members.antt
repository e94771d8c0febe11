-- ===== src/SimpleDb/Members.antt =====
-- What the lines of groups and of scenes share (server/Source/interface_grouplist.c and
-- interface_scenelist.c): the name, and the list of members.
pub mod Read
use lighting_gateway.Prelude.{if◌then◌else◌, ℕ, ◌==◌, ◌∷◌, List, Option, [], none, some, suc, zero}
use lighting_gateway.Prelude.Reading.{Bytes}
use lighting_gateway.SimpleDb.Fields.{Parser, sdb_txt_parser_get_numeric_field}
use lighting_gateway.SimpleDb.Fields.Numbers.{hex2, hex4}

-- `%04X` and `%02X` print 16 and 8 bits.
abbrev pub print_members : List (ℕ × ℕ) → Bytes
print_members [] = 0x0A ∷ []
print_members ((address, endpoint) ∷ ms) =
    0x20
    ∷ 0x2C
    ∷ 0x20
    ∷ 0x30
    ∷ 0x78
    ∷ hex4 address (0x20 ∷ 0x2C ∷ 0x20 ∷ 0x30 ∷ 0x78 ∷ hex2 endpoint (print_members ms))

abbrev pub print_name : Option Bytes → Bytes
print_name none = []
print_name (some name) = name

-- The loop over the members, at most 20.
unfoldable pub parse_members : ℕ → Parser → List (ℕ × ℕ) × Parser
parse_members zero p = ([], p)
parse_members (suc n) p =
    let (address, q) = sdb_txt_parser_get_numeric_field 2 p in
    let (endpoint, r) = sdb_txt_parser_get_numeric_field 1 q in
    let (ms, end) = parse_members n r in
    if p.code == 0 then ((address, endpoint) ∷ ms, end) else ([], p)

abbrev pub name_of : Bytes → Option Bytes
name_of [] = none
name_of (c ∷ name) = some (c ∷ name)
