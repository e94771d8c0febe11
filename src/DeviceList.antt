-- ===== src/DeviceList.antt =====
-- The list of devices (server/Source/interface_devicelist.c): a device is a line of the database.
-- A string has no NUL in it.
pub mod Line
pub mod Contents
use mathlib.Core.List.{reverse}
use lighting_gateway.Prelude.{
  if◌then◌else◌, ℕ, ◌&&◌, ◌++◌, ◌==◌, ◌||◌, ◌∷◌, Bool, List, Option, [], false, length, none, some,
  suc, true,
}
use lighting_gateway.Prelude.Reading.{Bytes}
use lighting_gateway.Endpoint.{EpInfo}
use lighting_gateway.SimpleDb.{Db, sdb_add_record, sdbt_get_record_count}
use lighting_gateway.SimpleDb.Fields.{
  Parser, sdb_txt_parser_get_hex_field, sdb_txt_parser_get_numeric_field,
  sdb_txt_parser_get_quoted_string,
}
use lighting_gateway.SimpleDb.Fields.Numbers.{hex2, hex4}
use lighting_gateway.SimpleDb.Fields.Hex.{print_hex}
use lighting_gateway.SimpleDb.Members.{print_name, name_of}
use lighting_gateway.SimpleDb.Parsing.{
  Parsed, value, mark_error, ParseRecord, get_unique, remove_unique, get_next, enumerate, always,
}

-- ` 0x%04X ,` and ` 0x%02X ,`
abbrev pub field4 : ℕ → Bytes → Bytes
field4 w rest = 0x20 ∷ 0x30 ∷ 0x78 ∷ hex4 w (0x20 ∷ 0x2C ∷ rest)

abbrev pub field2 : ℕ → Bytes → Bytes
field2 b rest = 0x20 ∷ 0x30 ∷ 0x78 ∷ hex2 b (0x20 ∷ 0x2C ∷ rest)

-- `%02X:…:%02X`, from the last byte of the array to the first.
abbrev pub print_address : Bytes → Bytes → Bytes
print_address [] rest = rest
print_address (b ∷ bs) rest = print_hex b bs rest

-- What follows the address, up to the name's first character.
abbrev pub device_numbers : EpInfo → Bytes → Bytes
device_numbers e named =
    let state = field2 e.version (field2 e.status (0x20 ∷ 0x22 ∷ named)) in
    let kind = field4 e.profile_id (field4 e.device_id state) in
    0x20 ∷ 0x2C ∷ field4 e.nwk_addr (field2 e.endpoint kind)

-- The line from its second character on, before `\n`, for what follows it.
unfoldable pub device_text : EpInfo → Bytes → Bytes
device_text e rest =
    0x20
    ∷ 0x20
    ∷ 0x20
    ∷ 0x20
    ∷ 0x20
    ∷ 0x20
    ∷ 0x20
    ∷ print_address (reverse e.ieee_addr)
        (device_numbers e (print_name e.device_name ++ (0x22 ∷ rest)))

unfoldable pub dev_list_compose_record : EpInfo → Bytes
unfolding device_text
dev_list_compose_record e = 0x20 ∷ device_text e (0x0A ∷ [])

unfoldable pub dev_list_add_device : EpInfo → Db → Db
unfolding dev_list_compose_record
dev_list_add_device e db = sdb_add_record (dev_list_compose_record e) db

-- The end of the parsing; `flags` is 0 in the static record that is filled.
abbrev pub device_named : EpInfo → Option (Bytes × Parser) → Option (Parsed EpInfo)
device_named e none = none
device_named e (some (name, p)) = some (
    if (p.code == 0) || (p.code == 1)
    then value (record e { device_name = name_of name })
    else mark_error p)

unfoldable pub device_fields : Parser → Option (Parsed EpInfo)
device_fields p0 =
    let (ieee_addr, p1) = sdb_txt_parser_get_hex_field 8 p0 in
    let (nwk_addr, p2) = sdb_txt_parser_get_numeric_field 2 p1 in
    let (endpoint, p3) = sdb_txt_parser_get_numeric_field 1 p2 in
    let (profile_id, p4) = sdb_txt_parser_get_numeric_field 2 p3 in
    let (device_id, p5) = sdb_txt_parser_get_numeric_field 2 p4 in
    let (version, p6) = sdb_txt_parser_get_numeric_field 1 p5 in
    let (status, p7) = sdb_txt_parser_get_numeric_field 1 p6 in
    device_named
      (record {
        ieee_addr = ieee_addr;
        nwk_addr = nwk_addr;
        endpoint = endpoint;
        profile_id = profile_id;
        device_id = device_id;
        version = version;
        device_name = none;
        status = status;
        flags = 0;
      })
      (sdb_txt_parser_get_quoted_string 32 p7)

unfoldable pub dev_list_parse_record : ParseRecord EpInfo
unfolding device_fields
dev_list_parse_record erange [] = none
dev_list_parse_record erange (mark ∷ text) =
    device_fields (record { rest = text; code = 0; error_left = 0; field = 0; erange = erange })

-- `memcmp(a, b, 8) == 0`
abbrev pub same_bytes : Bytes → Bytes → Bool
same_bytes [] [] = true
same_bytes (a ∷ as') (b ∷ bs) = (a == b) && same_bytes as' bs
same_bytes [] (b ∷ bs) = false
same_bytes (a ∷ as') [] = false

-- The comparisons of the key checks.
abbrev pub has_ieee_ep : Bytes → ℕ → EpInfo → Bool
has_ieee_ep ieee_addr endpoint e = same_bytes e.ieee_addr ieee_addr && (e.endpoint == endpoint)

abbrev pub has_ieee : Bytes → EpInfo → Bool
has_ieee ieee_addr e = same_bytes e.ieee_addr ieee_addr

abbrev pub has_na_ep : ℕ → ℕ → EpInfo → Bool
has_na_ep nwk_addr endpoint e =
    (e.nwk_addr == nwk_addr) && ((endpoint == 0xFF) || (e.endpoint == endpoint))

unfoldable pub dev_list_remove_device_by_na_ep : ℕ → ℕ → Db → Option EpInfo × Db
unfolding dev_list_parse_record remove_unique
dev_list_remove_device_by_na_ep nwk_addr endpoint db =
    remove_unique dev_list_parse_record (always (has_na_ep nwk_addr endpoint)) db

unfoldable pub dev_list_remove_device_by_ieee : Bytes → Db → Option EpInfo × Db
unfolding dev_list_parse_record remove_unique
dev_list_remove_device_by_ieee ieee_addr db =
    remove_unique dev_list_parse_record (always (has_ieee ieee_addr)) db

unfoldable pub dev_list_get_device_by_ieee_ep : Bytes → ℕ → Db → Option EpInfo × Db
unfolding dev_list_parse_record get_unique
dev_list_get_device_by_ieee_ep ieee_addr endpoint db =
    get_unique dev_list_parse_record (always (has_ieee_ep ieee_addr endpoint)) db

unfoldable pub dev_list_get_device_by_na_ep : ℕ → ℕ → Db → Option EpInfo × Db
unfolding dev_list_parse_record get_unique
dev_list_get_device_by_na_ep nwk_addr endpoint db =
    get_unique dev_list_parse_record (always (has_na_ep nwk_addr endpoint)) db

unfoldable pub dev_list_num_devices : Db → ℕ
unfolding sdbt_get_record_count
dev_list_num_devices db = sdbt_get_record_count db

-- From a context to the next.
unfoldable pub dev_list_get_next_dev : ℕ → Db → Option (EpInfo × ℕ) × Db
unfolding dev_list_parse_record get_next
dev_list_get_next_dev context db = get_next dev_list_parse_record context db

-- The calls of `devListGetNextDev` from a context of 0 on, until it returns `NULL`.
unfoldable pub dev_list_devices : Db → List EpInfo × Db
unfolding dev_list_parse_record enumerate
dev_list_devices db = enumerate dev_list_parse_record (suc (length db.file)) 0 db
