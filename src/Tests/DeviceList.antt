-- ===== src/Tests/DeviceList.antt =====
-- A run of calls on an empty file: two devices are added, one is looked for, and one is removed.
use lighting_gateway.Prelude.{◌∷◌, ◌≡◌, List, [], arith, false, none, refl, some}
use lighting_gateway.Endpoint.{EpInfo}
use lighting_gateway.SimpleDb.{Db}
use lighting_gateway.SimpleDb.Contents.{records}
use lighting_gateway.SimpleDb.Fields.{to_quote}
use lighting_gateway.DeviceList.Line.{IsReadable}
use lighting_gateway.DeviceList.Contents.{
  Call, add_device, remove_by_na_ep, get_by_ieee_ep, all_devices, num_devices, made_all, asked_all,
  HoldsDevices, made_all-asked_all,
}

abbrev pub empty : Db
empty = record {
  file = [];
  last_accessed_record_start_file_pointer = 0;
  last_accessed_record_size = 0;
  erange = false;
  fault = false;
}

abbrev pub lamp : EpInfo
lamp = record {
  ieee_addr = 1 ∷ 2 ∷ 3 ∷ 4 ∷ 5 ∷ 6 ∷ 7 ∷ 0xA8 ∷ [];
  nwk_addr = 0x1234;
  endpoint = 11;
  profile_id = 0xC05E;
  device_id = 0x0210;
  version = 2;
  device_name = some (0x4C ∷ 0x31 ∷ []);
  status = 0;
  flags = 0;
}

abbrev pub switch : EpInfo
switch = record lamp { nwk_addr = 0x2345; device_name = none }

abbrev calls : List Call
calls =
    add_device lamp
    ∷ add_device switch
    ∷ get_by_ieee_ep lamp.ieee_addr 11
    ∷ remove_by_na_ep 0x1234 0xFF
    ∷ all_devices
    ∷ num_devices
    ∷ []

lamp_name : to_quote (0x4C ∷ 0x31 ∷ []) ≡ none
unfolding to_quote
lamp_name = refl

no_name : to_quote [] ≡ none
unfolding to_quote
no_name = refl

pub lamp-IsReadable : IsReadable lamp
lamp-IsReadable = (
  (refl, omega arith),
  omega arith,
  omega arith,
  omega arith,
  omega arith,
  omega arith,
  omega arith,
  refl,
  (
    refl,
    lamp_name,
    omega arith,
    ((ground arith, ground arith), ((ground arith, ground arith), tt)),
  ),
)

pub switch-IsReadable : IsReadable switch
switch-IsReadable = (
  (refl, omega arith),
  omega arith,
  omega arith,
  omega arith,
  omega arith,
  omega arith,
  omega arith,
  refl,
  (refl, no_name, omega arith, tt),
)

run_example :
    ((made_all calls empty).0 ≡ (asked_all calls []).0)
    × HoldsDevices (made_all calls empty).1 (asked_all calls []).1
unfolding records
run_example =
    made_all-asked_all calls empty []
      (lamp-IsReadable, (switch-IsReadable, (tt, (tt, (tt, (tt, tt))))))
      (([], refl, tt, refl), tt, (refl, refl))
