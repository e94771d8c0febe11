-- ===== src/ListDevs.antt =====
-- The command line client that lists the devices (client/CClients/listDevsCmdLine/Source/listdevs.c): what
-- its callback prints for a message.
pub mod Listing
use mathlib.Core.List.{reverse}
use lighting_gateway.Prelude.{
  if◌then◌else◌, ℕ, ◌++◌, ◌-◌, ◌==◌, ◌∷◌, List, Option, [], drop, get_elem?, get_or, length, none,
  replicate, some, take,
}
use lighting_gateway.Prelude.Reading.{
  Bytes, Reader, byte, bytes, c_string, pure, uint16, ◌>>=◌, ◌>>◌,
}
use lighting_gateway.SimpleDb.Fields.Numbers.{hex2, hex4}
use lighting_gateway.SimpleDb.Consolidation.{codes}
use lighting_gateway.DeviceList.{print_address}
use lighting_gateway.SocketClient.{ap_max_buf_len}

-- `device_id_strings`
abbrev pub device_id_strings : List (Bytes × ℕ)
device_id_strings =
    (codes "On/Off Switch", 0x0000)
    ∷ (codes "Level Control Switch", 0x0001)
    ∷ (codes "On/Off Output", 0x0002)
    ∷ (codes "Level Controllable Output", 0x0003)
    ∷ (codes "Scene Selector", 0x0004)
    ∷ (codes "Configuration Tool", 0x0005)
    ∷ (codes "Remote Control", 0x0006)
    ∷ (codes "Combined Interface", 0x0007)
    ∷ (codes "Range Extender", 0x0008)
    ∷ (codes "Mains Power Outlet", 0x0009)
    ∷ (codes "Door Lock", 0x000A)
    ∷ (codes "Door Lock Controller", 0x000B)
    ∷ (codes "Simple Sensor", 0x000C)
    ∷ (codes "On/Off Light", 0x0100)
    ∷ (codes "Dimmable Light", 0x0101)
    ∷ (codes "Color Dimmable Light", 0x0102)
    ∷ (codes "On/Off Light Switch", 0x0103)
    ∷ (codes "Dimmer Switch", 0x0104)
    ∷ (codes "Color Dimmer Switch", 0x0105)
    ∷ (codes "Light Sensor", 0x0106)
    ∷ (codes "Occupancy Sensor", 0x0107)
    ∷ (codes "Shade", 0x0200)
    ∷ (codes "Shade Controller", 0x0201)
    ∷ (codes "Window Covering Device", 0x0202)
    ∷ (codes "Window Covering Controller", 0x0203)
    ∷ (codes "Heating/Cooling Unit", 0x0300)
    ∷ (codes "Thermostat", 0x0301)
    ∷ (codes "Temperature Sensor", 0x0302)
    ∷ (codes "Pump", 0x0303)
    ∷ (codes "Pump Controller", 0x0304)
    ∷ (codes "Pressure Sensor", 0x0305)
    ∷ (codes "Flow Sensor", 0x0306)
    ∷ (codes "IAS Control and Indicating Equipment", 0x0400)
    ∷ (codes "IAS Ancillary Control Equipment", 0x0401)
    ∷ (codes "IAS Zone", 0x0402)
    ∷ (codes "IAS Warning Device", 0x0403)
    ∷ []

-- The loop of `get_device_id_string`.
abbrev pub find_device_id : ℕ → List (Bytes × ℕ) → Bytes
find_device_id id [] = codes "Unknown device"
find_device_id id ((str, id') ∷ rest) = if id == id' then str else find_device_id id rest

unfoldable pub get_device_id_string : ℕ → Bytes
get_device_id_string id = find_device_id id device_id_strings

-- `%-*s`
abbrev pub padded : ℕ → Bytes → Bytes
padded width str = str ++ replicate (width - length str) 0x20

-- The three calls of `printf` and the loop between them.
unfoldable pub device_line :
    (nwk_addr endpoint profile_id device_id : ℕ) (ieee_addr name : Bytes) → Bytes
unfolding get_device_id_string
device_line nwk_addr endpoint profile_id device_id ieee_addr name =
    let text =
      padded 36 (get_device_id_string device_id)
      ++ (0x20 ∷ 0x22 ∷ (c_string name ++ (0x22 ∷ 10 ∷ []))) in
    let address = print_address (reverse ieee_addr) (codes "------ " ++ text) in
    codes " 0x"
    ++ hex4 nwk_addr (
        codes " 0x"
        ++ hex2 endpoint
            (codes " 0x" ++ hex4 profile_id (codes " 0x" ++ hex4 device_id (0x20 ∷ address))))

-- `SRPC_NewDevice`, up to what it prints.
unfoldable pub srpc_new_device : Reader Bytes
unfolding device_line
srpc_new_device = do
  nwk_addr ← uint16
  endpoint ← byte
  profile_id ← uint16
  device_id ← uint16
  version ← byte
  dev_name_str_len ← byte
  dev_name_str ← bytes dev_name_str_len
  status ← byte
  ieee_addr ← bytes 8
  pure (device_line nwk_addr endpoint profile_id device_id ieee_addr dev_name_str)

-- `msg->pData`: what the message leaves of the array is 0.
abbrev pub p_data : Bytes → Bytes
p_data msg = take ap_max_buf_len (drop 2 msg ++ replicate ap_max_buf_len 0)

abbrev pub printed : Option (Bytes × Bytes) → Option Bytes
printed none = none
printed (some (line, rest)) = some line

-- `srpcProcessIncoming`
unfoldable pub srpc_process_incoming : List (Option (Reader Bytes))
unfolding srpc_new_device
srpc_process_incoming = none ∷ some srpc_new_device ∷ []

-- `none`: the call of what lies behind the table.
abbrev pub call_handler : Option (Option (Reader Bytes)) → Bytes → Option Bytes
call_handler none p = none
call_handler (some none) p = some []
call_handler (some (some f)) p = printed (f p)

unfoldable pub socket_client_cb : Bytes → Option Bytes
unfolding srpc_process_incoming
socket_client_cb msg = call_handler (get_elem? srpc_process_incoming (get_or msg 0 0)) (p_data msg)
