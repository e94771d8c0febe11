-- ===== src/Tests/ListFiles.antt =====
-- The lists on files: a lamp leaves, and a client asks for the devices, one line being of bad format in
-- the last test.
use lighting_gateway.Prelude.{◌++◌, ◌∷◌, ◌≡◌, [], arith, refl, some}
use lighting_gateway.Prelude.Int.{pos}
use lighting_gateway.Sockets.Records.{IsHeaded}
use lighting_gateway.Srpc.{Gateway, running}
use lighting_gateway.Srpc.Incoming.{srpc_process_incoming}
use lighting_gateway.Srpc.Store.Devices.{wrote_each}
use lighting_gateway.ListFiles.Told.{SameFiles, devices_told-HoldsDevices}
use lighting_gateway.Controller.{leave_loop}
use lighting_gateway.Controller.Leaving.{others}
use lighting_gateway.SimpleDb.Consolidation.{codes}
use lighting_gateway.Srpc.Store.{srpc_get_devices}
use lighting_gateway.DeviceList.{dev_list_devices}
use lighting_gateway.SimpleDb.Fields.{
  sdb_txt_parser_get_hex_field, sdb_txt_parser_get_numeric_field, sdb_txt_parser_get_quoted_string,
}
use lighting_gateway.SimpleDb.Contents.{records}
use lighting_gateway.DeviceList.Contents.{add_device, made_all, HoldsDevices, made_all-asked_all}
use lighting_gateway.ListFiles.{ListFiles, files}
use lighting_gateway.ListFiles.Leave.{leave_loop-HoldsDevices}
use lighting_gateway.Tests.Srpc.{gateway, system}
use lighting_gateway.Tests.DeviceList.{empty, lamp, switch, lamp-IsReadable, switch-IsReadable}

abbrev lists : ListFiles
lists = record {
  devices = (made_all (add_device lamp ∷ add_device switch ∷ []) empty).1;
  groups = record { db = empty; last_used_group_id = 0 };
  scenes = record { db = empty; last_used_scene_id = 0 };
}

lists-HoldsDevices : HoldsDevices lists.devices (lamp ∷ switch ∷ [])
unfolding records
lists-HoldsDevices =
    (made_all-asked_all (add_device lamp ∷ add_device switch ∷ []) empty []
      (lamp-IsReadable, (switch-IsReadable, tt)) (([], refl, tt, refl), tt, (refl, refl))).1

abbrev with_files : Gateway ListFiles
with_files = record { soc = gateway.soc; server = gateway.server; lists = lists }

leave_files_example :
    (g' : Gateway ListFiles) × (leave_loop files system 0 3 0x1234 with_files ≡ some g')
    × IsHeaded (pos 3) g'.server
    × HoldsDevices g'.lists.devices (others 0x1234 (lamp ∷ switch ∷ []))
leave_files_example =
    leave_loop-HoldsDevices system 0 (pos 3) 3 0x1234 with_files (lamp ∷ switch ∷ [])
      (pos 4 ∷ pos 5 ∷ [], refl) lists-HoldsDevices (omega arith)

devices_told_files_example :
    (g' : Gateway ListFiles) × (srpc_process_incoming files system
        (pos 4)
        (0x81 ∷ 0 ∷ [])
        with_files
      ≡ some (running g'))
    × (g'.server ≡ wrote_each (pos 4) (lamp ∷ switch ∷ []) gateway.server)
    × SameFiles g'.lists lists
    × HoldsDevices g'.lists.devices (lamp ∷ switch ∷ [])
    × (g'.soc ≡ gateway.soc)
devices_told_files_example =
    devices_told-HoldsDevices system (pos 4) [] with_files (lamp ∷ switch ∷ []) lists-HoldsDevices
      refl

-- A file of devices with one line of bad format.
abbrev with_bad_line : Gateway ListFiles
with_bad_line = record with_files {
  lists = record lists { devices = record empty { file = codes " broken line" ++ 0x0A ∷ [] } };
}

-- A client that asks for the devices is told nothing, and the line is marked.
abbrev with_mark : Gateway ListFiles
with_mark = record with_bad_line {
  lists = record lists {
    devices = record with_bad_line.lists.devices {
      file = codes "?4,  2, line" ++ 0x0A ∷ [];
      last_accessed_record_size = 13;
    };
  };
}

bad_line_marked :
    srpc_process_incoming files system (pos 4) (0x81 ∷ 0 ∷ []) with_bad_line
    ≡ some (running with_mark)
unfolding files dev_list_devices srpc_process_incoming srpc_get_devices sdb_txt_parser_get_hex_field
    sdb_txt_parser_get_numeric_field sdb_txt_parser_get_quoted_string
bad_line_marked = refl
