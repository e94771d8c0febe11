-- ===== src/ListFiles/Told.antt =====
-- A client that asks for the devices, on the files.
use lighting_gateway.Prelude.{◌∷◌, ◌≡◌, List, false, refl, some}
use lighting_gateway.Prelude.Int.{ℤ, pos, eq_ℤ}
use lighting_gateway.Prelude.Reading.{Bytes}
use lighting_gateway.Endpoint.{EpInfo}
use lighting_gateway.Srpc.{System, Gateway, running}
use lighting_gateway.Srpc.Incoming.{srpc_process_incoming}
use lighting_gateway.Srpc.Store.Devices.{wrote_each, devices_told}
use lighting_gateway.SimpleDb.Typed.Enumeration.{enumerate-Keeps, enumerate-HoldsAll}
use lighting_gateway.DeviceList.{dev_list_devices}
use lighting_gateway.DeviceList.Contents.{HoldsDevices, device_codec}
use lighting_gateway.ListFiles.{ListFiles, files}
use lighting_gateway.ListFiles.Laws.{devices_lem}
use lighting_gateway.ListFiles.Leave.{All-IsDevice}

-- The files have the same bytes.
abbrev pub SameFiles : ListFiles → ListFiles → Type 0
SameFiles l l' =
    (l.devices.file ≡ l'.devices.file)
    × (l.groups.db.file ≡ l'.groups.db.file)
    × (l.scenes.db.file ≡ l'.scenes.db.file)

devices-SameFiles :
    (l : ListFiles) (es : List EpInfo)
    → HoldsDevices l.devices es
    → SameFiles (files.devices l).1 l × HoldsDevices (files.devices l).1.devices es
unfolding files dev_list_devices
devices-SameFiles l es h = (
  ((enumerate-Keeps device_codec l.devices es h).1.0, refl, refl),
  (enumerate-HoldsAll device_codec l.devices es h).1,
)

-- A client that asks for the devices, on a socket other than 0, while the file of devices holds
-- devices that can be read back, gets one message for each, in the order of the file; the three
-- files keep their bytes, the file of devices holds the same devices, and nothing goes to the chip.
pub devices_told-HoldsDevices :
    (sys : System) (fd : ℤ) (rest : Bytes) (g : Gateway ListFiles) (es : List EpInfo)
    → HoldsDevices g.lists.devices es
    → eq_ℤ fd (pos 0) ≡ false
    → (g' : Gateway ListFiles) × (srpc_process_incoming files sys fd (0x81 ∷ 0 ∷ rest) g
        ≡ some (running g'))
      × (g'.server ≡ wrote_each fd es g.server)
      × SameFiles g'.lists g.lists
      × HoldsDevices g'.lists.devices es
      × (g'.soc ≡ g.soc)
devices_told-HoldsDevices sys fd rest g es h open_fd =
    let all = devices_lem g.lists es h in
    let (same, held) = devices-SameFiles g.lists es h in
    (
      record g {
        server = wrote_each fd (files.devices g.lists).0 g.server;
        lists = (files.devices g.lists).1;
      },
      devices_told files sys fd rest g (rw all (All-IsDevice es h.1)) open_fd,
      rw all refl,
      same,
      held,
      refl,
    )
