-- ===== src/ListFiles/Leave.antt =====
-- A device that leaves, on the files: its endpoints go out of the file of devices and the others stay.
use lighting_gateway.Prelude.{ℕ, ◌<◌, ◌∙◌, ◌∷◌, ◌≡◌, All, List, [], ap, arith, length, some, sym}
use lighting_gateway.Prelude.Int.{ℤ}
use lighting_gateway.Endpoint.{EpInfo}
use lighting_gateway.Sockets.Records.{IsHeaded}
use lighting_gateway.Srpc.{System, Gateway}
use lighting_gateway.Srpc.Reply.Device.{IsDevice}
use lighting_gateway.Controller.{leave_loop}
use lighting_gateway.Controller.Leaving.{leave_loop-Succeeds, others}
use lighting_gateway.DeviceList.Line.{IsReadable}
use lighting_gateway.DeviceList.Contents.{HoldsDevices}
use lighting_gateway.ListFiles.{ListFiles, files}
use lighting_gateway.ListFiles.Laws.{HasDevices, files-DeviceLaws, devices_lem}

IsReadable-IsDevice : (e : EpInfo) → IsReadable e → IsDevice e
IsReadable-IsDevice e ((len, _), _, _, _, _, _, _, _, (_, _, short, _)) =
    (len, omega (arith, short))

pub All-IsDevice : (es : List EpInfo) → All IsReadable es → All IsDevice es
All-IsDevice [] h = tt
All-IsDevice (e ∷ es) h = (IsReadable-IsDevice e h.0, All-IsDevice es h.1)

-- When a device leaves, on the files, the loop that removes its endpoints ends within one round
-- more than there are devices, whatever the writes to the clients return; the file of devices then
-- holds the devices with other network addresses, in their order and no others, and the listening
-- socket is still at the head of the list. Conditions: the listening socket was at the head, and
-- the file holds devices that can be read back.
pub leave_loop-HoldsDevices :
    (sys : System) (prev : ℕ) (listening : ℤ) (fuel nwk_addr : ℕ) (g : Gateway ListFiles)
    (es : List EpInfo)
    → IsHeaded listening g.server
    → HoldsDevices g.lists.devices es
    → length es < fuel
    → (g' : Gateway ListFiles) × (leave_loop files sys prev fuel nwk_addr g ≡ some g')
      × IsHeaded listening g'.server
      × HoldsDevices g'.lists.devices (others nwk_addr es)
leave_loop-HoldsDevices sys prev listening fuel nwk_addr g es head h f =
    let same = devices_lem g.lists es h in
    let (g', done, head', _, left, (es', h'), _) =
      leave_loop-Succeeds files sys prev HasDevices files-DeviceLaws listening fuel nwk_addr g head
        (es, h) (rw same (All-IsDevice es h.1)) (rw same f) in
    let rest : es' ≡ others nwk_addr es =
      sym (devices_lem g'.lists es' h') ∙ left ∙ ap (others nwk_addr) same in
    (g', done, head', rw rest at h')
