-- ===== src/Srpc/Client/Obeyed.antt =====
-- The server obeys the messages about lights: from the socket to the serial line.
use lighting_gateway.Prelude.{◌++◌, ◌==◌, ◌≡◌, All, Bool-cases, inl, inr, length, refl, some}
use lighting_gateway.Prelude.Int.{ℤ}
use lighting_gateway.Prelude.Reading.{Bytes, build_uint16_lem, bytes-append}
use lighting_gateway.Lists.{Lists}
use lighting_gateway.Soc.Wire.RoundTrip.{IsWord}
use lighting_gateway.Soc.Api.{perform}
use lighting_gateway.Soc.Api.Heard.{perform_all, InRange, heard_run, requests_all, decode_many}
use lighting_gateway.Soc.Api.Sending.{line}
use lighting_gateway.Srpc.{System, Gateway, running}
use lighting_gateway.Srpc.Incoming.{srpc_process_incoming}
use lighting_gateway.Srpc.Light.{
  srpc_set_device_state, srpc_set_device_level, srpc_set_device_color, srpc_get_device_state,
  srpc_get_device_level, srpc_get_device_hue, srpc_get_device_sat, srpc_identify_device,
  srpc_bind_devices, srpc_permit_join,
}
use lighting_gateway.Srpc.Client.{
  Command, Message, render, calls, light, connect, join, switch, dim, color, ask_state, ask_level,
  ask_hue, ask_saturation, show,
}

abbrev IsCommand : Command → Type 0
IsCommand (dim level time) = IsWord time
IsCommand (color hue sat time) = IsWord time
IsCommand (show time) = IsWord time
IsCommand _ = Unit

-- The numbers fit the places that the message has for them.
abbrev pub Fits : Message → Type 0
Fits (light c a) = IsWord a.target.dst_addr × IsCommand c
Fits (connect src src_ep src_ieee dst_ep dst_ieee cluster) =
    IsWord src × IsWord cluster × (length src_ieee ≡ 8) × (length dst_ieee ≡ 8)
Fits (join duration magic) = IsWord magic

module _ {L : Type 0} (ops : Lists L) (sys : System) (fd : ℤ) where
  pub obeyed :
      (m : Message) (rest : Bytes) (g : Gateway L)
      → Fits m
      → srpc_process_incoming ops sys fd (render m rest) g
        ≡ some (running (record g { soc = perform_all (calls m) g.soc }))
  unfolding srpc_process_incoming render calls perform srpc_set_device_state srpc_set_device_level
      srpc_set_device_color srpc_get_device_state srpc_get_device_level srpc_get_device_hue
      srpc_get_device_sat srpc_identify_device srpc_bind_devices srpc_permit_join
  obeyed (light (switch state) a) rest g h = rw (build_uint16_lem a.target.dst_addr h.0) refl
  obeyed (light (dim level time) a) rest g h =
      rw (build_uint16_lem a.target.dst_addr h.0, build_uint16_lem time h.1) refl
  obeyed (light (color hue sat time) a) rest g h =
      rw (build_uint16_lem a.target.dst_addr h.0, build_uint16_lem time h.1) refl
  obeyed (light ask_state a) rest g h = rw (build_uint16_lem a.target.dst_addr h.0) refl
  obeyed (light ask_level a) rest g h = rw (build_uint16_lem a.target.dst_addr h.0) refl
  obeyed (light ask_hue a) rest g h = rw (build_uint16_lem a.target.dst_addr h.0) refl
  obeyed (light ask_saturation a) rest g h = rw (build_uint16_lem a.target.dst_addr h.0) refl
  obeyed (light (show time) a) rest g h =
      rw (build_uint16_lem a.target.dst_addr h.0, build_uint16_lem time h.1) refl
  obeyed (connect src src_ep src_ieee dst_ep dst_ieee cluster) rest g h =
      rw
        (
          build_uint16_lem src h.0,
          bytes-append 8 src_ieee _ h.2,
          bytes-append 8 dst_ieee _ h.3,
          build_uint16_lem cluster h.1,
        )
        refl
  obeyed (join duration magic) rest g h =
      rw (build_uint16_lem magic h) (elim (Bool-cases (magic == 0xEBD4)) [
        | inl known ↦ rw known refl
        | inr other ↦ rw other refl
      ])

pub All-calls-InRange : (m : Message) → Fits m → All InRange (calls m)
unfolding calls
All-calls-InRange (light (switch state) a) h = (h.0, tt)
All-calls-InRange (light (dim level time) a) h = (h.0, tt)
All-calls-InRange (light (color hue sat time) a) h = (h.0, tt)
All-calls-InRange (light ask_state a) h = (h.0, tt)
All-calls-InRange (light ask_level a) h = (h.0, tt)
All-calls-InRange (light ask_hue a) h = (h.0, tt)
All-calls-InRange (light ask_saturation a) h = (h.0, tt)
All-calls-InRange (light (show time) a) h = (h.0, tt)
All-calls-InRange (connect src src_ep src_ieee dst_ep dst_ieee cluster) h = ((h.0, h.1), tt)
All-calls-InRange (join duration magic) h = elim (Bool-cases (magic == 0xEBD4)) [
  | inl known ↦ rw known (tt, tt)
  | inr other ↦ rw other tt
]

module _ {L : Type 0} (ops : Lists L) (sys : System) (fd : ℤ) where
  -- A message about lights, with sixteen-bit numbers where it has two bytes and IEEE addresses of
  -- eight, is handled without a read past the buffer whatever follows it there; the sockets stay as
  -- they are, and the bytes added to the serial line decode to exactly the requests that the
  -- message stands for.
  pub client_heard :
      (m : Message) (rest : Bytes) (g : Gateway L)
      → Fits m
      → (g' : Gateway L) × (sent : Bytes) × (srpc_process_incoming ops sys fd (render m rest) g
          ≡ some (running g'))
        × (g'.server ≡ g.server)
        × (line g'.soc ≡ line g.soc ++ sent)
        × (decode_many (length (requests_all (calls m) g.soc.trans_seq_number)) sent
            ≡ some (requests_all (calls m) g.soc.trans_seq_number))
  client_heard m rest g h =
      let (sent, on_line, read) = heard_run (calls m) g.soc (All-calls-InRange m h) in
      (_, sent, obeyed ops sys fd m rest g h, refl, on_line, read)
