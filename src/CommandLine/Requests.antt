-- ===== src/CommandLine/Requests.antt =====
-- What the server makes of the requests to open the network and to tell the devices.
use native.Mathlib.Nat.{mod-eq_of_lt}
use lighting_gateway.Prelude.{
  ℕ, ◌++◌, ◌<◌, ◌∙◌, ◌∷◌, ◌≡◌, All, [], ap, arith, false, get_or, length, length-set, refl, set,
  some, take,
}
use lighting_gateway.Prelude.Int.{eq_ℤ, ℤ, pos}
use lighting_gateway.Prelude.Reading.{Bytes, hi_uint16, lo_uint16}
use lighting_gateway.Lists.{Lists}
use lighting_gateway.Sockets.{idle}
use lighting_gateway.Soc.Api.{perform}
use lighting_gateway.Soc.Api.Heard.{requests_all, decode_many, heard_run}
use lighting_gateway.Soc.Api.Sending.{line}
use lighting_gateway.Srpc.{System, Gateway}
use lighting_gateway.Srpc.Incoming.{srpc_process_incoming, after, rx_loop}
use lighting_gateway.Srpc.Incoming.Stream.{Frame, frame_bytes, reads, handle_all, rx_loop_lem}
use lighting_gateway.CommandLine.{Line, Client}
use lighting_gateway.CommandLine.Sent.{Sends, firsts_lem, send_lem}
use lighting_gateway.Srpc.Reply.Device.{IsDevice}
use lighting_gateway.Srpc.Store.Devices.{wrote_each, devices_told}
use lighting_gateway.CommandLine.{send_open_network, open_network, srpc_send_get_devices}
use lighting_gateway.Srpc.Light.{srpc_permit_join}
use lighting_gateway.Soc.Api.{open_nwk}

-- The stack holds the rest of the five bytes.
abbrev pub join_frame : Bytes → ℕ → Frame
join_frame fill duration = record {
  function_id = 0x9C;
  payload = duration ∷ 0xD4 ∷ 0xEB ∷ get_or fill 3 0 ∷ get_or fill 4 0 ∷ [];
}

set3_length : (bs : Bytes) (a b c : ℕ) → length (set (set (set bs 0 a) 1 b) 2 c) ≡ length bs
set3_length bs a b c = rw (length-set, length-set, length-set) refl

sent_open_network :
    (fill : Bytes) (duration : ℕ) (l : Line)
    → length fill ≡ 128
    → Sends l
    → send_open_network fill duration l
      ≡ some (
          Client.running
            (record l { sent = l.sent ++ frame_bytes (join_frame fill duration) ∷ [] }))
unfolding send_open_network
sent_open_network fill duration l full works =
    let content = set (set (set fill 0 duration) 1 (lo_uint16 0xEBD4)) 2 (hi_uint16 0xEBD4) in
    let size : length content ≡ 128 = set3_length fill _ _ _ ∙ full in
    let spread = firsts_lem 5 fill (omega arith) in
    let laid_out : take 5 content ≡ (join_frame fill duration).payload = rw spread refl in
    send_lem (record { cmd_id = 0x9C; len = 5; p_data = content }) l (omega (arith, size)) works
    ∙ ap (λ b. some (Client.running (record l { sent = l.sent ++ (0x9C ∷ 5 ∷ b) ∷ [] }))) laid_out

module _ {L : Type 0} (ops : Lists L) (sys : System) (fd : ℤ) (fill : Bytes) where
  served_open_network :
      (duration : ℕ) (g : Gateway L)
      → handle_all ops sys fd (join_frame fill duration ∷ []) g
        ≡ some (idle (record g { soc = perform (open_nwk duration) g.soc }))
  unfolding handle_all after srpc_process_incoming srpc_permit_join perform
  served_open_network duration g = refl

  -- The message of the client that opens the network, for a duration of eight bits, is accepted by
  -- the server, which has nothing left to read, and the bytes added to the serial line decode to
  -- exactly the request to open the network for that time; if no send fails and the memory of the
  -- message has 128 bytes.
  pub open_network_heard :
      (duration : ℕ) (l : Line) (g : Gateway L)
      → duration < 256
      → length fill ≡ 128
      → Sends l
      → (frame : Frame) × (g' : Gateway L) × (sent : Bytes) × (open_network fill duration l
          ≡ some (Client.running (record l { sent = l.sent ++ frame_bytes frame ∷ [] })))
        × (rx_loop ops sys fd (reads frame ∷ []) (pos (length (frame_bytes frame))) g
            ≡ some (idle g'))
        × (line g'.soc ≡ line g.soc ++ sent)
        × (decode_many (length (requests_all (open_nwk duration ∷ []) g.soc.trans_seq_number)) sent
            ≡ some (requests_all (open_nwk duration ∷ []) g.soc.trans_seq_number))
  unfolding open_network
  open_network_heard duration l g small full works =
      let frame = join_frame fill duration in
      let (sent, on_line, read) = heard_run (open_nwk duration ∷ []) g.soc (tt, tt) in
      (
        frame,
        record g { soc = perform (open_nwk duration) g.soc },
        sent,
        rw (open_network, mod-eq_of_lt small) (sent_open_network fill duration l full works),
        rx_loop_lem ops sys fd (frame ∷ []) g (omega arith, tt) ∙ served_open_network duration g,
        on_line,
        read,
      )

  -- The request for the devices is sent whole, and the server answers it with a message for each.
  pub srpc_send_get_devices-served :
      (l : Line) (g : Gateway L)
      → Sends l
      → All IsDevice (ops.devices g.lists).0
      → eq_ℤ fd (pos 0) ≡ false
      → (frame : Frame) × (srpc_send_get_devices fill l
          ≡ some (Client.running (record l { sent = l.sent ++ frame_bytes frame ∷ [] })))
        × (rx_loop ops sys fd (reads frame ∷ []) (pos (length (frame_bytes frame))) g
            ≡ some (
                idle (record g {
                  server = wrote_each fd (ops.devices g.lists).0 g.server;
                  lists = (ops.devices g.lists).1;
                })))
  unfolding srpc_send_get_devices handle_all after
  srpc_send_get_devices-served l g works devices open_fd =
      let frame : Frame = record { function_id = 0x81; payload = [] } in
      (
        frame,
        send_lem (record { cmd_id = 0x81; len = 0; p_data = fill }) l (omega arith) works,
        rx_loop_lem ops sys fd (frame ∷ []) g (omega arith, tt)
            ∙ ap (λ r. after r (handle_all ops sys fd []))
                (devices_told ops sys fd _ g devices open_fd),
      )
