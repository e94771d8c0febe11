-- ===== src/CommandLine/Served.antt =====
-- What the server makes of the commands that flash a light.
use mathlib.Core.List.{map}
use native.Mathlib.Nat.{mod-eq_of_lt}
use lighting_gateway.Prelude.{
  ℕ, ◌%◌, ◌++◌, ◌<◌, ◌^◌, ◌∙◌, ◌∷◌, ◌≡◌, All, Bool, List, [], ap, arith, concat, false, length,
  refl, some, true,
}
use lighting_gateway.Prelude.Int.{ℤ, pos}
use lighting_gateway.Prelude.Reading.{Bytes, build_uint16_lem}
use lighting_gateway.Lists.{Lists}
use lighting_gateway.Sockets.{idle}
use lighting_gateway.Soc.Wire.RoundTrip.{IsWord}
use lighting_gateway.Soc.Api.{Call, Target, perform, set_state}
use lighting_gateway.Soc.Api.Heard.{perform_all, requests_all, decode_many, heard_run, InRange}
use lighting_gateway.Soc.Api.Sending.{line}
use lighting_gateway.Srpc.{System, Gateway, running}
use lighting_gateway.Srpc.Light.{srpc_set_device_state}
use lighting_gateway.Srpc.Incoming.{srpc_process_incoming, after, rx_loop}
use lighting_gateway.Srpc.Incoming.Stream.{
  Frame, frame_bytes, padded, reads, IsShort, handle_all, rx_loop_lem,
}
use lighting_gateway.CommandLine.{Line, Client, flash}
use lighting_gateway.CommandLine.Sent.{Sends}
use lighting_gateway.CommandLine.Flashed.{bit, alternating, light_frame, light_frames, flashed}

-- The calls of the driver that the commands stand for.
abbrev pub state_calls : Target → List Bool → List Call
state_calls to = map (λ on. set_state (bit on) to)

module _ {L : Type 0} (ops : Lists L) (sys : System) (fd : ℤ) (fill : Bytes) where
  served_state :
      (on : Bool) (to : Target) (g : Gateway L)
      → IsWord to.dst_addr
      → to.endpoint < 256
      → to.addr_mode < 256
      → srpc_process_incoming ops sys fd
          (padded (light_frame fill to.dst_addr to.addr_mode to.endpoint (bit on)))
          g
        ≡ some (running (record g { soc = perform (set_state (bit on) to) g.soc }))
  unfolding srpc_process_incoming srpc_set_device_state perform
  served_state true to g word ep mode =
      rw (build_uint16_lem to.dst_addr word, mod-eq_of_lt ep, mod-eq_of_lt mode) refl
  served_state false to g word ep mode =
      rw (build_uint16_lem to.dst_addr word, mod-eq_of_lt ep, mod-eq_of_lt mode) refl

  handled_states :
      (ons : List Bool) (to : Target) (g : Gateway L)
      → IsWord to.dst_addr
      → to.endpoint < 256
      → to.addr_mode < 256
      → handle_all ops sys fd (light_frames fill to.dst_addr to.addr_mode to.endpoint ons) g
        ≡ some (idle (record g { soc = perform_all (state_calls to ons) g.soc }))
  unfolding handle_all after
  handled_states [] to g word ep mode = refl
  handled_states (on ∷ ons) to g word ep mode =
      ap
        (λ r.
          after r
            (handle_all ops sys fd (light_frames fill to.dst_addr to.addr_mode to.endpoint ons)))
        (served_state on to g word ep mode)
      ∙ handled_states ons to (record g { soc = perform (set_state (bit on) to) g.soc }) word ep
          mode

  All-light_frames-IsShort :
      (ons : List Bool) (to : Target)
      → All IsShort (light_frames fill to.dst_addr to.addr_mode to.endpoint ons)
  All-light_frames-IsShort [] to = tt
  All-light_frames-IsShort (on ∷ ons) to = (omega arith, All-light_frames-IsShort ons to)

  All-state_calls-InRange :
      (ons : List Bool) (to : Target) → IsWord to.dst_addr → All InRange (state_calls to ons)
  All-state_calls-InRange [] to word = tt
  All-state_calls-InRange (on ∷ ons) to word = (word, All-state_calls-InRange ons to word)

  -- The client that flashes a light, asked for 1 to 65533 commands, ends after it has sent so many
  -- messages, and the server that reads them handles them all and has nothing left to read: the
  -- bytes added to the serial line decode to exactly so many requests to that light, on and off by
  -- turns, on where the number of commands that are left, this one included, has the given
  -- remainder by two. Conditions: no send fails, the fuel is more than the number, the memory of
  -- the message has 128 bytes, the address has sixteen bits, and the endpoint and the address mode
  -- have eight.
  pub flash_heard :
      (n fuel start_with : ℕ) (to : Target) (send : List Bytes → Bytes → ℤ) (g : Gateway L)
      → 0 < n
      → n < 65534
      → n < fuel
      → length fill ≡ 128
      → Sends (record { sent = []; send = send })
      → IsWord to.dst_addr
      → to.endpoint < 256
      → to.addr_mode < 256
      → (l : Line) × (frames : List Frame) × (g' : Gateway L) × (sent : Bytes) × (flash fuel fill
            to.dst_addr to.addr_mode to.endpoint start_with n
            (record { sent = []; send = send })
          ≡ some (Client.running l))
        × (l.sent ≡ map frame_bytes frames)
        × (rx_loop ops sys fd (map reads frames) (pos (length (concat (map frame_bytes frames)))) g
            ≡ some (idle g'))
        × (line g'.soc ≡ line g.soc ++ sent)
        × (decode_many
              (length
                (requests_all (state_calls to (alternating start_with n)) g.soc.trans_seq_number))
              sent
            ≡ some
                (requests_all (state_calls to (alternating start_with n)) g.soc.trans_seq_number))
  flash_heard n fuel start_with to send g some_loops few enough full works word ep mode =
      let ons = alternating start_with n in
      let frames = light_frames fill to.dst_addr to.addr_mode to.endpoint ons in
      let l : Line = record { sent = []; send = send } in
      let same : light_frames fill (to.dst_addr % 2 ^ 16) (to.addr_mode % 2 ^ 8)
            (to.endpoint % 2 ^ 8) ons
          ≡ frames =
        ap (λ a. light_frames fill a (to.addr_mode % 2 ^ 8) (to.endpoint % 2 ^ 8) ons)
          (mod-eq_of_lt word)
        ∙ ap (λ m. light_frames fill to.dst_addr m (to.endpoint % 2 ^ 8) ons) (mod-eq_of_lt mode)
        ∙ ap (λ e. light_frames fill to.dst_addr to.addr_mode e ons) (mod-eq_of_lt ep) in
      let (sent, on_line, read) =
        heard_run (state_calls to ons) g.soc (All-state_calls-InRange ons to word) in
      (
        record { sent = map frame_bytes frames; send = send },
        frames,
        record g { soc = perform_all (state_calls to ons) g.soc },
        sent,
        flashed n fuel fill to.dst_addr to.addr_mode to.endpoint start_with l some_loops few enough
              full works
            ∙ ap (λ fs. some (Client.running (record { sent = map frame_bytes fs; send = send })))
                same,
        refl,
        rx_loop_lem ops sys fd frames g (All-light_frames-IsShort ons to)
            ∙ handled_states ons to g word ep mode,
        on_line,
        read,
      )
