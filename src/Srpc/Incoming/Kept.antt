-- ===== src/Srpc/Incoming/Kept.antt =====
-- The receiving loop for a client's socket leaves the listening socket at the head of the list,
-- whatever the client sends.
use lighting_gateway.Prelude.{
  ℕ, ◌∷◌, All, Bool-cases, List, Option, Option-cases, [], arith, bit_and, get_elem?, get_or, inl,
  inr, none, refl, some, suc, zero,
}
use lighting_gateway.Prelude.Reading.{Bytes}
use lighting_gateway.Prelude.Int.{ℤ, pos, eq_ℤ, minus}
use lighting_gateway.Lists.{Lists}
use lighting_gateway.Sockets.{Part, RxResult}
use lighting_gateway.Sockets.Records.{IsHeaded, Keeps}
use lighting_gateway.Soc.Rpc.Receive.{ReadResult}
use lighting_gateway.Srpc.{System, Gateway, Outcome, Handler, running, exited}
use lighting_gateway.Srpc.Incoming.{
  act, call_handler, rpcs_process_incoming, srpc_process_incoming, rx_round, rx_loop, byte_read,
  after, buffer_of, contents,
}
use lighting_gateway.Srpc.Incoming.Headed.{HeadedAfter, Leaves}
use lighting_gateway.Srpc.Incoming.Handlers.{
  identify_device-Leaves, bind_devices-Leaves, set_device_state-Leaves, set_device_level-Leaves,
  set_device_color-Leaves, get_device_state-Leaves, get_device_level-Leaves, get_device_hue-Leaves,
  get_device_sat-Leaves, permit_join-Leaves, not_supported-Leaves, add_group-Leaves,
  store_scene-Leaves, recall_scene-Leaves, change_device_name-Leaves, get_groups-Leaves,
  get_scenes-Leaves, get_devices-Leaves, close-Leaves,
}

-- The sockets of the gateway.
abbrev pub sockets : {L : Type 0} → Part (Gateway L)
sockets = record {
  server = λ g. g.server;
  put = λ g s. record g { server = s };
  server_put = λ g s. refl;
}

module _ {L : Type 0} (ops : Lists L) (sys : System) (listening fd : ℤ) where
  abbrev IsKeeping : Handler L → Type 0
  IsKeeping h = (bs : Bytes) → Leaves listening (h bs)

  All-IsKeeping : All IsKeeping (rpcs_process_incoming ops sys fd)
  unfolding rpcs_process_incoming
  All-IsKeeping =
      search
        (
          close-Leaves, get_devices-Leaves, set_device_state-Leaves, set_device_level-Leaves,
          set_device_color-Leaves, get_device_state-Leaves, get_device_level-Leaves,
          get_device_hue-Leaves, get_device_sat-Leaves, bind_devices-Leaves, get_groups-Leaves,
          add_group-Leaves, get_scenes-Leaves, store_scene-Leaves, recall_scene-Leaves,
          identify_device-Leaves, change_device_name-Leaves, not_supported-Leaves,
          permit_join-Leaves,
        )
        depth 40

  call_handler_lem :
      (hs : List (Handler L)) (n : ℕ) (p_buf : Bytes) (g : Gateway L)
      → All IsKeeping hs
      → IsHeaded listening g.server
      → HeadedAfter listening (call_handler (get_elem? hs n) p_buf g)
  unfolding call_handler act
  call_handler_lem [] n p_buf g k h = tt
  call_handler_lem (handler ∷ hs) zero p_buf g k h =
      let kept = k.0 p_buf in
      elim (Option-cases (handler p_buf)) [
        | inl fault ↦ rw (call_handler, fault) tt
        | inr (r, read) ↦ rw (call_handler, read) ((rw read at kept) g h)
      ]
  call_handler_lem (handler ∷ hs) (suc n) p_buf g k h = call_handler_lem hs n p_buf g k.1 h

  rx_round-HeadedAfter :
      (first second : ReadResult) (g : Gateway L)
      → IsHeaded listening g.server
      → HeadedAfter listening (rx_round ops sys fd first second g)
  unfolding rx_round srpc_process_incoming
  rx_round-HeadedAfter first second g h =
      let buffer = buffer_of (contents first) (contents second) in
      let handled =
        call_handler_lem (rpcs_process_incoming ops sys fd) (bit_and (get_or buffer 0 0) 0x7F)
          buffer g All-IsKeeping h in
      ground (arith, handled)

  after-Keeps :
      (r : Option (Outcome L)) (next : Gateway L → Option (RxResult (Gateway L)))
      → HeadedAfter listening r
      → ((g : Gateway L) → IsHeaded listening g.server → Keeps sockets listening (next g))
      → Keeps sockets listening (after r next)
  unfolding after
  after-Keeps none next h k = tt
  after-Keeps (some (exited g)) next h k = tt
  after-Keeps (some (running g)) next h k = k g h

  pub rx_loop-Keeps :
      (rs : List (ReadResult × ReadResult)) (byte_to_read : ℤ) (g : Gateway L)
      → IsHeaded listening g.server
      → Keeps sockets listening (rx_loop ops sys fd rs byte_to_read g)
  unfolding rx_loop
  rx_loop-Keeps [] byte_to_read g h = ground arith
  rx_loop-Keeps ((first, second) ∷ rs) byte_to_read g h =
      let rest = minus byte_to_read (byte_read first second) in
      elim (Bool-cases (eq_ℤ byte_to_read (pos 0))) [
        | inl done ↦ rw (rx_loop, done) h
        | inr more ↦
            rw (rx_loop, more)
              (after-Keeps (rx_round ops sys fd first second g)
                (λ g'. rx_loop ops sys fd rs rest g') (rx_round-HeadedAfter first second g h)
                (rx_loop-Keeps rs rest))
      ]
