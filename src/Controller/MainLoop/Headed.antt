-- ===== src/Controller/MainLoop/Headed.antt =====
-- The listening socket is at the head of the list of sockets in every round of the main loop.
use lighting_gateway.Prelude.{
  ℕ, ◌==◌, ◌^◌, ◌||◌, ◌∷◌, Bool-cases, List, Option, Option-cases, [], arith, inl, inr, leb, length,
  none, some, suc, zero,
}
use lighting_gateway.Prelude.Int.{ℤ}
use lighting_gateway.Endpoint.{EpInfo, EpInfoExtended, type_removed}
use lighting_gateway.Lists.{Lists}
use lighting_gateway.Sockets.{socket_sever_get_num_clients}
use lighting_gateway.Sockets.Records.{IsHeaded, Keeps, proceed-Keeps, socket_sever_poll-Keeps}
use lighting_gateway.Soc.Rpc.{
  Event, tl_indication, new_dev_indication, zcl_get_state, zcl_get_level, zcl_get_hue, zcl_get_sat,
  zdo_simple_desc_rsp, zdo_leave_ind, util_get_dev_info_rsp, zcl_get_model,
}
use lighting_gateway.Soc.Rpc.Receive.{Outcome, handled, zb_soc_process_rpc}
use lighting_gateway.Srpc.{System, Gateway}
use lighting_gateway.Srpc.Incoming.Headed.{StaysHeaded, srpc_send_all-StaysHeaded}
use lighting_gateway.Srpc.Incoming.Kept.{sockets, rx_loop-Keeps}
use lighting_gateway.Srpc.Reply.{
  srpc_send_ep_info, srpc_parse_ep_info, srpc_call_back_get_state_rsp, srpc_call_back_get_level_rsp,
  srpc_call_back_get_hue_rsp, srpc_call_back_get_sat_rsp,
}
use lighting_gateway.Controller.{
  zb_soc_cbs, tl_indication_cb, simple_desc_known, simple_desc_of, zdo_simple_desc_rsp_cb,
  leave_loop, on_event, serial_round_of, serial_round, new_dev_indication_cb,
}
use lighting_gateway.Controller.MainLoop.{
  Ready, Round, srpc_rx_cb, poll_sockets, serial_half, sockets_half, main_round, main_loop,
}

module _ {L : Type 0} (ops : Lists L) (sys : System) (prev : ℕ) (listening : ℤ) where
  abbrev Stays : Option (Gateway L) → Type 0
  Stays r = StaysHeaded listening r

  send_ep_info-Stays :
      (ex : EpInfoExtended) (g : Gateway L)
      → IsHeaded listening g.server
      → Stays (srpc_send_ep_info sys ex g)
  unfolding srpc_send_ep_info
  send_ep_info-Stays ex g h = elim (Option-cases (srpc_parse_ep_info sys ex)) [
    | inl unmade ↦ rw (srpc_send_ep_info, unmade) tt
    | inr (msg, made) ↦
        rw (srpc_send_ep_info, made) (srpc_send_all-StaysHeaded ops sys listening msg g h)
  ]

  simple_desc_known-Stays :
      (e : EpInfo) (old : Option EpInfo × L) (g : Gateway L)
      → IsHeaded listening g.server
      → Stays (simple_desc_known ops sys prev e old g)
  unfolding simple_desc_known
  simple_desc_known-Stays e (none, l) g h = search send_ep_info-Stays
  simple_desc_known-Stays e (some old, l) g h = elim (Bool-cases (e.nwk_addr == old.nwk_addr)) [
    | inl same ↦ rw (simple_desc_known, same) h
    | inr moved ↦ rw (simple_desc_known, moved) (search send_ep_info-Stays)
  ]

  simple_desc_of-Stays :
      (e : EpInfo) (found : Option EpInfo × L) (g : Gateway L)
      → IsHeaded listening g.server
      → Stays (simple_desc_of ops sys prev e found g)
  unfolding simple_desc_of
  simple_desc_of-Stays e (none, l) g h = tt
  simple_desc_of-Stays e (some ieee_ep_info, l) g h = search simple_desc_known-Stays

  leave_loop-Stays :
      (fuel nwk_addr : ℕ) (g : Gateway L)
      → IsHeaded listening g.server
      → Stays (leave_loop ops sys prev fuel nwk_addr g)
  unfolding leave_loop
  leave_loop-Stays zero nwk_addr g h = tt
  leave_loop-Stays (suc fuel) nwk_addr g h =
      let r = ops.dev_list_remove_device_by_na_ep nwk_addr 0xFF g.lists in
      elim (Option-cases r.0) [
        | inl gone ↦ rw (leave_loop, gone) h
        | inr (e, found) ↦
            (let ex : EpInfoExtended = record {
              ep_info = e;
              prev_nwk_addr = prev;
              type = type_removed;
            } in
              let left : Gateway L = record g { lists = r.1 } in
              let kept = send_ep_info-Stays ex left h in
              elim (Option-cases (srpc_send_ep_info sys ex left)) [
                | inl fault ↦ rw (leave_loop, found, fault) tt
                | inr (g', sent) ↦
                    rw (leave_loop, found, sent)
                      (leave_loop-Stays fuel nwk_addr g' (rw sent at kept))
              ])
      ]

  on_event-Stays :
      (fuel : ℕ) (event : Event) (g : Gateway L)
      → IsHeaded listening g.server
      → Stays (on_event ops sys prev fuel event g)
  unfolding on_event tl_indication_cb new_dev_indication_cb zdo_simple_desc_rsp_cb
      srpc_call_back_get_state_rsp srpc_call_back_get_level_rsp srpc_call_back_get_hue_rsp
      srpc_call_back_get_sat_rsp
  on_event-Stays fuel (tl_indication e) g h = search send_ep_info-Stays
  on_event-Stays fuel (new_dev_indication e) g h = h
  on_event-Stays fuel (zcl_get_state _ _ _) g h = search srpc_send_all-StaysHeaded
  on_event-Stays fuel (zcl_get_level _ _ _) g h = search srpc_send_all-StaysHeaded
  on_event-Stays fuel (zcl_get_hue _ _ _) g h = search srpc_send_all-StaysHeaded
  on_event-Stays fuel (zcl_get_sat _ _ _) g h = search srpc_send_all-StaysHeaded
  on_event-Stays fuel (zdo_simple_desc_rsp e) g h = search simple_desc_of-Stays
  on_event-Stays fuel (zdo_leave_ind nwk_addr) g h = leave_loop-Stays fuel nwk_addr g h
  on_event-Stays fuel (util_get_dev_info_rsp _ _ _ _ _) g h = tt
  on_event-Stays fuel (zcl_get_model _) g h = tt

  serial_round_of-Stays :
      (fuel : ℕ) (g : Gateway L) (o : Outcome)
      → IsHeaded listening g.server
      → Stays (serial_round_of ops sys prev fuel g o)
  unfolding serial_round_of
  serial_round_of-Stays fuel g (handled none) h = tt
  serial_round_of-Stays fuel g (handled (some none)) h = h
  serial_round_of-Stays fuel g (handled (some (some e))) h = on_event-Stays fuel e g h
  serial_round_of-Stays fuel g _ h = h

  serial_half-Stays :
      (round : Round) (g : Gateway L)
      → IsHeaded listening g.server
      → Stays (serial_half ops sys prev round g)
  unfolding serial_half serial_round
  serial_half-Stays round g h =
      let kept =
        serial_round_of-Stays (suc (length (ops.devices g.lists).0)) g
          (zb_soc_process_rpc zb_soc_cbs round.stack round.junk round.serial_reads) h in
      ground (arith, kept)

  poll_sockets-Keeps :
      (ready : ℤ → Ready) (fds : List ℤ) (g : Gateway L)
      → IsHeaded listening g.server
      → Keeps sockets listening (poll_sockets ops sys ready fds g)
  unfolding poll_sockets srpc_rx_cb
  poll_sockets-Keeps ready [] g h = h
  poll_sockets-Keeps ready (fd ∷ fds) g h =
      let r = ready fd in
      elim (Bool-cases (r.revents == 0)) [
        | inl quiet ↦ rw (poll_sockets, quiet) (poll_sockets-Keeps ready fds g h)
        | inr news ↦
            rw (poll_sockets, news)
              (proceed-Keeps sockets listening _ (poll_sockets ops sys ready fds)
                (socket_sever_poll-Keeps sockets (srpc_rx_cb ops sys ready) listening r.accepted fd
                  r.revents g
                  (λ fd' t headed.
                    rx_loop-Keeps ops sys listening fd' (ready fd').reads (ready fd').byte_to_read t
                      headed)
                  h)
                (poll_sockets-Keeps ready fds))
      ]

  sockets_half-Keeps :
      (round : Round) (fds : List ℤ) (r : Option (Gateway L))
      → Stays r
      → Keeps sockets listening (sockets_half ops sys round fds r)
  unfolding sockets_half
  sockets_half-Keeps round fds none h = tt
  sockets_half-Keeps round fds (some g) h = poll_sockets-Keeps round.ready fds g h

  main_round-Keeps :
      (round : Round) (g : Gateway L)
      → IsHeaded listening g.server
      → Keeps sockets listening (main_round ops sys prev round g)
  unfolding main_round
  main_round-Keeps round g h =
      let n = socket_sever_get_num_clients g.server in
      elim (Bool-cases (leb (2 ^ 31) n || n == 0)) [
        | inl many ↦ rw (main_round, many) h
        | inr few ↦
            rw (main_round, few)
              (sockets_half-Keeps round _ (serial_half ops sys prev round g)
                (serial_half-Stays round g h))
      ]

  pub main_loop-Keeps :
      (rounds : List Round) (g : Gateway L)
      → IsHeaded listening g.server
      → Keeps sockets listening (main_loop ops sys prev rounds g)
  unfolding main_loop
  main_loop-Keeps [] g h = h
  main_loop-Keeps (round ∷ rounds) g h =
      proceed-Keeps sockets listening (main_round ops sys prev round g)
        (main_loop ops sys prev rounds) (main_round-Keeps round g h) (main_loop-Keeps rounds)
