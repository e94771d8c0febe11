-- ===== src/Controller/MainLoop/Lost.antt =====
-- A client that is lost between the report of `poll` and its turn: the main loop still reads from
-- its socket.
use lighting_gateway.Prelude.{
  ℕ, ◌%◌, ◌++◌, ◌/◌, ◌<◌, ◌==◌, ◌^◌, ◌∙◌, ◌∷◌, ◌≡◌, All, Bool-cases, List, [], ap, arith, bit_and,
  false, inl, inr, length, refl, some, true,
}
use lighting_gateway.Prelude.Reading.{Bytes}
use lighting_gateway.Prelude.Int.{ℤ, pos, eq_ℤ, eq_ℤ_comm, is_negative}
use lighting_gateway.Lists.{Lists}
use lighting_gateway.Sockets.{ended, proceed, socket_sever_poll}
use lighting_gateway.Sockets.Records.{erase}
use lighting_gateway.Sockets.Broadcast.{Works, to_each, send_allclients_fails}
use lighting_gateway.Soc.Rpc.{zcl_get_level}
use lighting_gateway.Soc.Rpc.Receive.{ReadResult, failed, zb_soc_process_rpc, handled}
use lighting_gateway.Srpc.{System, Gateway, with_server, srpc_send_all}
use lighting_gateway.Srpc.Reply.{srpc_call_back_get_level_rsp}
use lighting_gateway.Srpc.Incoming.{rx_loop, rx_round, after}
use lighting_gateway.Srpc.Incoming.Kept.{sockets}
use lighting_gateway.Controller.{zb_soc_cbs, on_event, serial_round_of, serial_round}
use lighting_gateway.Controller.MainLoop.Asked.{main_round_lem}
use lighting_gateway.Controller.MainLoop.{
  Ready, srpc_rx_cb, poll_sockets, Round, serial_half, main_round, sockets_half,
}

-- The message that tells the clients the level of a lamp.
abbrev pub level_message : ℕ → ℕ → ℕ → Bytes
level_message level nwk_addr endpoint =
    0x08 ∷ 4 ∷ nwk_addr % 256 ∷ nwk_addr / 256 % 256 ∷ endpoint ∷ level ∷ []

module _ (ready : ℤ → Ready) where
  -- `poll` reports nothing on the socket.
  abbrev pub IsQuiet : ℤ → Type 0
  IsQuiet fd = (ready fd).revents ≡ 0

  -- `poll` has reported data, but the socket is closed: its reads fail.
  abbrev pub IsClosed : ℤ → Type 0
  IsClosed fd =
      ((bit_and (ready fd).revents 0x1 == 0) ≡ false)
      × (eq_ℤ (ready fd).byte_to_read (pos 0) ≡ false)
      × (rs : List (ReadResult × ReadResult)) × ((ready fd).reads ≡ (failed, failed) ∷ rs)

module _ {L : Type 0} (ops : Lists L) (sys : System) (ready : ℤ → Ready) where
  poll_sockets-IsQuiet :
      (pre fds : List ℤ) (g : Gateway L)
      → All (IsQuiet ready) pre
      → poll_sockets ops sys ready (pre ++ fds) g ≡ poll_sockets ops sys ready fds g
  unfolding poll_sockets
  poll_sockets-IsQuiet [] fds g h = refl
  poll_sockets-IsQuiet (fd ∷ pre) fds g h =
      let quiet : ((ready fd).revents == 0) ≡ true = rw h.0 refl in
      rw (poll_sockets, quiet) (poll_sockets-IsQuiet pre fds g h.1)

  poll_sockets-IsClosed :
      (listening fd : ℤ) (fds clients : List ℤ) (g : Gateway L)
      → g.server.records ≡ listening ∷ clients
      → eq_ℤ listening fd ≡ false
      → IsClosed ready fd
      → poll_sockets ops sys ready (fd ∷ fds) g ≡ some (ended g)
  unfolding poll_sockets srpc_rx_cb proceed socket_sever_poll rx_loop rx_round after
  poll_sockets-IsClosed listening fd fds clients g e other (news, more, rs, fails) =
      let busy : ((ready fd).revents == 0) ≡ false = elim (Bool-cases ((ready fd).revents == 0)) [
        | inl quiet ↦
            (let nothing : (ready fd).revents ≡ 0 = ground (arith, quiet) in
              absurd
                (let wrong : (bit_and 0 0x1 == 0) ≡ false = rw nothing at news in ground arith))
        | inr busy ↦ busy
      ] in
      let client = eq_ℤ_comm fd listening ∙ other in
      let dies : srpc_rx_cb ops sys ready fd g ≡ some (ended g) =
        rw (srpc_rx_cb, fails, more) refl in
      let ends : socket_sever_poll sockets (srpc_rx_cb ops sys ready) (ready fd).accepted fd
            (ready fd).revents g
          ≡ some (ended g) =
        rw (socket_sever_poll, e, client, news, dies) (rw (← e) refl) in
      rw (poll_sockets, busy, ends) refl

module _ {L : Type 0} (ops : Lists L) (sys : System) (prev : ℕ) where
  -- If the chip reports a level and the write of it to a client fails, that client is removed and
  -- its socket closed, but if poll had reported data from it the same round still reads from the
  -- closed socket, and the program ends. Conditions: the writes to the clients before it succeed
  -- and poll reports nothing on them nor on the listening socket, there are fewer than 2^31
  -- sockets, the number of waiting bytes, which the failed ioctl leaves unset, is not 0, and the
  -- reads fail.
  pub round-ended :
      (round : Round) (listening fd : ℤ) (pre post : List ℤ) (level nwk_addr endpoint : ℕ)
      (g : Gateway L)
      → (round.serial_revents == 0) ≡ false
      → zb_soc_process_rpc zb_soc_cbs round.stack round.junk round.serial_reads
        ≡ handled (some (some (zcl_get_level level nwk_addr endpoint)))
      → g.server.records ≡ listening ∷ (pre ++ fd ∷ post)
      → length (listening ∷ (pre ++ fd ∷ post)) < 2 ^ 31
      → All (Works sys.write_result) pre
      → is_negative (sys.write_result fd) ≡ true
      → eq_ℤ listening fd ≡ false
      → All (IsQuiet round.ready) (listening ∷ pre)
      → IsClosed round.ready fd
      → main_round ops sys prev round g
        ≡ some (
            ended (record g {
              server = record g.server {
                records = listening ∷ erase fd (pre ++ fd ∷ post);
                closed = g.server.closed ++ fd ∷ [];
                written =
                    (g.server.written ++ to_each (level_message level nwk_addr endpoint) pre)
                    ++ (fd, level_message level nwk_addr endpoint) ∷ [];
              };
            }))
  unfolding serial_half sockets_half serial_round serial_round_of on_event
      srpc_call_back_get_level_rsp srpc_send_all
  round-ended round listening fd pre post level nwk_addr endpoint g news message e few works bad
        other quiet closed =
      let told : Bytes = level_message level nwk_addr endpoint in
      let g' : Gateway L = record g {
        server = record g.server {
          records = listening ∷ erase fd (pre ++ fd ∷ post);
          closed = g.server.closed ++ fd ∷ [];
          written = (g.server.written ++ to_each told pre) ++ (fd, told) ∷ [];
        };
      } in
      let first : serial_half ops sys prev round g ≡ some g' =
        rw (serial_half, news, message)
          (ap (with_server g) (
            send_allclients_fails sys.write_result told g.server listening pre fd post e works bad
              other)) in
      main_round_lem ops sys prev round listening (pre ++ fd ∷ post) g e few
      ∙ ap (sockets_half ops sys round (listening ∷ (pre ++ fd ∷ post))) first
      ∙ poll_sockets-IsQuiet ops sys round.ready (listening ∷ pre) (fd ∷ post) g' quiet
      ∙ poll_sockets-IsClosed ops sys round.ready listening fd post (erase fd (pre ++ fd ∷ post)) g'
          refl other closed
