-- ===== src/Controller/MainLoop/Turns.antt =====
-- The sockets' turns in a round of the main loop: clients that speak about lights, that connect and
-- that hang up.
use mathlib.Core.List.{map}
use lighting_gateway.Prelude.{
  if◌then◌else◌, ◌++◌, ◌==◌, ◌∙◌, ◌∷◌, ◌≡◌, All, Bool, Bool-cases, List, [], ap, append-nil,
  append_assoc, arith, bit_and, concat, false, inl, inr, length, refl, some, true,
}
use lighting_gateway.Prelude.Reading.{Bytes}
use lighting_gateway.Prelude.Int.{ℤ, eq_ℤ, eq_ℤ_comm, eq_ℤ_refl, pos}
use lighting_gateway.Lists.{Lists}
use lighting_gateway.Sockets.{
  Server, put_back, idle, proceed, socket_sever_poll, poll_shut_down, create_socket_rec,
}
use lighting_gateway.Sockets.Records.{mem, mem-append, delete_socket_rec_lem}
use lighting_gateway.Soc.Port.{Soc}
use lighting_gateway.Soc.Api.{Call}
use lighting_gateway.Soc.Api.Heard.{perform_all}
use lighting_gateway.Srpc.{System, Gateway}
use lighting_gateway.Srpc.Incoming.Kept.{sockets}
use lighting_gateway.Srpc.Incoming.Stream.{frame_bytes, reads, rx_loop_lem}
use lighting_gateway.Srpc.Client.{Message, calls}
use lighting_gateway.Srpc.Client.Obeyed.{Fits}
use lighting_gateway.Srpc.Client.Run.{
  frame_of, handled_run, All-frame_of-IsShort, perform_all-append,
}
use lighting_gateway.Controller.MainLoop.{Ready, srpc_rx_cb, poll_sockets}
use lighting_gateway.Sockets.Distinct.{Distinct, Absent, All-Absent, erase-append}

module _ (ready : ℤ → Ready) where
  abbrev pub hangs_up : ℤ → Bool
  hangs_up fd = if bit_and (ready fd).revents 0x2000 == 0 then false else true

  abbrev pub staying : List ℤ → List ℤ
  staying [] = []
  staying (fd ∷ fds) = if hangs_up fd then staying fds else fd ∷ staying fds

  abbrev pub leaving : List ℤ → List ℤ
  leaving [] = []
  leaving (fd ∷ fds) = if hangs_up fd then fd ∷ leaving fds else leaving fds

  -- The new connection, if the listening socket has news.
  abbrev pub joining : ℤ → List ℤ
  joining listening = if (ready listening).revents == 0 then [] else (ready listening).accepted ∷ []

  module _ (said : ℤ → List Message) where
    -- The messages of a client that `poll` reports on.
    abbrev pub heard : ℤ → List Message
    heard fd = if bit_and (ready fd).revents 0x1 == 0 then [] else said fd

    abbrev pub heard_calls : List ℤ → List Call
    heard_calls [] = []
    heard_calls (fd ∷ fds) = concat (map calls (heard fd)) ++ heard_calls fds

    -- The socket of the client holds whole messages about lights, and nothing else.
    abbrev pub Speaks : ℤ → Type 0
    Speaks fd =
        ((ready fd).reads ≡ map reads (map frame_of (said fd)))
        × ((ready fd).byte_to_read
            ≡ pos (length (concat (map frame_bytes (map frame_of (said fd))))))
        × All Fits (said fd)

    module _ {L : Type 0} (ops : Lists L) (sys : System) (written : List (ℤ × Bytes))
        (lists : L) where
      abbrev with_sockets : Soc → List ℤ → List ℤ → Gateway L
      with_sockets soc records closed = record {
        soc = soc;
        server = record { records = records; closed = closed; written = written };
        lists = lists;
      }

      rx_lem :
          (fd : ℤ) (g : Gateway L)
          → Speaks fd
          → srpc_rx_cb ops sys ready fd g
            ≡ some (idle (record g { soc = perform_all (concat (map calls (said fd))) g.soc }))
      unfolding srpc_rx_cb
      rx_lem fd g (rs, n, fits) =
          rw (srpc_rx_cb, rs, n)
            (rx_loop_lem ops sys fd (map frame_of (said fd)) g (All-frame_of-IsShort (said fd) fits)
              ∙ handled_run ops sys fd (said fd) g fits)

      shut_down_lem :
          (listening fd : ℤ) (kept rest : List ℤ) (soc : Soc) (closed : List ℤ)
          → eq_ℤ listening fd ≡ false
          → mem fd kept ≡ false
          → poll_shut_down sockets fd
              (ready fd).revents
              (with_sockets soc (listening ∷ (kept ++ fd ∷ rest)) closed)
            ≡ some (
                idle (
                  with_sockets soc
                    (listening ∷ (kept ++ (if hangs_up fd then rest else fd ∷ rest)))
                    (closed ++ (if hangs_up fd then fd ∷ [] else []))))
      unfolding poll_shut_down
      shut_down_lem listening fd kept rest soc closed other absent =
          elim (Bool-cases (bit_and (ready fd).revents 0x2000 == 0)) [
            | inl stays ↦ rw (poll_shut_down, stays, append-nil) refl
            | inr gone ↦
                (let server : Server = record {
                  records = listening ∷ (kept ++ fd ∷ rest);
                  closed = closed;
                  written = written;
                } in
                  let before = with_sockets soc (listening ∷ (kept ++ fd ∷ rest)) closed in
                  rw (poll_shut_down, gone)
                    (ap (put_back sockets before)
                        (delete_socket_rec_lem server listening fd (kept ++ fd ∷ rest) refl other)
                      ∙ rw (mem-append fd kept rest, erase-append fd kept rest absent) refl))
          ]

      poll_lem :
          (listening fd : ℤ) (kept rest : List ℤ) (soc : Soc) (closed : List ℤ)
          → eq_ℤ listening fd ≡ false
          → mem fd kept ≡ false
          → Speaks fd
          → socket_sever_poll sockets
              (srpc_rx_cb ops sys ready)
              (ready fd).accepted
              fd
              (ready fd).revents
              (with_sockets soc (listening ∷ (kept ++ fd ∷ rest)) closed)
            ≡ some (
                idle (
                  with_sockets
                    (perform_all (concat (map calls (heard fd))) soc)
                    (listening ∷ (kept ++ (if hangs_up fd then rest else fd ∷ rest)))
                    (closed ++ (if hangs_up fd then fd ∷ [] else []))))
      unfolding socket_sever_poll proceed
      poll_lem listening fd kept rest soc closed other absent speaks =
          let before = with_sockets soc (listening ∷ (kept ++ fd ∷ rest)) closed in
          let client = eq_ℤ_comm fd listening ∙ other in
          elim (Bool-cases (bit_and (ready fd).revents 0x1 == 0)) [
            | inl quiet ↦
                rw (socket_sever_poll, client, quiet)
                  (shut_down_lem listening fd kept rest soc closed other absent)
            | inr news ↦
                rw (socket_sever_poll, client, news, rx_lem fd before speaks)
                  (shut_down_lem listening fd kept rest _ closed other absent)
          ]

      pub poll_sockets_lem :
          (listening : ℤ) (kept fds more : List ℤ) (soc : Soc) (closed : List ℤ)
          → mem listening fds ≡ false
          → Distinct fds
          → All (Absent kept) fds
          → All Speaks fds
          → poll_sockets ops sys ready fds
              (with_sockets soc (listening ∷ (kept ++ (fds ++ more))) closed)
            ≡ some (
                idle (
                  with_sockets
                    (perform_all (heard_calls fds) soc)
                    (listening ∷ (kept ++ (staying fds ++ more)))
                    (closed ++ leaving fds)))
      unfolding poll_sockets
      poll_sockets_lem listening kept [] more soc closed other apart absent speaks =
          rw append-nil refl
      poll_sockets_lem listening kept (fd ∷ fds) more soc closed other apart absent speaks =
          let calls_here = concat (map calls (heard fd)) in
          let soc' = perform_all calls_here soc in
          let rest = poll_sockets ops sys ready fds in
          let step =
            poll_lem listening fd kept (fds ++ more) soc closed
              (eq_ℤ_comm listening fd ∙ ground (arith, other)) absent.0 speaks.0 in
          let later = perform_all-append calls_here (heard_calls fds) soc in
          let without =
            poll_sockets_lem listening kept fds more soc' (closed ++ fd ∷ [])
              (ground (arith, other)) apart.1 absent.1 speaks.1 in
          let with_it = λ (soc' : Soc).
            rw
              (
                append_assoc kept (fd ∷ []) (fds ++ more),
                append_assoc kept (fd ∷ []) (staying fds ++ more),
              )
              at
              (poll_sockets_lem listening (kept ++ fd ∷ []) fds more soc' closed
                (ground (arith, other)) apart.1 (All-Absent kept fds fd absent.1 apart.0)
                speaks.1) in
          elim (Bool-cases ((ready fd).revents == 0)) [
            | inl quiet ↦
                (let nothing : (ready fd).revents ≡ 0 = ground (arith, quiet) in
                  let silent : (bit_and (ready fd).revents 0x1 == 0) ≡ true = rw nothing refl in
                  let stays : (bit_and (ready fd).revents 0x2000 == 0) ≡ true = rw nothing refl in
                  rw (poll_sockets, quiet, stays, silent) (with_it soc))
            | inr news ↦ elim (Bool-cases (bit_and (ready fd).revents 0x2000 == 0)) [
              | inl stays ↦
                  rw (poll_sockets, news)
                    (ap (λ r. proceed r rest) step ∙ rw (stays, append-nil, later) (with_it soc'))
              | inr gone ↦
                  rw (poll_sockets, news)
                    (ap (λ r. proceed r rest) step
                      ∙ rw (gone, later, ← append_assoc closed (fd ∷ []) (leaving fds)) without)
            ]
          ]

      -- The listening socket is asked about first.
      pub accept_lem :
          (listening : ℤ) (clients fds : List ℤ) (soc : Soc) (closed : List ℤ)
          → poll_sockets ops sys ready
              (listening ∷ fds)
              (with_sockets soc (listening ∷ clients) closed)
            ≡ poll_sockets ops sys ready fds
                (with_sockets soc (listening ∷ (clients ++ joining listening)) closed)
      unfolding poll_sockets create_socket_rec proceed
      accept_lem listening clients fds soc closed =
          elim (Bool-cases ((ready listening).revents == 0)) [
            | inl quiet ↦ rw (poll_sockets, quiet, append-nil) refl
            | inr news ↦ rw (poll_sockets, news, socket_sever_poll, eq_ℤ_refl listening) refl
          ]
