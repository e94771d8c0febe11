-- ===== src/Controller/Start.antt =====
-- The start of the program (`main`, server/Source/zbController.c): the serial port is opened, the chip
-- is asked for its device, the listening socket is opened, and the main loop begins.
use lighting_gateway.Prelude.{
  if◌then◌else◌, ℕ, ◌||◌, ◌∷◌, ◌≡◌, ◌⊎◌, Bool-cases, List, Option, [], inl, inr, refl, some,
}
use lighting_gateway.Prelude.Int.{ℤ, negsuc, eq_ℤ, is_negative}
use lighting_gateway.Lists.{Lists}
use lighting_gateway.Sockets.{RxResult, ended, Server, socket_sever_init}
use lighting_gateway.Sockets.Records.{Keeps, IsHeaded}
use lighting_gateway.Soc.Port.{Soc, zb_soc_open}
use lighting_gateway.Soc.Command.Network.{zb_soc_get_info}
use lighting_gateway.Srpc.{System, Gateway, Outcome, running, exited}
use lighting_gateway.Srpc.Incoming.Kept.{sockets}
use lighting_gateway.Controller.MainLoop.{Round, main_loop}
use lighting_gateway.Controller.MainLoop.Headed.{main_loop-Keeps}

-- What the system calls of the start return.
pub record Opened : Type 0 where
  pub serial_port : ℤ
  pub listening : ℤ
  pub bound : ℤ

module _ {L : Type 0} where
  unfoldable pub started : Gateway L → ℤ × Server → Outcome L
  started g (result, s) =
      let g' = record g { server = s } in if eq_ℤ result (negsuc 0) then exited g' else running g'

  -- `SRPC_Init`
  unfoldable pub srpc_init : Opened → Gateway L → Outcome L
  unfolding socket_sever_init started
  srpc_init o g = started g (socket_sever_init o.listening o.bound g.server)

  unfoldable pub loop_from :
      (Gateway L → Option (RxResult (Gateway L))) → Outcome L → Option (RxResult (Gateway L))
  loop_from loop (exited g) = some (ended g)
  loop_from loop (running g) = loop g

  unfoldable pub run_from :
      (Gateway L → Option (RxResult (Gateway L)))
      → Opened
      → Gateway L
      → ℤ × Soc
      → Option (RxResult (Gateway L))
  unfolding srpc_init loop_from zb_soc_get_info
  run_from loop o g (fd, soc) =
      if eq_ℤ fd (negsuc 0)
      then some (ended (record g { soc = soc }))
      else loop_from loop (srpc_init o (record g { soc = zb_soc_get_info soc }))

-- `main`, from the state that the lists on their files leave; `prev` is what an unset `prevNwkAddr`
-- holds.
unfoldable pub main :
    {L : Type 0}
    → Lists L
    → System
    → ℕ
    → Opened
    → List Round
    → Gateway L
    → Option (RxResult (Gateway L))
unfolding zb_soc_open run_from main_loop
main ops sys prev o rounds g =
    run_from (main_loop ops sys prev rounds) o g (zb_soc_open o.serial_port g.soc)

module _ {L : Type 0} (ops : Lists L) (sys : System) (prev : ℕ) where
  started_lem :
      (o : Opened) (g : Gateway L)
      → g.server.records ≡ []
      → (srpc_init o g ≡ exited g)
        ⊎ (srpc_init o g
            ≡ running (record g { server = record g.server { records = o.listening ∷ [] } }))
  unfolding srpc_init socket_sever_init started
  started_lem o g e = elim (Bool-cases (is_negative o.listening || is_negative o.bound)) [
    | inl fails ↦ inl (rw (srpc_init, e, fails) (rw (← e) refl))
    | inr works ↦ inr (rw (srpc_init, e, works) refl)
  ]

  run_from-Keeps :
      (loop : Gateway L → Option (RxResult (Gateway L))) (o : Opened) (g : Gateway L)
      (opened : ℤ × Soc)
      → g.server.records ≡ []
      → ((g' : Gateway L) → IsHeaded o.listening g'.server → Keeps sockets o.listening (loop g'))
      → Keeps sockets o.listening (run_from loop o g opened)
  unfolding run_from loop_from
  run_from-Keeps loop o g (fd, soc) e keeps = elim (Bool-cases (eq_ℤ fd (negsuc 0))) [
    | inl fails ↦ rw (run_from, fails) tt
    | inr opens ↦ elim (started_lem o (record g { soc = zb_soc_get_info soc }) e) [
      | inl no_socket ↦ rw (run_from, opens, no_socket) tt
      | inr socket ↦ rw (run_from, opens, socket) (keeps _ ([], refl))
    ]
  ]

  -- From the start of the program, with no sockets yet, through any rounds of its main loop,
  -- whatever the system calls of the start and the writes return, whatever comes from the chip and
  -- from the clients, and whoever connects and hangs up, the socket that was opened for listening
  -- is at the head of the list of sockets, unless the program has ended or has met a stray pointer.
  pub main-Keeps :
      (o : Opened) (rounds : List Round) (g : Gateway L)
      → g.server.records ≡ []
      → Keeps sockets o.listening (main ops sys prev o rounds g)
  unfolding main
  main-Keeps o rounds g e =
      run_from-Keeps (main_loop ops sys prev rounds) o g (zb_soc_open o.serial_port g.soc) e
        (main_loop-Keeps ops sys prev o.listening rounds)
