-- ===== src/Controller/MainLoop/Obeyed.antt =====
-- A round of the main loop in which clients speak about lights: what they say reaches the chip.
use mathlib.Core.List.{map}
use lighting_gateway.Prelude.{
  ℕ, ◌++◌, ◌+◌, ◌<◌, ◌==◌, ◌^◌, ◌∙◌, ◌∷◌, ◌≡◌, ◌≤◌, All, All-append, Bool-cases, List, Option, [],
  ap, arith, bit_and, concat, false, inl, inr, length, refl, some, suc, true,
}
use lighting_gateway.Prelude.Reading.{Bytes}
use lighting_gateway.Prelude.Int.{ℤ}
use lighting_gateway.Lists.{Lists}
use lighting_gateway.Sockets.{idle, RxResult}
use lighting_gateway.Sockets.Broadcast.{Works}
use lighting_gateway.Soc.Wire.RoundTrip.{IsWord}
use lighting_gateway.Soc.Rpc.{Stack}
use lighting_gateway.Soc.Rpc.Receive.{ReadResult, got}
use lighting_gateway.Soc.Rpc.Receive.Reads.{brought, failures}
use lighting_gateway.Soc.Rpc.Report.{Attribute, attribute, render}
use lighting_gateway.Controller.Answers.{answer, told_all, answered}
use lighting_gateway.Soc.Api.Heard.{InRange, decode_many, requests_all, heard_run}
use lighting_gateway.Soc.Api.Sending.{line}
use lighting_gateway.Srpc.{System, Gateway}
use lighting_gateway.Srpc.Client.{Message, calls}
use lighting_gateway.Srpc.Client.Run.{All-concat-InRange}
use lighting_gateway.Controller.MainLoop.Asked.{main_round_lem}
use lighting_gateway.Controller.MainLoop.{
  Ready, poll_sockets, Round, main_round, serial_half, sockets_half,
}
use lighting_gateway.Sockets.Distinct.{Distinct, All-Absent_none}
use lighting_gateway.Controller.MainLoop.Turns.{
  staying, leaving, joining, heard_calls, Speaks, accept_lem, poll_sockets_lem,
}

module _ (ready : ℤ → Ready) where
  All-heard_calls-InRange :
      (said : ℤ → List Message) (fds : List ℤ)
      → All (Speaks ready said) fds
      → All InRange (heard_calls ready said fds)
  All-heard_calls-InRange said [] h = tt
  All-heard_calls-InRange said (fd ∷ fds) h =
      let rest = All-heard_calls-InRange said fds h.1 in
      elim (Bool-cases (bit_and (ready fd).revents 0x1 == 0)) [
        | inl quiet ↦ rw quiet rest
        | inr news ↦ rw news (
            All-append InRange (concat (map calls (said fd))) (heard_calls ready said fds)
              (All-concat-InRange (said fd) h.0.2) rest)
      ]

  -- The clients have had their turns, from the state `g` on, and the loop goes on.
  abbrev pub Served :
      {L : Type 0}
      → (ℤ → List Message)
      → ℤ
      → List ℤ
      → Gateway L
      → Option (RxResult (Gateway L))
      → Type 0
  Served {L} said listening clients g r =
      (g' : Gateway L) × (sent : Bytes) × (r ≡ some (idle g'))
      × (g'.server ≡ record {
        records = listening ∷ (staying ready clients ++ joining ready listening);
        closed = g.server.closed ++ leaving ready clients;
        written = g.server.written;
      })
      × (line g'.soc ≡ line g.soc ++ sent)
      × (decode_many (length (requests_all (heard_calls ready said clients) g.soc.trans_seq_number))
            sent
          ≡ some (requests_all (heard_calls ready said clients) g.soc.trans_seq_number))

module _ {L : Type 0} (ops : Lists L) (sys : System) (prev : ℕ) where
  -- The clients are served from the state that the message from the chip leaves, if all of them are
  -- still there.
  round_from :
      (round : Round) (said : ℤ → List Message) (listening : ℤ) (clients : List ℤ)
      (g g1 : Gateway L)
      → serial_half ops sys prev round g ≡ some g1
      → g.server.records ≡ listening ∷ clients
      → g1.server.records ≡ listening ∷ clients
      → Distinct (listening ∷ clients)
      → length (listening ∷ clients) < 2 ^ 31
      → All (Speaks round.ready said) clients
      → Served round.ready said listening clients g1 (main_round ops sys prev round g)
  unfolding sockets_half
  round_from round said listening clients g g1 first e e1 apart few speaks =
      let (sent, on_line, read) =
        heard_run (heard_calls round.ready said clients) g1.soc
          (All-heard_calls-InRange round.ready said clients speaks) in
      (
        _,
        sent,
        main_round_lem ops sys prev round listening clients g e few
            ∙ ap (sockets_half ops sys round (listening ∷ clients)) first
            ∙ ap
                (λ rs.
                  poll_sockets ops sys round.ready (listening ∷ clients)
                    (record g1 { server = record g1.server { records = rs } }))
                e1
            ∙ accept_lem round.ready said ops sys g1.server.written g1.lists listening clients
                clients g1.soc g1.server.closed
            ∙ poll_sockets_lem round.ready said ops sys g1.server.written g1.lists listening []
                clients (joining round.ready listening) g1.soc g1.server.closed apart.0 apart.1
                (All-Absent_none clients) speaks,
        refl,
        on_line,
        read,
      )

  -- In a round of the main loop in which the serial port is quiet and the sockets of the clients
  -- hold whole messages about lights and nothing else, the clients have their turns in the order of
  -- the list and nothing else is done: the bytes added to the serial line decode to exactly the
  -- requests that the messages of the clients with input stand for, client by client and in the
  -- order of each one's messages; the clients that hang up are closed and taken from the list, the
  -- others keep their places, and a new connection is the last. Conditions: no socket stands in the
  -- list twice, there are fewer than 2^31, the first is the listening one, and the numbers of the
  -- messages fit their places.
  pub round_heard :
      (round : Round) (said : ℤ → List Message) (listening : ℤ) (clients : List ℤ) (g : Gateway L)
      → round.serial_revents ≡ 0
      → g.server.records ≡ listening ∷ clients
      → Distinct (listening ∷ clients)
      → length (listening ∷ clients) < 2 ^ 31
      → All (Speaks round.ready said) clients
      → Served round.ready said listening clients g (main_round ops sys prev round g)
  unfolding serial_half
  round_heard round said listening clients g quiet e apart few speaks =
      let no_news : (round.serial_revents == 0) ≡ true = ground (arith, quiet) in
      round_from round said listening clients g g (rw (serial_half, no_news) refl) e e apart few
        speaks

  -- In a round of the main loop in which a light's answer about its state, level, hue or saturation
  -- comes from the chip and the clients speak about lights, every client is told the answer first,
  -- once and in the order of the list, and then the clients have their turns as in a round with a
  -- quiet serial port: their messages reach the chip in order, the clients that hang up are closed
  -- and taken from the list, and a new connection is the last. Conditions: the answer comes in
  -- whatever pieces, with at most five failed reads, in a message with a length byte below 252 and
  -- a sixteen-bit network address; every write to a client succeeds; and for the sockets and the
  -- messages of the clients those of a round with a quiet serial port.
  pub round_answered :
      (stack : Stack) (junk : Bytes) (ready : ℤ → Ready) (revents : ℕ) (a : Attribute)
      (value nwk endpoint seq : ℕ) (rest : Bytes) (len : ℕ) (rs : List ReadResult)
      (said : ℤ → List Message) (listening : ℤ) (clients : List ℤ) (g : Gateway L)
      → (revents == 0) ≡ false
      → IsWord nwk
      → brought rs ≡ render (attribute a value nwk endpoint seq) rest
      → length (brought rs) ≡ len + 3
      → len < 252
      → failures rs ≤ 5
      → g.server.records ≡ listening ∷ clients
      → All (Works sys.write_result) clients
      → Distinct (listening ∷ clients)
      → length (listening ∷ clients) < 2 ^ 31
      → All (Speaks ready said) clients
      → Served ready said listening clients
          (record g { server = told_all (answer a value nwk endpoint) clients g.server })
          (main_round ops sys prev
            (record {
              serial_revents = revents;
              stack = stack;
              junk = junk;
              serial_reads = got (0xFE ∷ []) ∷ got (len ∷ []) ∷ rs;
              ready = ready;
            })
            g)
  unfolding serial_half
  round_answered stack junk ready revents a value nwk endpoint seq rest len rs said listening
        clients g news w b t s f e works apart few speaks =
      let round : Round = record {
        serial_revents = revents;
        stack = stack;
        junk = junk;
        serial_reads = got (0xFE ∷ []) ∷ got (len ∷ []) ∷ rs;
        ready = ready;
      } in
      round_from round said listening clients g
        (record g { server = told_all (answer a value nwk endpoint) clients g.server })
        (rw (serial_half, news)
          (answered ops sys prev (suc (length (ops.devices g.lists).0)) stack junk a value nwk
            endpoint seq rest len rs listening clients g w b t s f e works))
        e e apart few speaks
