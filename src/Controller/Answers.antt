-- ===== src/Controller/Answers.antt =====
-- The answer of a light on its way from the serial port to the clients.
use lighting_gateway.Prelude.{
  ℕ, ◌++◌, ◌+◌, ◌<◌, ◌∙◌, ◌∷◌, ◌≡◌, ◌≤◌, All, List, [], ap, length, some,
}
use lighting_gateway.Prelude.Int.{ℤ}
use lighting_gateway.Prelude.Reading.{Bytes}
use lighting_gateway.Lists.{Lists}
use lighting_gateway.Sockets.{Server, socket_sever_send_allclients}
use lighting_gateway.Sockets.Broadcast.{Works, to_each, send_allclients_done}
use lighting_gateway.Soc.Wire.{word}
use lighting_gateway.Soc.Rpc.{Stack}
use lighting_gateway.Soc.Rpc.Receive.{ReadResult, got, handled}
use lighting_gateway.Soc.Rpc.Receive.Reads.{brought, failures}
use lighting_gateway.Soc.Rpc.Report.{
  Attribute, attribute, render, due, on_off, level, hue, saturation,
}
use lighting_gateway.Soc.Rpc.Report.Delivery.{received_report}
use lighting_gateway.Soc.Wire.RoundTrip.{IsWord}
use lighting_gateway.Srpc.{System, Gateway, srpc_send_all, with_server}
use lighting_gateway.Srpc.Reply.{
  srpc_call_back_get_state_rsp, srpc_call_back_get_level_rsp, srpc_call_back_get_hue_rsp,
  srpc_call_back_get_sat_rsp,
}
use lighting_gateway.Controller.{zb_soc_cbs, on_event, serial_round, serial_round_of}

abbrev pub reply_id : Attribute → ℕ
reply_id on_off = 0x07
reply_id level = 0x08
reply_id hue = 0x09
reply_id saturation = 0x0A

-- The message that tells a client the value of an attribute.
abbrev pub answer : Attribute → ℕ → ℕ → ℕ → Bytes
answer a value nwk endpoint = reply_id a ∷ 4 ∷ word nwk (endpoint ∷ value ∷ [])

-- Each client has the message.
abbrev pub told_all : Bytes → List ℤ → Server → Server
told_all msg clients s = record s { written = s.written ++ to_each msg clients }

module _ {L : Type 0} (ops : Lists L) (sys : System) (prev : ℕ) where
  srpc_send_all_lem :
      (msg : Bytes) (listening : ℤ) (clients : List ℤ) (g : Gateway L)
      → g.server.records ≡ listening ∷ clients
      → All (Works sys.write_result) clients
      → with_server g (socket_sever_send_allclients sys.write_result msg g.server)
        ≡ some (record g { server = told_all msg clients g.server })
  srpc_send_all_lem msg listening clients g e h =
      ap (with_server g) (send_allclients_done sys.write_result msg g.server listening clients e h)

  on_event-answer :
      (fuel : ℕ) (stack : Stack) (a : Attribute) (value nwk endpoint seq : ℕ) (listening : ℤ)
      (clients : List ℤ) (g : Gateway L)
      → g.server.records ≡ listening ∷ clients
      → All (Works sys.write_result) clients
      → serial_round_of ops sys prev fuel g
          (handled (some (due zb_soc_cbs stack (attribute a value nwk endpoint seq))))
        ≡ some (record g { server = told_all (answer a value nwk endpoint) clients g.server })
  unfolding serial_round_of on_event due srpc_send_all srpc_call_back_get_state_rsp
      srpc_call_back_get_level_rsp srpc_call_back_get_hue_rsp srpc_call_back_get_sat_rsp
  on_event-answer fuel stack on_off value nwk endpoint seq listening clients g e h =
      srpc_send_all_lem (answer on_off value nwk endpoint) listening clients g e h
  on_event-answer fuel stack level value nwk endpoint seq listening clients g e h =
      srpc_send_all_lem (answer level value nwk endpoint) listening clients g e h
  on_event-answer fuel stack hue value nwk endpoint seq listening clients g e h =
      srpc_send_all_lem (answer hue value nwk endpoint) listening clients g e h
  on_event-answer fuel stack saturation value nwk endpoint seq listening clients g e h =
      srpc_send_all_lem (answer saturation value nwk endpoint) listening clients g e h

  -- If a light's answer to a read of its state, level, hue or saturation comes from the chip, in
  -- whatever pieces and with at most five failed reads, in a message with a length byte below 252
  -- and a sixteen-bit network address, and every write to a client succeeds, then every client gets
  -- the message with that attribute's number, the address, the endpoint and the value, once and in
  -- the order of the list, and nothing else changes.
  pub answered :
      (fuel : ℕ) (stack : Stack) (junk : Bytes) (a : Attribute) (value nwk endpoint seq : ℕ)
      (rest : Bytes) (len : ℕ) (rs : List ReadResult) (listening : ℤ) (clients : List ℤ)
      (g : Gateway L)
      → IsWord nwk
      → brought rs ≡ render (attribute a value nwk endpoint seq) rest
      → length (brought rs) ≡ len + 3
      → len < 252
      → failures rs ≤ 5
      → g.server.records ≡ listening ∷ clients
      → All (Works sys.write_result) clients
      → serial_round ops sys prev fuel stack junk (got (0xFE ∷ []) ∷ got (len ∷ []) ∷ rs) g
        ≡ some (record g { server = told_all (answer a value nwk endpoint) clients g.server })
  unfolding serial_round
  answered fuel stack junk a value nwk endpoint seq rest len rs listening clients g w b t s f e h =
      ap (serial_round_of ops sys prev fuel g) (
        received_report zb_soc_cbs stack junk (attribute a value nwk endpoint seq) rest len rs w b t
          s f)
      ∙ on_event-answer fuel stack a value nwk endpoint seq listening clients g e h
