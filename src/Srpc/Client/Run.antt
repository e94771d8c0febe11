-- ===== src/Srpc/Client/Run.antt =====
-- A run of messages about lights from one client, from the bytes on its socket to the serial line.
use mathlib.Core.List.{map}
use lighting_gateway.Prelude.{
  ◌++◌, ◌-◌, ◌∙◌, ◌∷◌, ◌≡◌, All, All-append, List, [], ap, append_assoc, arith, concat, length,
  length-append, refl, replicate, some, sym, take, take-append,
}
use lighting_gateway.Prelude.Int.{ℤ, pos}
use lighting_gateway.Prelude.Reading.{Bytes}
use lighting_gateway.Lists.{Lists}
use lighting_gateway.Soc.Api.{Call, perform}
use lighting_gateway.Soc.Api.Heard.{perform_all, requests_all, decode_many, InRange, heard_run}
use lighting_gateway.Soc.Api.Sending.{line}
use lighting_gateway.Soc.Wire.{word}
use lighting_gateway.Soc.Port.{Soc}
use lighting_gateway.Srpc.{System, Gateway}
use lighting_gateway.Sockets.{idle}
use lighting_gateway.Srpc.Incoming.{after, rx_loop, srpc_process_incoming}
use lighting_gateway.Srpc.Incoming.Stream.{
  Frame, padded, IsShort, frame_bytes, reads, handle_all, rx_loop_lem,
}
use lighting_gateway.Srpc.Client.{
  Message, render, message_id, payload, light, connect, join, switch, dim, color, ask_state,
  ask_level, ask_hue, ask_saturation, show, calls,
}
use lighting_gateway.Srpc.Client.Obeyed.{Fits, obeyed, All-calls-InRange}

abbrev pub frame_of : Message → Frame
frame_of m = record { function_id = message_id m; payload = payload m [] }

payload-append : (m : Message) (rest : Bytes) → payload m [] ++ rest ≡ payload m rest
payload-append (light (switch state) a) rest = refl
payload-append (light (dim level time) a) rest = refl
payload-append (light (color hue sat time) a) rest = refl
payload-append (light ask_state a) rest = refl
payload-append (light ask_level a) rest = refl
payload-append (light ask_hue a) rest = refl
payload-append (light ask_saturation a) rest = refl
payload-append (light (show time) a) rest = refl
payload-append (connect src src_ep src_ieee dst_ep dst_ieee cluster) rest =
    let tail = dst_ep ∷ (dst_ieee ++ word cluster []) in
    ap (λ l. word src (src_ep ∷ l))
      (append_assoc src_ieee tail rest
        ∙ ap (λ l. src_ieee ++ dst_ep ∷ l) (append_assoc dst_ieee (word cluster []) rest))
payload-append (join duration magic) rest = refl

frame_of-IsShort : (m : Message) → Fits m → IsShort (frame_of m)
frame_of-IsShort (light (switch state) a) h = omega arith
frame_of-IsShort (light (dim level time) a) h = omega arith
frame_of-IsShort (light (color hue sat time) a) h = omega arith
frame_of-IsShort (light ask_state a) h = omega arith
frame_of-IsShort (light ask_level a) h = omega arith
frame_of-IsShort (light ask_hue a) h = omega arith
frame_of-IsShort (light ask_saturation a) h = omega arith
frame_of-IsShort (light (show time) a) h = omega arith
frame_of-IsShort (connect src src_ep src_ieee dst_ep dst_ieee cluster) h = omega (
  arith,
  length-append src_ieee (dst_ep ∷ (dst_ieee ++ word cluster [])),
  length-append dst_ieee (word cluster []),
)
frame_of-IsShort (join duration magic) h = omega arith

padded_lem :
    (m : Message)
    → Fits m
    → padded (frame_of m) ≡ render m (take (254 - length (payload m [])) (replicate 256 0))
unfolding render
padded_lem m h =
    ap (λ l. message_id m ∷ length (payload m []) ∷ l)
      (take-append 254 (payload m []) (replicate 256 0) (omega (arith, frame_of-IsShort m h))
        ∙ payload-append m _)

pub All-frame_of-IsShort : (ms : List Message) → All Fits ms → All IsShort (map frame_of ms)
All-frame_of-IsShort [] h = tt
All-frame_of-IsShort (m ∷ ms) h = (frame_of-IsShort m h.0, All-frame_of-IsShort ms h.1)

pub perform_all-append :
    (a b : List Call) (s : Soc) → perform_all (a ++ b) s ≡ perform_all b (perform_all a s)
perform_all-append [] b s = refl
perform_all-append (c ∷ a) b s = perform_all-append a b (perform c s)

pub All-concat-InRange : (ms : List Message) → All Fits ms → All InRange (concat (map calls ms))
All-concat-InRange [] h = tt
All-concat-InRange (m ∷ ms) h =
    All-append InRange (calls m) (concat (map calls ms)) (All-calls-InRange m h.0)
      (All-concat-InRange ms h.1)

module _ {L : Type 0} (ops : Lists L) (sys : System) (fd : ℤ) where
  pub handled_run :
      (ms : List Message) (g : Gateway L)
      → All Fits ms
      → handle_all ops sys fd (map frame_of ms) g
        ≡ some (idle (record g { soc = perform_all (concat (map calls ms)) g.soc }))
  unfolding handle_all after
  handled_run [] g h = refl
  handled_run (m ∷ ms) g h =
      let g' = record g { soc = perform_all (calls m) g.soc } in
      ap (λ r. after r (handle_all ops sys fd (map frame_of ms)))
        (ap (λ b. srpc_process_incoming ops sys fd b g) (padded_lem m h.0)
          ∙ obeyed ops sys fd m _ g h.0)
      ∙ handled_run ms g' h.1
      ∙ ap (λ s. some (idle (record g { soc = s })))
          (sym (perform_all-append (calls m) (concat (map calls ms)) g.soc))

  -- For a run of whole messages about lights on a client's socket (switch, dim, color, questions
  -- for the four attributes, identify, bind, permission to join), with sixteen-bit numbers where
  -- the message has two bytes and IEEE addresses of eight, the receiving loop ends with nothing
  -- left to read, and the bytes added to the serial line decode to exactly the requests that the
  -- messages stand for, in their order; permission to join is passed on only with the right
  -- authorisation number.
  pub run_heard :
      (ms : List Message) (g : Gateway L)
      → All Fits ms
      → (g' : Gateway L) × (sent : Bytes) × (rx_loop ops sys fd
            (map reads (map frame_of ms))
            (pos (length (concat (map frame_bytes (map frame_of ms)))))
            g
          ≡ some (idle g'))
        × (line g'.soc ≡ line g.soc ++ sent)
        × (decode_many (length (requests_all (concat (map calls ms)) g.soc.trans_seq_number)) sent
            ≡ some (requests_all (concat (map calls ms)) g.soc.trans_seq_number))
  run_heard ms g h =
      let (sent, on_line, read) =
        heard_run (concat (map calls ms)) g.soc (All-concat-InRange ms h) in
      (
        _,
        sent,
        rx_loop_lem ops sys fd (map frame_of ms) g (All-frame_of-IsShort ms h) ∙ handled_run ms g h,
        on_line,
        read,
      )
