-- ===== src/Tests/SocketClient.antt =====
-- A client that receives two messages, handed over one after the other.
use mathlib.Core.List.{Sublist}
use lighting_gateway.Prelude.{◌∷◌, ◌≡◌, List, [], arith, false, none, refl, some, true}
use lighting_gateway.Prelude.Reading.{Bytes}
use lighting_gateway.Srpc.Incoming.Stream.{Frame, frame_bytes}
use lighting_gateway.SocketClient.{
  nodes, woken, free, SocketClient, receives, rx_goes_on, started, handler_goes_on, step,
  receive_step, rx_step, handler_step, polling, Action, receive, receive_header, receive_rest,
  by_handler, handling, wakes, signalling,
}
use lighting_gateway.SocketClient.Interleaving.{
  Reach, here, run, run-IsReached, IsPrompt, poll_of, IsSignalled, brings,
}
use lighting_gateway.SocketClient.Delivery.{IsOrdered, delivered_lem}
use lighting_gateway.SocketClient.Exclusion.{IsExclusive, IsOfWhole, reached-IsExclusive}
use lighting_gateway.SocketClient.Progress.{HandlesAll, handles_all}
use lighting_gateway.SocketClient.Unfaulted.{handled_in_order}
use lighting_gateway.SocketClient.Race.{messages_race}

abbrev first : Frame
first = record { function_id = 0x08; payload = 0x34 ∷ 0x12 ∷ 11 ∷ 128 ∷ [] }

abbrev second : Frame
second = record { function_id = 0x07; payload = 0x34 ∷ 0x12 ∷ 11 ∷ 1 ∷ [] }

-- The first message is handled, the second was handed over.
abbrev steps : List Action
steps =
    handler_goes_on
    ∷ handler_goes_on
    ∷ receives (poll_of first)
    ∷ rx_goes_on
    ∷ rx_goes_on
    ∷ rx_goes_on
    ∷ handler_goes_on
    ∷ handler_goes_on
    ∷ handler_goes_on
    ∷ handler_goes_on
    ∷ receives (poll_of second)
    ∷ rx_goes_on
    ∷ rx_goes_on
    ∷ rx_goes_on
    ∷ []

abbrev messages : List Bytes
messages = frame_bytes first ∷ frame_bytes second ∷ []

abbrev handed_over : SocketClient
handed_over = record {
  rx_buf = [];
  rx_proc_buf = nodes (frame_bytes second ∷ []);
  client_rx_mutex = free;
  socket_buf = frame_bytes second;
  n = some 4;
  rx = polling;
  handler = woken;
  handled = frame_bytes first ∷ [];
  fault = false;
}

reached : Reach IsPrompt (started [] none) messages handed_over
unfolding run step receive_step rx_step handler_step receive receive_header receive_rest
reached = run-IsReached IsPrompt (started [] none) [] steps (some (started [] none)) here (
  tt,
  (
    tt,
    (
      brings first (omega arith),
      (
        refl,
        (tt, (tt, (tt, (tt, (tt, (tt, (brings second (omega arith), (refl, (tt, (tt, tt)))))))))),
      ),
    ),
  ),
)

delivered_example : IsOrdered messages handed_over
delivered_example = delivered_lem [] none reached

handles_all_example : HandlesAll handed_over messages
handles_all_example = handles_all [] none reached refl refl

-- The wait has returned without a signal, and the handler walks through an empty list.
abbrev walking : SocketClient
walking = record (started [] none) { client_rx_mutex = by_handler; handler = handling [] }

reached_walking : Reach IsOfWhole (started [] none) [] walking
unfolding run step handler_step
reached_walking =
    run-IsReached IsOfWhole (started [] none) []
      (handler_goes_on ∷ handler_goes_on ∷ wakes ∷ handler_goes_on ∷ []) (some (started [] none))
      here (tt, (tt, (tt, (tt, tt))))

mutex_example : IsExclusive walking
mutex_example = reached-IsExclusive [] none reached_walking

race_example :
    (c : SocketClient) × Reach IsSignalled (started [] none) messages c
    × (c.handled ≡ frame_bytes second ∷ [])
    × (c.rx_buf ≡ [])
    × (c.fault ≡ true)
race_example = messages_race [] none first second (omega arith) (omega arith)

-- The first list was overwritten before it was taken.
abbrev overwritten : SocketClient
overwritten = record handed_over { rx = signalling false; handled = [] }

reached_overwritten : Reach IsOfWhole (started [] none) messages overwritten
unfolding run step receive_step rx_step handler_step receive receive_header receive_rest
reached_overwritten =
    run-IsReached IsOfWhole (started [] none) []
      (handler_goes_on
        ∷ handler_goes_on
        ∷ receives (poll_of first)
        ∷ rx_goes_on
        ∷ rx_goes_on
        ∷ rx_goes_on
        ∷ receives (poll_of second)
        ∷ rx_goes_on
        ∷ rx_goes_on
        ∷ [])
      (some (started [] none)) here
      (
        tt,
        (
          tt,
          (
            brings first (omega arith),
            (tt, (tt, (tt, (brings second (omega arith), (tt, (tt, tt)))))),
          ),
        ),
      )

in_order_example : Sublist (frame_bytes second ∷ []) messages
in_order_example = handled_in_order [] none reached_overwritten refl
