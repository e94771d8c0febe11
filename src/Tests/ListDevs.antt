-- ===== src/Tests/ListDevs.antt =====
-- The message about a lamp, received by the client that lists the devices.
use lighting_gateway.Prelude.{◌∷◌, ◌≡◌, [], arith, false, none, refl, some}
use lighting_gateway.Endpoint.{EpInfoExtended, type_new}
use lighting_gateway.Srpc.Incoming.Stream.{Frame, frame_bytes}
use lighting_gateway.Srpc.Reply.{srpc_parse_ep_info}
use lighting_gateway.SocketClient.{
  nodes, woken, free, SocketClient, receives, rx_goes_on, started, handler_goes_on, step,
  receive_step, rx_step, handler_step, polling, receive, receive_header, receive_rest,
}
use lighting_gateway.SocketClient.Interleaving.{
  Reach, here, run, run-IsReached, IsPrompt, brings, poll_of,
}
use lighting_gateway.SocketClient.Progress.{IsOfHandler}
use lighting_gateway.ListDevs.Listing.{device_messages, print_all, lines_of, listed_lem}
use lighting_gateway.Tests.Srpc.{device, system}

abbrev news : EpInfoExtended
news = record { ep_info = device; prev_nwk_addr = 0xFFFF; type = type_new }

abbrev message : Frame
message = record {
  function_id = 0x01;
  payload =
      0x34 ∷ 0x12 ∷ 11 ∷ 0x5E ∷ 0xC0 ∷ 0 ∷ 1 ∷ 2 ∷ 2 ∷ 0x4C ∷ 0x31 ∷ 0 ∷ 1 ∷ 2 ∷ 3 ∷ 4 ∷ 5 ∷ 6 ∷ 7
      ∷ 8 ∷ type_new ∷ 0xFF ∷ 0xFF ∷ 0 ∷ [];
}

made : device_messages system (news ∷ []) ≡ some (frame_bytes message ∷ [])
unfolding srpc_parse_ep_info
made = refl

abbrev handed_over : SocketClient
handed_over = record {
  rx_buf = [];
  rx_proc_buf = nodes (frame_bytes message ∷ []);
  client_rx_mutex = free;
  socket_buf = frame_bytes message;
  n = some 24;
  rx = polling;
  handler = woken;
  handled = [];
  fault = false;
}

reached : Reach IsPrompt (started [] none) (frame_bytes message ∷ []) handed_over
unfolding run step receive_step rx_step handler_step receive receive_header receive_rest
reached =
    run-IsReached IsPrompt (started [] none) []
      (handler_goes_on
        ∷ handler_goes_on
        ∷ receives (poll_of message)
        ∷ rx_goes_on
        ∷ rx_goes_on
        ∷ rx_goes_on
        ∷ [])
      (some (started [] none)) here
      (tt, (tt, (brings message (omega arith), (refl, (tt, (tt, tt))))))

listed_example :
    (d : SocketClient) × Reach IsOfHandler handed_over [] d
    × (print_all d.handled ≡ some (lines_of (news ∷ [])))
listed_example =
    listed_lem system [] none (news ∷ []) (frame_bytes message ∷ []) handed_over
      ((((refl, omega arith), omega arith, omega arith, omega arith, omega arith), omega arith), tt)
      made reached refl refl
