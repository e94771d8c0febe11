-- ===== src/SocketClient/Race.antt =====
-- What happens when a list is handed over before the one before it was handled.
use lighting_gateway.Prelude.{ℕ, ◌∷◌, ◌≡◌, ◌≤◌, Option, [], ap, length, refl, some, true}
use lighting_gateway.Prelude.Reading.{Bytes}
use lighting_gateway.Srpc.Incoming.Stream.{Frame, frame_bytes}
use lighting_gateway.SocketClient.{
  nodes, by_handler, woken, handling, freed, SocketClient, receives, rx_goes_on, started, goes_on,
  handler_goes_on, step, receive_step, rx_step, handler_step, polling, after_receive, RxAt, locking,
  moving, signalling, stopped, waiting,
}
use lighting_gateway.SocketClient.Interleaving.{
  Reach, here, run, run-IsReached, next, IsSignalled, brings, poll_of, with_message,
  receive-poll_of,
}

receive_step-poll_of :
    (f : Frame) (r : RxAt) (c : SocketClient)
    → length f.payload ≤ 128
    → r ≡ polling
    → receive_step (poll_of f) r c ≡ some (after_receive (goes_on, with_message f c))
unfolding receive_step
receive_step-poll_of f polling c h e = ap (λ r. some (after_receive r)) (receive-poll_of f c h)
receive_step-poll_of f (locking done) c h e = cc
receive_step-poll_of f (moving done) c h e = cc
receive_step-poll_of f (signalling done) c h e = cc
receive_step-poll_of f stopped c h e = cc

step-receives :
    (f : Frame) (c : SocketClient)
    → length f.payload ≤ 128
    → c.rx ≡ polling
    → step (receives (poll_of f)) c ≡ some (after_receive (goes_on, with_message f c))
unfolding step
step-receives f c h e = receive_step-poll_of f c.rx c h e

-- For any two messages of at most 128 bytes there is an order of the steps, without waits that
-- return without a signal, in which both are received and handed over, the callback is called with
-- the second only, and the handling thread then walks through freed memory.
pub messages_race :
    (socket_buf : Bytes) (n : Option ℕ) (f g : Frame)
    → length f.payload ≤ 128
    → length g.payload ≤ 128
    → (c : SocketClient) × Reach IsSignalled
        (started socket_buf n)
        (frame_bytes f ∷ frame_bytes g ∷ [])
        c
      × (c.handled ≡ frame_bytes g ∷ [])
      × (c.rx_buf ≡ [])
      × (c.fault ≡ true)
unfolding run rx_step handler_step
messages_race socket_buf n f g hf hg =
    let s = started socket_buf n in
    let c1 : SocketClient = record s { handler = waiting } in
    let r1 : Reach IsSignalled s [] c1 =
      run-IsReached IsSignalled s [] (handler_goes_on ∷ handler_goes_on ∷ []) (some s) here
        (tt, (tt, tt)) in
    let c2 = after_receive (goes_on, with_message f c1) in
    let r2 : Reach IsSignalled s (frame_bytes f ∷ []) c2 =
      next (receives (poll_of f)) r1 (brings f hf) (step-receives f c1 hf refl) in
    let c3 : SocketClient = record c2 {
      rx_proc_buf = nodes (frame_bytes f ∷ []);
      rx_buf = [];
      rx = polling;
      handler = woken;
    } in
    let r3 : Reach IsSignalled s (frame_bytes f ∷ []) c3 =
      run-IsReached IsSignalled s (frame_bytes f ∷ []) (rx_goes_on ∷ rx_goes_on ∷ rx_goes_on ∷ [])
        (some c2) r2 (tt, (tt, (tt, tt))) in
    let c4 = after_receive (goes_on, with_message g c3) in
    let both = frame_bytes f ∷ frame_bytes g ∷ [] in
    let r4 : Reach IsSignalled s both c4 =
      next (receives (poll_of g)) r3 (brings g hg) (step-receives g c3 hg refl) in
    let c5 : SocketClient = record c4 {
      client_rx_mutex = by_handler;
      rx_proc_buf = freed;
      rx_buf = [];
      rx = polling;
      handler = handling [];
      handled = frame_bytes g ∷ [];
      fault = true;
    } in
    let r5 : Reach IsSignalled s both c5 =
      run-IsReached IsSignalled s both
        (rx_goes_on ∷ rx_goes_on ∷ handler_goes_on ∷ handler_goes_on ∷ handler_goes_on
          ∷ handler_goes_on ∷ rx_goes_on ∷ handler_goes_on ∷ [])
        (some c4) r4 (tt, (tt, (tt, (tt, (tt, (tt, (tt, (tt, tt)))))))) in
    (c5, r5, refl, refl, refl)
