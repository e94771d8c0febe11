-- ===== src/SocketClient/Unfaulted.antt =====
-- In every order of the steps, as long as nothing was faulty: what the callback has got.
use mathlib.Core.List.{Sublist, nil-sublist}
use mathlib.Core.List.Sublist
use lighting_gateway.Prelude.{
  ℕ, ◌++◌, ◌∙◌, ◌∷◌, ◌≡◌, Bool, List, Option, [], append-nil, append_assoc, false, none, refl, some,
}
use lighting_gateway.Prelude.Reading.{Bytes}
use lighting_gateway.Srpc.Incoming.Stream.{frame_bytes}
use lighting_gateway.SocketClient.{
  SocketClient, Pointer, nodes, freed, Owner, free, by_rx, by_handler, Poll, receives, HandlerAt,
  starting, before_wait, woken, handling, receive, receive_step, rx_step, handler_step, wake_step,
  RxAt, polling, locking, moving, signalling, stopped, waiting, signalled, next_round, Action, step,
  started, rx_goes_on, handler_goes_on, wakes,
}
use lighting_gateway.SocketClient.Interleaving.{
  state_of, IsWhole, error, quiet, brings, brought, Reach, here, next, receive-poll_of,
}
use lighting_gateway.SocketClient.Delivery.{nodes_of, pending, in_flight}
use lighting_gateway.SocketClient.Exclusion.{
  handler_holds, IsExclusive, IsOfWhole, reached-IsExclusive, alone,
}

-- At the end of a list nothing is left behind the pointer.
abbrev pub IsSettled : HandlerAt → Pointer → Type 0
IsSettled starting p = Unit
IsSettled before_wait p = Unit
IsSettled waiting p = Unit
IsSettled woken p = Unit
IsSettled (handling []) p = nodes_of p ≡ []
IsSettled (handling (m ∷ ms)) p = Unit

abbrev pub IsInOrder : List Bytes → SocketClient → Type 0
IsInOrder ms c =
    c.fault ≡ false
    → IsSettled c.handler c.rx_proc_buf
      × Sublist (c.handled ++ (pending c.handler c.rx_proc_buf ++ c.rx_buf)) ms

abbrev StaysInOrder : List Bytes → Option SocketClient → Type 0
StaysInOrder ms none = Unit
StaysInOrder ms (some c) = IsInOrder ms c

IsSettled-freed : (ms : List Bytes) → IsSettled (handling ms) freed
IsSettled-freed [] = refl
IsSettled-freed (m ∷ ms) = tt

IsSettled-nodes : (ms : List Bytes) → IsSettled (handling ms) (nodes ms)
IsSettled-nodes [] = refl
IsSettled-nodes (m ∷ ms) = tt

-- A list that was not taken is lost.
Sublist-lost :
    (hd l rest ms : List Bytes) → Sublist (hd ++ (l ++ rest)) ms → Sublist (hd ++ rest) ms
Sublist-lost hd l rest ms s =
    Sublist.trans
      (Sublist.append (Sublist.refl hd) (Sublist.append (nil-sublist l) (Sublist.refl rest))) s

module _ (ms rx_buf handled : List Bytes) (socket_buf : Bytes) (n : Option ℕ) (fault : Bool) where
  abbrev at : Pointer → Owner → RxAt → HandlerAt → SocketClient
  at = state_of rx_buf handled socket_buf n fault

  handler_step-IsInOrder :
      (h : HandlerAt) (owner : Owner) (p : Pointer) (r : RxAt)
      → IsInOrder ms (at p owner r h)
      → StaysInOrder ms (handler_step h owner (at p owner r h))
  unfolding handler_step
  handler_step-IsInOrder starting free p r o = o
  handler_step-IsInOrder starting by_rx p r o = tt
  handler_step-IsInOrder starting by_handler p r o = tt
  handler_step-IsInOrder before_wait owner p r o = o
  handler_step-IsInOrder waiting owner p r o = tt
  handler_step-IsInOrder woken free (nodes l) r o = λ f. (IsSettled-nodes l, (o f).1)
  handler_step-IsInOrder woken free freed r o = λ f. cc
  handler_step-IsInOrder woken by_rx p r o = tt
  handler_step-IsInOrder woken by_handler p r o = tt
  handler_step-IsInOrder (handling []) owner p r o = λ f. (let (empty, s) = o f in (tt, rw empty s))
  handler_step-IsInOrder (handling (m ∷ l)) owner p r o =
      λ f. (IsSettled-freed l, rw (append_assoc handled (m ∷ []) (l ++ rx_buf)) ((o f).1))

  signalled-IsInOrder :
      (h : HandlerAt) (p : Pointer) (owner owner' : Owner) (r r' : RxAt)
      → IsInOrder ms (at p owner r h)
      → IsInOrder ms (at p owner' r' (signalled h))
  signalled-IsInOrder starting p owner owner' r r' o = o
  signalled-IsInOrder before_wait p owner owner' r r' o = o
  signalled-IsInOrder waiting p owner owner' r r' o = o
  signalled-IsInOrder woken p owner owner' r r' o = o
  signalled-IsInOrder (handling l) p owner owner' r r' o = o

  -- The list is moved while the other thread does not handle one.
  moved-IsInOrder :
      (h : HandlerAt) (p : Pointer)
      → handler_holds h ≡ false
      → IsSettled h p × Sublist (handled ++ (pending h p ++ rx_buf)) ms
      → IsSettled h (nodes rx_buf) × Sublist (handled ++ (pending h (nodes rx_buf) ++ [])) ms
  moved-IsInOrder starting p b (e, s) =
      (tt, rw (append-nil rx_buf) (Sublist-lost handled (nodes_of p) rx_buf ms s))
  moved-IsInOrder before_wait p b (e, s) = cc
  moved-IsInOrder waiting p b (e, s) =
      (tt, rw (append-nil rx_buf) (Sublist-lost handled (nodes_of p) rx_buf ms s))
  moved-IsInOrder woken p b (e, s) =
      (tt, rw (append-nil rx_buf) (Sublist-lost handled (nodes_of p) rx_buf ms s))
  moved-IsInOrder (handling l) p b (e, s) = cc

  rx_step-IsInOrder :
      (r : RxAt) (owner : Owner) (p : Pointer) (h : HandlerAt)
      → IsExclusive (at p owner r h)
      → IsInOrder ms (at p owner r h)
      → StaysInOrder ms (rx_step r owner (at p owner r h))
  unfolding rx_step
  rx_step-IsInOrder polling owner p h x o = tt
  rx_step-IsInOrder (locking done) free p h x o = o
  rx_step-IsInOrder (locking done) by_rx p h x o = tt
  rx_step-IsInOrder (locking done) by_handler p h x o = tt
  rx_step-IsInOrder (moving done) owner p h (rx, hd) o =
      λ f. moved-IsInOrder h p (hd ∙ alone owner rx) (o f)
  rx_step-IsInOrder (signalling done) owner p h x o =
      signalled-IsInOrder h p owner owner (signalling done) (next_round done) o
  rx_step-IsInOrder stopped owner p h x o = tt

  wake_step-IsInOrder :
      (h : HandlerAt) (owner : Owner) (p : Pointer) (r : RxAt)
      → IsInOrder ms (at p owner r h)
      → StaysInOrder ms (wake_step h (at p owner r h))
  wake_step-IsInOrder starting owner p r o = tt
  wake_step-IsInOrder before_wait owner p r o = tt
  wake_step-IsInOrder waiting owner p r o = o
  wake_step-IsInOrder woken owner p r o = tt
  wake_step-IsInOrder (handling l) owner p r o = tt

  receive_step-IsInOrder :
      (p : Poll) (r : RxAt) (q : Pointer) (owner : Owner) (h : HandlerAt)
      → IsWhole p
      → IsInOrder ms (at q owner r h)
      → StaysInOrder (ms ++ brought (receives p)) (receive_step p r (at q owner r h))
  unfolding receive_step receive
  receive_step-IsInOrder _ polling q owner h error o = λ f. rw (append-nil ms) (o f)
  receive_step-IsInOrder _ polling q owner h quiet o = λ f. rw (append-nil ms) (o f)
  receive_step-IsInOrder _ polling q owner h (brings m fits) o =
      let one = frame_bytes m ∷ [] in
      rw
        (
          receive-poll_of m (at q owner polling h) fits,
          ← append_assoc (pending h q) rx_buf one,
          ← append_assoc handled (pending h q ++ rx_buf) one,
        )
        (λ f. ((o f).0, Sublist.append ((o f).1) (Sublist.refl one)))
  receive_step-IsInOrder p (locking done) q owner h whole o = tt
  receive_step-IsInOrder p (moving done) q owner h whole o = tt
  receive_step-IsInOrder p (signalling done) q owner h whole o = tt
  receive_step-IsInOrder p stopped q owner h whole o = tt

step-IsInOrder :
    (ms : List Bytes) (a : Action) (c : SocketClient)
    → IsOfWhole a c
    → IsExclusive c
    → IsInOrder ms c
    → StaysInOrder (ms ++ brought a) (step a c)
unfolding step
step-IsInOrder ms (receives p) c q x o =
    receive_step-IsInOrder ms c.rx_buf c.handled c.socket_buf c.n c.fault p c.rx c.rx_proc_buf
      c.client_rx_mutex c.handler q o
step-IsInOrder ms rx_goes_on c q x o = rw (append-nil ms) (
    rx_step-IsInOrder ms c.rx_buf c.handled c.socket_buf c.n c.fault c.rx c.client_rx_mutex
      c.rx_proc_buf c.handler x o)
step-IsInOrder ms handler_goes_on c q x o = rw (append-nil ms) (
    handler_step-IsInOrder ms c.rx_buf c.handled c.socket_buf c.n c.fault c.handler
      c.client_rx_mutex c.rx_proc_buf c.rx o)
step-IsInOrder ms wakes c q x o = rw (append-nil ms) (
    wake_step-IsInOrder ms c.rx_buf c.handled c.socket_buf c.n c.fault c.handler c.client_rx_mutex
      c.rx_proc_buf c.rx o)

reached-IsInOrder :
    (socket_buf : Bytes) (n : Option ℕ) {ms : List Bytes} {c : SocketClient}
    → Reach IsOfWhole (started socket_buf n) ms c
    → IsInOrder ms c
reached-IsInOrder socket_buf n here = λ f. (tt, Sublist.refl [])
reached-IsInOrder socket_buf n (next a r q e) =
    rw e at (
      step-IsInOrder _ a _ q (reached-IsExclusive socket_buf n r)
        (reached-IsInOrder socket_buf n r))

-- In every order of the steps of a client's two threads, also with waits that return without a
-- signal, as long as nothing was faulty, the messages that the callback has been called with, and
-- those in flight behind them, are some of the messages that the rounds brought, in their order and
-- none twice; the rounds bring whole messages of at most 128 bytes each, or nothing.
pub handled_in_order :
    (socket_buf : Bytes) (n : Option ℕ) {ms : List Bytes} {c : SocketClient}
    → Reach IsOfWhole (started socket_buf n) ms c
    → c.fault ≡ false
    → Sublist (c.handled ++ in_flight c) ms
handled_in_order socket_buf n r f = (reached-IsInOrder socket_buf n r f).1
