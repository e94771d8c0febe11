-- ===== src/SocketClient/Delivery.antt =====
-- If every list is handled before the next is handed over, the callback gets every message once, in the
-- order in which they came.
use lighting_gateway.Prelude.{
  ℕ, ◌++◌, ◌∙◌, ◌∷◌, ◌≡◌, Bool, List, Option, [], ap, append-nil, append_assoc, false, none, refl,
  some, sym, true,
}
use lighting_gateway.Prelude.Reading.{Bytes}
use lighting_gateway.Srpc.Incoming.Stream.{frame_bytes}
use lighting_gateway.SocketClient.{
  SocketClient, Pointer, nodes, freed, Owner, free, by_rx, by_handler, Poll, receives, HandlerAt,
  starting, before_wait, woken, handling, receive_step, rx_step, handler_step, RxAt, polling,
  locking, moving, signalling, stopped, waiting, signalled, next_round, hand_over, receive,
  after_receive, Action, step, started, goes_on, rx_goes_on, handler_goes_on, wakes,
}
use lighting_gateway.SocketClient.Interleaving.{
  state_of, IsWhole, error, quiet, brings, brought, Reach, here, next, IsAwaited, IsPrompt,
  receive-poll_of,
}

abbrev pub nodes_of : Pointer → List Bytes
nodes_of (nodes ms) = ms
nodes_of freed = []

abbrev pub is_list : Pointer → Bool
is_list (nodes ms) = true
is_list freed = false

-- The messages that were handed over and not handled.
abbrev pub pending : HandlerAt → Pointer → List Bytes
pending starting p = nodes_of p
pending before_wait p = nodes_of p
pending waiting p = nodes_of p
pending woken p = nodes_of p
pending (handling ms) p = ms

-- While nothing is handed over, only a handler that was woken has a list to take.
abbrev pub IsCalm : HandlerAt → Pointer → Type 0
IsCalm starting p = nodes_of p ≡ []
IsCalm before_wait p = nodes_of p ≡ []
IsCalm waiting p = nodes_of p ≡ []
IsCalm woken p = is_list p ≡ true
IsCalm (handling []) p = nodes_of p ≡ []
IsCalm (handling (m ∷ ms)) p = Unit

abbrev pub IsTurn : RxAt → HandlerAt → Pointer → Type 0
IsTurn polling h p = IsCalm h p
IsTurn (locking done) h p = IsCalm h p
IsTurn (moving done) h p = (h ≡ waiting) × (nodes_of p ≡ [])
IsTurn (signalling done) h p = (h ≡ waiting) × (is_list p ≡ true)
IsTurn stopped h p = IsCalm h p

-- Everything in flight, in its order.
abbrev pub in_flight : SocketClient → List Bytes
in_flight c = pending c.handler c.rx_proc_buf ++ c.rx_buf

abbrev pub IsOrdered : List Bytes → SocketClient → Type 0
IsOrdered ms c =
    IsTurn c.rx c.handler c.rx_proc_buf × (c.handled ++ in_flight c ≡ ms) × (c.fault ≡ false)

abbrev StaysOrdered : List Bytes → Option SocketClient → Type 0
StaysOrdered ms none = Unit
StaysOrdered ms (some c) = IsOrdered ms c

abbrev is_waiting : HandlerAt → Bool
is_waiting starting = false
is_waiting before_wait = false
is_waiting waiting = true
is_waiting woken = false
is_waiting (handling ms) = false

-- A handler that does not wait is not in the middle of a hand-over.
IsTurn-busy :
    (r : RxAt) (h h' : HandlerAt) (p p' : Pointer)
    → IsTurn r h p
    → is_waiting h ≡ false
    → (IsCalm h p → IsCalm h' p')
    → IsTurn r h' p'
IsTurn-busy polling h h' p p' t b k = k t
IsTurn-busy (locking done) h h' p p' t b k = k t
IsTurn-busy (moving done) h h' p p' (t, _) b k = absurd (cc (ap is_waiting t, b))
IsTurn-busy (signalling done) h h' p p' (t, _) b k = absurd (cc (ap is_waiting t, b))
IsTurn-busy stopped h h' p p' t b k = k t

IsTurn-IsCalm :
    (r : RxAt) (h : HandlerAt) (p : Pointer) → IsTurn r h p → is_waiting h ≡ false → IsCalm h p
IsTurn-IsCalm polling h p t b = t
IsTurn-IsCalm (locking done) h p t b = t
IsTurn-IsCalm (moving done) h p (t, _) b = absurd (cc (ap is_waiting t, b))
IsTurn-IsCalm (signalling done) h p (t, _) b = absurd (cc (ap is_waiting t, b))
IsTurn-IsCalm stopped h p t b = t

IsCalm-freed : (ms : List Bytes) → IsCalm (handling ms) freed
IsCalm-freed [] = refl
IsCalm-freed (m ∷ ms) = tt

IsCalm-nodes : (ms : List Bytes) → IsCalm (handling ms) (nodes ms)
IsCalm-nodes [] = refl
IsCalm-nodes (m ∷ ms) = tt

module _ (ms rx_buf handled : List Bytes) (socket_buf : Bytes) (n : Option ℕ) (fault : Bool) where
  abbrev at : Pointer → Owner → RxAt → HandlerAt → SocketClient
  at = state_of rx_buf handled socket_buf n fault

  handler_step-IsOrdered :
      (h : HandlerAt) (owner : Owner) (p : Pointer) (r : RxAt)
      → IsOrdered ms (at p owner r h)
      → StaysOrdered ms (handler_step h owner (at p owner r h))
  unfolding handler_step
  handler_step-IsOrdered starting free p r (t, e, f) =
      (IsTurn-busy r starting before_wait p p t refl (λ k. k), e, f)
  handler_step-IsOrdered starting by_rx p r o = tt
  handler_step-IsOrdered starting by_handler p r o = tt
  handler_step-IsOrdered before_wait owner p r (t, e, f) =
      (IsTurn-busy r before_wait waiting p p t refl (λ k. k), e, f)
  handler_step-IsOrdered waiting owner p r o = tt
  handler_step-IsOrdered woken free (nodes l) r (t, e, f) =
      (IsTurn-busy r woken (handling l) (nodes l) (nodes l) t refl (λ k. IsCalm-nodes l), e, f)
  handler_step-IsOrdered woken free freed r (t, e, f) =
      absurd (cc (IsTurn-IsCalm r woken freed t refl))
  handler_step-IsOrdered woken by_rx p r o = tt
  handler_step-IsOrdered woken by_handler p r o = tt
  handler_step-IsOrdered (handling []) owner p r (t, e, f) = (
    IsTurn-busy r (handling []) before_wait p p t refl (λ k. k),
    rw (IsTurn-IsCalm r (handling []) p t refl) e,
    f,
  )
  handler_step-IsOrdered (handling (m ∷ l)) owner p r (t, e, f) = (
    IsTurn-busy r (handling (m ∷ l)) (handling l) p freed t refl (λ k. IsCalm-freed l),
    append_assoc handled (m ∷ []) (l ++ rx_buf) ∙ e,
    f,
  )

  next_round-IsTurn :
      (done : Bool) (h : HandlerAt) (p : Pointer) → IsCalm h p → IsTurn (next_round done) h p
  next_round-IsTurn true h p k = k
  next_round-IsTurn false h p k = k

  hand_over-IsTurn :
      (done : Bool) (l : List Bytes) (h : HandlerAt) (p : Pointer)
      → IsCalm h p
      → IsTurn (hand_over done l) h p
  hand_over-IsTurn done [] h p k = next_round-IsTurn done h p k
  hand_over-IsTurn done (m ∷ l) h p k = k

  rx_step-IsOrdered :
      (r : RxAt) (owner : Owner) (p : Pointer) (h : HandlerAt)
      → IsAwaited r (at p owner r h)
      → IsOrdered ms (at p owner r h)
      → StaysOrdered ms (rx_step r owner (at p owner r h))
  unfolding rx_step
  rx_step-IsOrdered polling owner p h w o = tt
  rx_step-IsOrdered (locking done) free p h w (t, e, f) = ((w, rw w at t), e, f)
  rx_step-IsOrdered (locking done) by_rx p h w o = tt
  rx_step-IsOrdered (locking done) by_handler p h w o = tt
  rx_step-IsOrdered (moving done) owner p h w ((wait, none_left), e, f) =
      ((wait, refl), rw (wait, append-nil rx_buf) (rw (wait, none_left) at e), f)
  rx_step-IsOrdered (signalling done) owner p h w ((wait, list), e, f) =
      (next_round-IsTurn done (signalled h) p (rw wait list), rw wait (rw wait at e), f)
  rx_step-IsOrdered stopped owner p h w o = tt

  received-IsOrdered :
      (q : Pointer) (owner : Owner) (h : HandlerAt)
      → IsOrdered ms (at q owner polling h)
      → IsOrdered (ms ++ []) (after_receive (goes_on, at q owner polling h))
  received-IsOrdered q owner h (t, e, f) =
      (hand_over-IsTurn false rx_buf h q t, e ∙ sym (append-nil ms), f)

  in_flight-message :
      (m : Bytes) (l : List Bytes)
      → handled ++ (l ++ rx_buf) ≡ ms
      → handled ++ (l ++ (rx_buf ++ m ∷ [])) ≡ ms ++ m ∷ []
  in_flight-message m l e =
      ap (λ r. handled ++ r) (sym (append_assoc l rx_buf (m ∷ [])))
      ∙ sym (append_assoc handled (l ++ rx_buf) (m ∷ []))
      ∙ ap (λ r. r ++ m ∷ []) e

  receive_step-IsOrdered :
      (p : Poll) (r : RxAt) (q : Pointer) (owner : Owner) (h : HandlerAt)
      → IsWhole p
      → IsOrdered ms (at q owner r h)
      → StaysOrdered (ms ++ brought (receives p)) (receive_step p r (at q owner r h))
  unfolding receive_step receive
  receive_step-IsOrdered _ polling q owner h error o = received-IsOrdered q owner h o
  receive_step-IsOrdered _ polling q owner h quiet o = received-IsOrdered q owner h o
  receive_step-IsOrdered _ polling q owner h (brings m fits) (t, e, f) =
      rw (receive-poll_of m (at q owner polling h) fits) (
        hand_over-IsTurn false (rx_buf ++ frame_bytes m ∷ []) h q t,
        in_flight-message (frame_bytes m) (pending h q) e,
        f,
      )
  receive_step-IsOrdered p (locking done) q owner h whole o = tt
  receive_step-IsOrdered p (moving done) q owner h whole o = tt
  receive_step-IsOrdered p (signalling done) q owner h whole o = tt
  receive_step-IsOrdered p stopped q owner h whole o = tt

step-IsOrdered :
    (ms : List Bytes) (a : Action) (c : SocketClient)
    → IsPrompt a c
    → IsOrdered ms c
    → StaysOrdered (ms ++ brought a) (step a c)
unfolding step
step-IsOrdered ms (receives p) c q o =
    receive_step-IsOrdered ms c.rx_buf c.handled c.socket_buf c.n c.fault p c.rx c.rx_proc_buf
      c.client_rx_mutex c.handler q o
step-IsOrdered ms rx_goes_on c q o = rw (append-nil ms) (
    rx_step-IsOrdered ms c.rx_buf c.handled c.socket_buf c.n c.fault c.rx c.client_rx_mutex
      c.rx_proc_buf c.handler q o)
step-IsOrdered ms handler_goes_on c q o = rw (append-nil ms) (
    handler_step-IsOrdered ms c.rx_buf c.handled c.socket_buf c.n c.fault c.handler
      c.client_rx_mutex c.rx_proc_buf c.rx o)
step-IsOrdered ms wakes c q o = absurd q

-- In a client whose lists are each handled before the next is handed over, the callback has been
-- called with the first of the messages that the rounds brought, in their order and each once, and
-- the others are in flight in that order; no freed memory is used, and the threads are in step.
-- Conditions: the rounds bring whole messages of at most 128 bytes each, or nothing, the receiving
-- thread takes the lock only while the other one waits, and the wait returns only after a signal.
pub delivered_lem :
    (socket_buf : Bytes) (n : Option ℕ) {ms : List Bytes} {c : SocketClient}
    → Reach IsPrompt (started socket_buf n) ms c
    → IsOrdered ms c
delivered_lem socket_buf n here = (refl, refl, refl)
delivered_lem socket_buf n (next a r q e) =
    rw e at (step-IsOrdered _ a _ q (delivered_lem socket_buf n r))
