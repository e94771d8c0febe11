-- ===== src/SocketClient/Exclusion.antt =====
-- The mutex of the two threads of a client: in every order of steps, at most one thread is between its lock
-- and its unlock.
use lighting_gateway.Prelude.{
  ℕ, ◌∙◌, ◌∷◌, ◌≡◌, Bool, List, Option, [], ap, false, none, refl, some, sym, true,
}
use lighting_gateway.Prelude.Reading.{Bytes}
use lighting_gateway.SocketClient.{
  SocketClient, Pointer, nodes, freed, Owner, free, by_rx, by_handler, Poll, Action, receives,
  rx_goes_on, HandlerAt, starting, before_wait, woken, handling, started, handler_goes_on, wakes,
  step, receive, receive_step, rx_step, handler_step, wake_step, walk, RxAt, polling, locking,
  moving, signalling, stopped, waiting, signalled, next_round, hand_over,
}
use lighting_gateway.SocketClient.Interleaving.{
  IsWhole, error, quiet, brings, Reach, here, next, with_message, receive-poll_of,
}

-- Between the lock and the unlock.
abbrev pub rx_holds : RxAt → Bool
rx_holds polling = false
rx_holds (locking done) = false
rx_holds (moving done) = true
rx_holds (signalling done) = false
rx_holds stopped = false

abbrev pub handler_holds : HandlerAt → Bool
handler_holds starting = false
handler_holds before_wait = true
handler_holds waiting = false
handler_holds woken = false
handler_holds (handling ms) = true

abbrev pub is_by_rx : Owner → Bool
is_by_rx free = false
is_by_rx by_rx = true
is_by_rx by_handler = false

abbrev pub is_by_handler : Owner → Bool
is_by_handler free = false
is_by_handler by_rx = false
is_by_handler by_handler = true

-- The owner of the mutex is the thread that is between lock and unlock.
abbrev pub IsExclusive : SocketClient → Type 0
IsExclusive c =
    (rx_holds c.rx ≡ is_by_rx c.client_rx_mutex)
    × (handler_holds c.handler ≡ is_by_handler c.client_rx_mutex)

-- Any order, also with waits that return without a signal, as long as the rounds bring whole messages.
abbrev pub IsOfWhole : Action → SocketClient → Type 0
IsOfWhole (receives p) c = IsWhole p
IsOfWhole rx_goes_on c = Unit
IsOfWhole handler_goes_on c = Unit
IsOfWhole wakes c = Unit

abbrev StaysExclusive : Option SocketClient → Type 0
StaysExclusive none = Unit
StaysExclusive (some c) = IsExclusive c

next_round-holds : (done : Bool) → rx_holds (next_round done) ≡ false
next_round-holds true = refl
next_round-holds false = refl

hand_over-holds : (done : Bool) (l : List Bytes) → rx_holds (hand_over done l) ≡ false
hand_over-holds done [] = next_round-holds done
hand_over-holds done (m ∷ l) = refl

signalled-holds : (h : HandlerAt) → handler_holds (signalled h) ≡ handler_holds h
signalled-holds starting = refl
signalled-holds before_wait = refl
signalled-holds waiting = refl
signalled-holds woken = refl
signalled-holds (handling ms) = refl

-- While one thread holds the mutex, the other does not.
pub alone : (owner : Owner) → true ≡ is_by_rx owner → is_by_handler owner ≡ false
alone free e = refl
alone by_rx e = refl
alone by_handler e = cc

alone_handler : (owner : Owner) → true ≡ is_by_handler owner → is_by_rx owner ≡ false
alone_handler free e = refl
alone_handler by_rx e = cc
alone_handler by_handler e = refl

walk-IsExclusive :
    (p : Pointer) (c : SocketClient)
    → rx_holds c.rx ≡ is_by_rx c.client_rx_mutex
    → c.client_rx_mutex ≡ by_handler
    → IsExclusive (walk p c)
walk-IsExclusive (nodes ms) c e o = (e, ap is_by_handler (sym o))
walk-IsExclusive freed c e o = (e, ap is_by_handler (sym o))

handler_step-IsExclusive :
    (h : HandlerAt) (owner : Owner) (c : SocketClient)
    → rx_holds c.rx ≡ is_by_rx owner
    → handler_holds h ≡ is_by_handler owner
    → c.client_rx_mutex ≡ owner
    → StaysExclusive (handler_step h owner c)
unfolding handler_step
handler_step-IsExclusive starting free c e f o = (e, refl)
handler_step-IsExclusive starting by_rx c e f o = tt
handler_step-IsExclusive starting by_handler c e f o = tt
handler_step-IsExclusive before_wait owner c e f o = (e ∙ alone_handler owner f, refl)
handler_step-IsExclusive waiting owner c e f o = tt
handler_step-IsExclusive woken free c e f o =
    walk-IsExclusive c.rx_proc_buf (record c { client_rx_mutex = by_handler }) e refl
handler_step-IsExclusive woken by_rx c e f o = tt
handler_step-IsExclusive woken by_handler c e f o = tt
handler_step-IsExclusive (handling []) owner c e f o = rw o (e, f)
handler_step-IsExclusive (handling (m ∷ ms)) owner c e f o = rw o (e, f)

rx_step-IsExclusive :
    (r : RxAt) (owner : Owner) (c : SocketClient)
    → rx_holds r ≡ is_by_rx owner
    → handler_holds c.handler ≡ is_by_handler owner
    → c.client_rx_mutex ≡ owner
    → StaysExclusive (rx_step r owner c)
unfolding rx_step
rx_step-IsExclusive polling owner c e f o = tt
rx_step-IsExclusive (locking done) free c e f o = (refl, f)
rx_step-IsExclusive (locking done) by_rx c e f o = tt
rx_step-IsExclusive (locking done) by_handler c e f o = tt
rx_step-IsExclusive (moving done) owner c e f o = (refl, f ∙ alone owner e)
rx_step-IsExclusive (signalling done) owner c e f o =
    rw o (next_round-holds done ∙ e, signalled-holds c.handler ∙ f)
rx_step-IsExclusive stopped owner c e f o = tt

receive_step-IsExclusive :
    (p : Poll) (r : RxAt) (c : SocketClient)
    → IsWhole p
    → rx_holds r ≡ is_by_rx c.client_rx_mutex
    → handler_holds c.handler ≡ is_by_handler c.client_rx_mutex
    → StaysExclusive (receive_step p r c)
unfolding receive_step receive
receive_step-IsExclusive _ polling c error e f = (hand_over-holds false c.rx_buf ∙ e, f)
receive_step-IsExclusive _ polling c quiet e f = (hand_over-holds false c.rx_buf ∙ e, f)
receive_step-IsExclusive _ polling c (brings m fits) e f =
    rw (receive-poll_of m c fits) (hand_over-holds false (with_message m c).rx_buf ∙ e, f)
receive_step-IsExclusive p (locking done) c whole e f = tt
receive_step-IsExclusive p (moving done) c whole e f = tt
receive_step-IsExclusive p (signalling done) c whole e f = tt
receive_step-IsExclusive p stopped c whole e f = tt

wake_step-IsExclusive :
    (h : HandlerAt) (c : SocketClient)
    → rx_holds c.rx ≡ is_by_rx c.client_rx_mutex
    → handler_holds h ≡ is_by_handler c.client_rx_mutex
    → StaysExclusive (wake_step h c)
wake_step-IsExclusive starting c e f = tt
wake_step-IsExclusive before_wait c e f = tt
wake_step-IsExclusive waiting c e f = (e, f)
wake_step-IsExclusive woken c e f = tt
wake_step-IsExclusive (handling ms) c e f = tt

step-IsExclusive :
    (a : Action) (c : SocketClient) → IsOfWhole a c → IsExclusive c → StaysExclusive (step a c)
unfolding step
step-IsExclusive (receives p) c q (e, f) = receive_step-IsExclusive p c.rx c q e f
step-IsExclusive rx_goes_on c q (e, f) = rx_step-IsExclusive c.rx c.client_rx_mutex c e f refl
step-IsExclusive handler_goes_on c q (e, f) =
    handler_step-IsExclusive c.handler c.client_rx_mutex c e f refl
step-IsExclusive wakes c q (e, f) = wake_step-IsExclusive c.handler c e f

-- In every order of the steps of a client's two threads, also with waits that return without a
-- signal, the mutex is held by the thread that is between its lock and its unlock, and by none if
-- there is no such thread, as long as the rounds bring whole messages of at most 128 bytes each, or
-- nothing.
pub reached-IsExclusive :
    (socket_buf : Bytes) (n : Option ℕ) {ms : List Bytes} {c : SocketClient}
    → Reach IsOfWhole (started socket_buf n) ms c
    → IsExclusive c
reached-IsExclusive socket_buf n here = (refl, refl)
reached-IsExclusive socket_buf n (next a r q e) =
    rw e at (step-IsExclusive a _ q (reached-IsExclusive socket_buf n r))
