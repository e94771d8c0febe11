-- ===== src/SocketClient/Interleaving.antt =====
-- The orders in which the two threads of a client take their steps, and what a round receives.
use lighting_gateway.Prelude.{
  ℕ, ◌++◌, ◌+◌, ◌==◌, ◌||◌, ◌∷◌, ◌≡◌, ◌≤◌, Bool, List, Option, Option-cases, [], ap, arith, drop,
  false, inl, inr, length, ltb, none, refl, some, suc, take, take_all, true,
}
use lighting_gateway.Prelude.Reading.{Bytes}
use lighting_gateway.Soc.Rpc.Receive.{ReadResult, got, failed}
use lighting_gateway.Srpc.Incoming.Stream.{Frame, frame_bytes}
use lighting_gateway.SocketClient.{
  Pointer, Owner, HandlerAt, SocketClient, Poll, poll_failed, timeout, ready, goes_on, Action,
  receives, rx_goes_on, handler_goes_on, wakes, step, receive, receive_header, receive_rest, RxAt,
  polling, locking, moving, signalling, stopped, waiting,
}

-- The system calls of a round in which a message is there as a whole.
abbrev pub poll_of : Frame → Poll
poll_of f = ready (some (got (f.function_id ∷ length f.payload ∷ []))) none (got f.payload) true

-- A round brings nothing, or a message that fits.
pub data IsWhole : Poll → Type 0 where
  error : IsWhole poll_failed
  quiet : IsWhole timeout
  brings : (f : Frame) → length f.payload ≤ 128 → IsWhole (poll_of f)

abbrev pub brought_by : Option ReadResult → ReadResult → List Bytes
brought_by none rest = []
brought_by (some failed) rest = []
brought_by (some (got header)) failed = []
brought_by (some (got header)) (got payload) = (header ++ payload) ∷ []

-- The messages that a step brings.
abbrev pub brought : Action → List Bytes
brought (receives poll_failed) = []
brought (receives timeout) = []
brought (receives (ready input urgent rest is_allocated)) = brought_by input rest
brought rx_goes_on = []
brought handler_goes_on = []
brought wakes = []

-- A state by what the threads share and where they are.
module _ (rx_buf handled : List Bytes) (socket_buf : Bytes) (n : Option ℕ) (fault : Bool) where
  abbrev pub state_of : Pointer → Owner → RxAt → HandlerAt → SocketClient
  state_of p owner r h = record {
    rx_buf = rx_buf;
    rx_proc_buf = p;
    client_rx_mutex = owner;
    socket_buf = socket_buf;
    n = n;
    rx = r;
    handler = h;
    handled = handled;
    fault = fault;
  }

-- The states that are reached from `s` by steps that are allowed, with the messages brought so far.
pub data Reach (IsAllowed : Action → SocketClient → Type 0) (s : SocketClient)
    : List Bytes → SocketClient → Type 0 where
  here : Reach IsAllowed s [] s
  next :
      {ms : List Bytes} {t u : SocketClient} (a : Action)
      → Reach IsAllowed s ms t
      → IsAllowed a t
      → step a t ≡ some u
      → Reach IsAllowed s (ms ++ brought a) u

-- Every order of steps; the rounds bring whole messages, and the wait returns after a signal only.
abbrev pub IsSignalled : Action → SocketClient → Type 0
IsSignalled (receives p) c = IsWhole p
IsSignalled rx_goes_on c = Unit
IsSignalled handler_goes_on c = Unit
IsSignalled wakes c = ⊥

-- The lock is taken while the other thread waits.
abbrev pub IsAwaited : RxAt → SocketClient → Type 0
IsAwaited polling c = Unit
IsAwaited (locking done) c = c.handler ≡ waiting
IsAwaited (moving done) c = Unit
IsAwaited (signalling done) c = Unit
IsAwaited stopped c = Unit

-- The orders in which, besides, every list is handled before the next is handed over.
abbrev pub IsPrompt : Action → SocketClient → Type 0
IsPrompt (receives p) c = IsWhole p
IsPrompt rx_goes_on c = IsAwaited c.rx c
IsPrompt handler_goes_on c = Unit
IsPrompt wakes c = ⊥

-- A list of steps, one after the other; `none`: a thread cannot take its step.
unfoldable pub run : List Action → Option SocketClient → Option SocketClient
unfolding step
run as' none = none
run [] (some c) = some c
run (a ∷ as') (some c) = run as' (step a c)

-- The messages with those that the steps bring.
abbrev pub with_brought : List Bytes → List Action → List Bytes
with_brought ms [] = ms
with_brought ms (a ∷ as') = with_brought (ms ++ brought a) as'

module _ (Q : Action → SocketClient → Type 0) where
  abbrev pub AreAllowed : List Action → Option SocketClient → Type 0
  AreAllowed as' none = Unit
  AreAllowed [] (some c) = Unit
  AreAllowed (a ∷ as') (some c) = Q a c × AreAllowed as' (step a c)

  abbrev pub IsReached : SocketClient → List Bytes → Option SocketClient → Type 0
  IsReached s ms none = Unit
  IsReached s ms (some c) = Reach Q s ms c

  step-IsReached :
      (s : SocketClient) (ms : List Bytes) (a : Action) (c : SocketClient)
      → Reach Q s ms c
      → Q a c
      → IsReached s (ms ++ brought a) (step a c)
  step-IsReached s ms a c r q = elim (Option-cases (step a c)) [
    | inl e ↦ rw e tt
    | inr (u, e) ↦ rw e (next a r q e)
  ]

  pub run-IsReached :
      (s : SocketClient) (ms : List Bytes) (as' : List Action) (o : Option SocketClient)
      → IsReached s ms o
      → AreAllowed as' o
      → IsReached s (with_brought ms as') (run as' o)
  unfolding run
  run-IsReached s ms as' none r q = tt
  run-IsReached s ms [] (some c) r q = r
  run-IsReached s ms (a ∷ as') (some c) r (q, qs) =
      run-IsReached s (ms ++ brought a) as' (step a c) (step-IsReached s ms a c r q) qs

-- An order that is allowed, where more is.
pub Reach-weaken :
    (P Q : Action → SocketClient → Type 0) (s : SocketClient)
    → ((a : Action) (c : SocketClient) → P a c → Q a c)
    → {ms : List Bytes} {c : SocketClient} → Reach P s ms c
    → Reach Q s ms c
Reach-weaken P Q s h here = here
Reach-weaken P Q s h (next a r q e) = next a (Reach-weaken P Q s h r) (h a _ q) e

-- What a message leaves in the buffer.
abbrev pub buffer_after : Frame → Bytes → Bytes
buffer_after f buf =
    f.function_id
    ∷ length f.payload
    ∷ (f.payload ++ drop (2 + length f.payload) (f.function_id ∷ length f.payload ∷ drop 2 buf))

abbrev pub with_message : Frame → SocketClient → SocketClient
with_message f c = record c {
  n = some (length f.payload);
  socket_buf = buffer_after f c.socket_buf;
  rx_buf = c.rx_buf ++ frame_bytes f ∷ [];
}

take-payload : (bs rest : Bytes) → take (length bs) (bs ++ rest) ≡ bs
take-payload [] rest = refl
take-payload (b ∷ bs) rest = ap (λ l. b ∷ l) (take-payload bs rest)

take-frame :
    (f : Frame) (rest : Bytes)
    → take (length f.payload + 2) (f.function_id ∷ length f.payload ∷ (f.payload ++ rest))
      ≡ frame_bytes f
take-frame f rest =
    let size : length f.payload + 2 ≡ suc (suc (length f.payload)) = omega arith in
    rw (size, take-payload f.payload rest) refl

pub receive-poll_of :
    (f : Frame) (c : SocketClient)
    → length f.payload ≤ 128
    → receive (poll_of f) c ≡ (goes_on, with_message f c)
unfolding receive receive_header receive_rest
receive-poll_of f c h =
    let fits : ltb 132 (length f.payload + 2) ≡ false = ground arith in
    let whole : (length f.payload == length f.payload) ≡ true = ground arith in
    let same : (c.fault || false) ≡ c.fault = ground arith in
    rw
      (
        take_all (length f.payload) f.payload (omega arith),
        whole,
        take-frame f
            (drop (2 + length f.payload) (f.function_id ∷ length f.payload ∷ drop 2 c.socket_buf)),
        fits,
        same,
      )
      refl
