-- ===== src/SocketClient.antt =====
-- The two threads of a client (client/CClients/Source/socket_client.c): one receives messages and hands
-- them over in a list, the other calls the client's callback for each. A step is what a thread does
-- between two places at which the other thread can notice it; the order of the steps is free.
-- `pthread_cond_wait` may also return without a signal. The callback is set; `messageCount`, which is
-- only printed, is left out.
pub mod Interleaving
pub mod Delivery
pub mod Exclusion
pub mod Progress
pub mod Race
pub mod Unfaulted
use lighting_gateway.Prelude.{
  if◌then◌else◌, ℕ, ◌++◌, ◌+◌, ◌==◌, ◌||◌, ◌∷◌, Bool, List, Option, [], drop, false, get_or, length,
  ltb, none, some, take, true,
}
use lighting_gateway.Prelude.Reading.{Bytes}
use lighting_gateway.Soc.Rpc.Receive.{ReadResult, got, failed}

-- `SRPC_FRAME_HDR_SZ` and `AP_MAX_BUF_LEN`
abbrev pub srpc_frame_hdr_sz : ℕ
srpc_frame_hdr_sz = 2

abbrev pub ap_max_buf_len : ℕ
ap_max_buf_len = 128

-- Where `nextMessage` stands in a `linkedMsg`, with pointers of 32 bits: behind the 130 bytes of
-- `message` and two of padding. With longer pointers there is more padding.
abbrev pub next_message_at : ℕ
next_message_at = 132

-- A pointer to a linked list of messages: the list, or memory that was freed.
pub data Pointer : Type 0 where
  nodes : List Bytes → Pointer
  freed : Pointer

pub data Owner : Type 0 where
  free : Owner
  by_rx : Owner
  by_handler : Owner

-- Where `rxThreadFunc` is: in a new round; before the lock, the move and the signal, with `done`; or
-- behind its loop.
pub data RxAt : Type 0 where
  polling : RxAt
  locking : Bool → RxAt
  moving : Bool → RxAt
  signalling : Bool → RxAt
  stopped : RxAt

-- Where `handleThreadFunc` is: before its lock, before and in the wait, behind it without the mutex, or
-- in the loop with `searchList`.
pub data HandlerAt : Type 0 where
  starting : HandlerAt
  before_wait : HandlerAt
  waiting : HandlerAt
  woken : HandlerAt
  handling : List Bytes → HandlerAt

-- The global variables, the local `n` of `rxThreadFunc` (`none`: -1), where the threads are, and the
-- messages that the callback was called with. `fault`: the code used freed memory, wrote a
-- message over the pointer behind it or unlocked a mutex that the thread does not hold.
pub record SocketClient : Type 0 where
  pub rx_buf : List Bytes
  pub rx_proc_buf : Pointer
  pub client_rx_mutex : Owner
  pub socket_buf : Bytes
  pub n : Option ℕ
  pub rx : RxAt
  pub handler : HandlerAt
  pub handled : List Bytes
  pub fault : Bool

-- A round's system calls: `poll`, the calls of `recv` for the header (in and out of band, where `poll`
-- shows input) and for the rest, and whether `malloc` gives memory.
pub data Poll : Type 0 where
  poll_failed : Poll
  timeout : Poll
  ready : Option ReadResult → Option ReadResult → ReadResult → Bool → Poll

-- How a round ends: without and with `done`, or by `break`, which skips the rest of the round.
pub data Flow : Type 0 where
  goes_on : Flow
  ends : Flow
  breaks : Flow

-- `recv` of at most `len` bytes to a place in the buffer: `n` and the buffer afterwards.
abbrev pub recv : ℕ → ℕ → ReadResult → Bytes → Option ℕ × Bytes
recv place len failed buf = (none, buf)
recv place len (got bs) buf =
    let bs' = take len bs in
    (some (length bs'), take place buf ++ (bs' ++ drop (place + length bs') buf))

abbrev pub recv_header : Option ReadResult → Option ℕ × Bytes → Option ℕ × Bytes
recv_header none r = r
recv_header (some r) (n, buf) = recv 0 srpc_frame_hdr_sz r buf

-- `((msgData_t *)&(socketBuf[0][0]))->len`
abbrev pub len_of : Bytes → ℕ
len_of buf = get_or buf 1 0

abbrev pub is_count : Option ℕ → ℕ → Bool
is_count none k = false
is_count (some n) k = n == k

-- The new message, copied with its header to the start of the new `linkedMsg`.
abbrev pub placed : SocketClient → SocketClient
placed c = record c {
  rx_buf = c.rx_buf ++ take (len_of c.socket_buf + srpc_frame_hdr_sz) c.socket_buf ∷ [];
  fault = c.fault || ltb next_message_at (len_of c.socket_buf + srpc_frame_hdr_sz);
}

-- The mutex is unlocked by a thread that does not hold it.
abbrev pub unlocked : SocketClient → SocketClient
unlocked c = record c { client_rx_mutex = free; fault = true }

unfoldable pub receive_rest : Bool → Option ℕ × Bytes → SocketClient → Flow × SocketClient
receive_rest is_allocated (n, buf) c =
    let c' = record c { n = n; socket_buf = buf } in
    if is_count n (len_of buf)
    then (if is_allocated then (goes_on, placed c') else (breaks, c'))
    else (goes_on, unlocked c')

unfoldable pub receive_header :
    ReadResult → Bool → Option ℕ × Bytes → SocketClient → Flow × SocketClient
unfolding receive_rest
receive_header rest is_allocated (none, buf) c = (ends, record c { n = none; socket_buf = buf })
receive_header rest is_allocated (some n, buf) c =
    let c' = record c { n = some n; socket_buf = buf } in
    if n == 0
    then (ends, c')
    else if n == srpc_frame_hdr_sz
    then receive_rest is_allocated (recv srpc_frame_hdr_sz (len_of buf) rest buf) c'
    else (goes_on, c')

-- A round of `rxThreadFunc` up to the test of `rxBuf`.
unfoldable pub receive : Poll → SocketClient → Flow × SocketClient
unfolding receive_header
receive poll_failed c = (goes_on, c)
receive timeout c = (goes_on, c)
receive (ready input urgent rest is_allocated) c =
    receive_header rest is_allocated (recv_header urgent (recv_header input (c.n, c.socket_buf))) c

abbrev pub next_round : Bool → RxAt
next_round done = if done then stopped else polling

abbrev pub hand_over : Bool → List Bytes → RxAt
hand_over done [] = next_round done
hand_over done (m ∷ ms) = locking done

abbrev pub after_receive : Flow × SocketClient → SocketClient
after_receive (goes_on, c) = record c { rx = hand_over false c.rx_buf }
after_receive (ends, c) = record c { rx = hand_over true c.rx_buf }
after_receive (breaks, c) = record c { rx = stopped }

unfoldable pub receive_step : Poll → RxAt → SocketClient → Option SocketClient
unfolding receive
receive_step p polling c = some (after_receive (receive p c))
receive_step p (locking done) c = none
receive_step p (moving done) c = none
receive_step p (signalling done) c = none
receive_step p stopped c = none

-- A signal that nobody waits for is lost.
abbrev pub signalled : HandlerAt → HandlerAt
signalled starting = starting
signalled before_wait = before_wait
signalled waiting = woken
signalled woken = woken
signalled (handling ms) = handling ms

-- The rest of the round: the lock, the move with the unlock, the signal. `none`: it has to wait.
unfoldable pub rx_step : RxAt → Owner → SocketClient → Option SocketClient
rx_step polling owner c = none
rx_step (locking done) free c = some (record c { client_rx_mutex = by_rx; rx = moving done })
rx_step (locking done) by_rx c = none
rx_step (locking done) by_handler c = none
rx_step (moving done) owner c = some (record c {
  rx_proc_buf = nodes c.rx_buf;
  rx_buf = [];
  client_rx_mutex = free;
  rx = signalling done;
})
rx_step (signalling done) owner c =
    some (record c { handler = signalled c.handler; rx = next_round done })
rx_step stopped owner c = none

-- `searchList = rxProcBuf`, and its first use; what stands in freed memory is not followed.
abbrev pub walk : Pointer → SocketClient → SocketClient
walk (nodes ms) c = record c { handler = handling ms }
walk freed c = record c { handler = handling []; fault = true }

-- A step of `handleThreadFunc`. `rxProcBuf` still points to the list when the messages are freed.
unfoldable pub handler_step : HandlerAt → Owner → SocketClient → Option SocketClient
handler_step starting free c =
    some (record c { client_rx_mutex = by_handler; handler = before_wait })
handler_step starting by_rx c = none
handler_step starting by_handler c = none
handler_step before_wait owner c = some (record c { client_rx_mutex = free; handler = waiting })
handler_step waiting owner c = none
handler_step woken free c = some (walk c.rx_proc_buf (record c { client_rx_mutex = by_handler }))
handler_step woken by_rx c = none
handler_step woken by_handler c = none
handler_step (handling []) owner c = some (record c { handler = before_wait })
handler_step (handling (m ∷ ms)) owner c =
    some (record c { handled = c.handled ++ m ∷ []; rx_proc_buf = freed; handler = handling ms })

-- The wait returns without a signal.
abbrev pub wake_step : HandlerAt → SocketClient → Option SocketClient
wake_step starting c = none
wake_step before_wait c = none
wake_step waiting c = some (record c { handler = woken })
wake_step woken c = none
wake_step (handling ms) c = none

pub data Action : Type 0 where
  receives : Poll → Action
  rx_goes_on : Action
  handler_goes_on : Action
  wakes : Action

unfoldable pub step : Action → SocketClient → Option SocketClient
unfolding receive_step rx_step handler_step
step (receives p) c = receive_step p c.rx c
step rx_goes_on c = rx_step c.rx c.client_rx_mutex c
step handler_goes_on c = handler_step c.handler c.client_rx_mutex c
step wakes c = wake_step c.handler c

-- Both threads at their start, with what the stack and the buffer hold.
abbrev pub started : Bytes → Option ℕ → SocketClient
started socket_buf n = record {
  rx_buf = [];
  rx_proc_buf = nodes [];
  client_rx_mutex = free;
  socket_buf = socket_buf;
  n = n;
  rx = polling;
  handler = starting;
  handled = [];
  fault = false;
}
