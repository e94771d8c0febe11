-- ===== src/Srpc/Incoming/Stream.antt =====
-- `SRPC_RxCB` on a socket that holds whole messages: each is handled once, in the order of arrival.
use mathlib.Core.List.{map}
use lighting_gateway.Prelude.{
  ℕ, ◌++◌, ◌+◌, ◌<◌, ◌∙◌, ◌∷◌, ◌≡◌, All, List, Option, [], ap, arith, concat, false, length,
  length-append, ltb, none, refl, replicate, some, take,
}
use lighting_gateway.Prelude.Int.{ℤ, pos, eq_ℤ, minus}
use lighting_gateway.Prelude.Reading.{Bytes}
use lighting_gateway.Lists.{Lists}
use lighting_gateway.Soc.Rpc.Receive.{ReadResult, got}
use lighting_gateway.Srpc.{System, Gateway, Outcome, running, exited}
use lighting_gateway.Sockets.{RxResult, idle}
use lighting_gateway.Srpc.Incoming.{
  after, rx_loop, rx_round, srpc_process_incoming, buffer_of, is_short,
}

-- A message of a client: the function, and what its length byte counts.
pub record Frame : Type 0 where
  pub function_id : ℕ
  pub payload : Bytes

abbrev pub frame_bytes : Frame → Bytes
frame_bytes f = f.function_id ∷ length f.payload ∷ f.payload

-- The two reads that bring it.
abbrev pub reads : Frame → ReadResult × ReadResult
reads f = (got (f.function_id ∷ length f.payload ∷ []), got f.payload)

-- The buffer that the handler gets.
abbrev pub padded : Frame → Bytes
padded f = take 256 (frame_bytes f ++ replicate 256 0)

-- A length that is not negative as a `char`.
abbrev pub IsShort : Frame → Type 0
IsShort f = length f.payload < 128

module _ {L : Type 0} (ops : Lists L) (sys : System) (fd : ℤ) where
  unfoldable pub handle_all : List Frame → Gateway L → Option (RxResult (Gateway L))
  unfolding after
  handle_all [] g = some (idle g)
  handle_all (f ∷ fs) g = after (srpc_process_incoming ops sys fd (padded f) g) (handle_all fs)

  rx_round_lem :
      (f : Frame) (g : Gateway L)
      → IsShort f
      → rx_round ops sys fd (got (f.function_id ∷ length f.payload ∷ [])) (got f.payload) g
        ≡ srpc_process_incoming ops sys fd (padded f) g
  unfolding rx_round buffer_of
  rx_round_lem f g h =
      let fits : ltb 254 (length f.payload) ≡ false = ground arith in
      let whole : is_short (2 + length f.payload) (length f.payload) ≡ false = ground arith in
      rw (fits, whole) refl

  after_cong :
      (r : Option (Outcome L)) (a b : Gateway L → Option (RxResult (Gateway L)))
      → ((g : Gateway L) → a g ≡ b g)
      → after r a ≡ after r b
  unfolding after
  after_cong none a b h = refl
  after_cong (some (exited g)) a b h = refl
  after_cong (some (running g)) a b h = h g

  -- If a socket holds whole messages with payloads below 128 bytes and the reads bring each header
  -- and each payload at once, the receiving loop handles each message once, in the order of
  -- arrival, in a buffer filled up with zeros, and ends with the last one or with the first that
  -- ends the process or leaves an array.
  pub rx_loop_lem :
      (fs : List Frame) (g : Gateway L)
      → All IsShort fs
      → rx_loop ops sys fd (map reads fs) (pos (length (concat (map frame_bytes fs)))) g
        ≡ handle_all fs g
  unfolding rx_loop handle_all
  rx_loop_lem [] g h = refl
  rx_loop_lem (f ∷ fs) g h =
      let later = concat (map frame_bytes fs) in
      let total = length-append f.payload later in
      let open_still : eq_ℤ (pos (length (frame_bytes f ++ later))) (pos 0) ≡ false =
        ground arith in
      let left : minus (pos (length (frame_bytes f ++ later))) (pos (2 + length f.payload))
          ≡ pos (length later) =
        ground (arith, total) in
      rw (rx_loop, open_still, rx_round_lem f g h.0)
        (after_cong (srpc_process_incoming ops sys fd (padded f) g) _ _
          (λ g'. ap (λ n. rx_loop ops sys fd (map reads fs) n g') left ∙ rx_loop_lem fs g' h.1))
