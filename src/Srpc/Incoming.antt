-- ===== src/Srpc/Incoming.antt =====
-- The dispatch of a client's message, and the reading of messages from a socket
-- (`SRPC_ProcessIncoming` and `SRPC_RxCB`, server/Source/interface_srpcserver.c).
pub mod Handlers
pub mod Headed
pub mod Kept
pub mod Stream
use lighting_gateway.Prelude.{
  if◌then◌else◌, ℕ, ◌++◌, ◌+◌, ◌∷◌, Bool, List, Option, [], bit_and, false, get_elem?, get_or, leb,
  length, ltb, none, replicate, some, take,
}
use lighting_gateway.Prelude.Int.{ℤ, pos, negsuc, sub, minus, eq_ℤ}
use lighting_gateway.Prelude.Reading.{Bytes}
use lighting_gateway.Lists.{Lists}
use lighting_gateway.Soc.Rpc.Receive.{ReadResult, got, failed}
use lighting_gateway.Sockets.{RxResult, idle, ended, blocked}
use lighting_gateway.Srpc.{System, Gateway, Outcome, Action, Handler, running, exited}
use lighting_gateway.Srpc.Light.{
  srpc_identify_device, srpc_bind_devices, srpc_set_device_state, srpc_set_device_level,
  srpc_set_device_color, srpc_get_device_state, srpc_get_device_level, srpc_get_device_hue,
  srpc_get_device_sat, srpc_permit_join, srpc_not_supported,
}
use lighting_gateway.Srpc.Store.{
  srpc_add_group, srpc_store_scene, srpc_recall_scene, srpc_change_device_name, srpc_get_groups,
  srpc_get_scenes, srpc_get_devices, srpc_close,
}

-- The buffer of 256 bytes after the two reads; a message that fits is no longer than that.
unfoldable pub buffer_of : Bytes → Bytes → Bytes
buffer_of header payload = take 256 (take 2 (header ++ 0 ∷ 0 ∷ []) ++ payload ++ replicate 256 0)

abbrev pub contents : ReadResult → Bytes
contents (got bs) = bs
contents failed = []

-- The sum of what the two reads return, -1 for a failure.
abbrev pub byte_read : ReadResult → ReadResult → ℤ
byte_read (got a) (got b) = pos (length a + length b)
byte_read (got a) failed = sub (pos (length a)) 1
byte_read failed (got b) = sub (pos (length b)) 1
byte_read failed failed = negsuc 1

-- `byteRead < buffer[SRPC_MSG_LEN]`, where a `char` above 127 is negative.
abbrev pub is_short : ℕ → ℕ → Bool
is_short n len = if leb 128 len then false else ltb n len

module _ {L : Type 0} where
  -- What a handler has read is acted on.
  unfoldable pub act : Option (Action L × Bytes) → Action L
  act none g = none
  act (some (f, _)) g = f g

  unfoldable pub call_handler : Option (Handler L) → Bytes → Action L
  unfolding act
  call_handler none p_buf g = none
  call_handler (some handler) p_buf g = act (handler p_buf) g

  -- The loop goes on unless the process has ended.
  unfoldable pub after :
      Option (Outcome L)
      → (Gateway L → Option (RxResult (Gateway L)))
      → Option (RxResult (Gateway L))
  after none next = none
  after (some (exited g)) next = some (ended g)
  after (some (running g)) next = next g

module _ {L : Type 0} (ops : Lists L) (sys : System) where
  unfoldable pub rpcs_process_incoming : ℤ → List (Handler L)
  rpcs_process_incoming fd =
      srpc_close ops sys
      ∷ srpc_get_devices ops sys fd
      ∷ srpc_set_device_state
      ∷ srpc_set_device_level
      ∷ srpc_set_device_color
      ∷ srpc_get_device_state
      ∷ srpc_get_device_level
      ∷ srpc_get_device_hue
      ∷ srpc_get_device_sat
      ∷ srpc_bind_devices
      ∷ srpc_not_supported
      ∷ srpc_not_supported
      ∷ srpc_not_supported
      ∷ srpc_not_supported
      ∷ srpc_get_groups ops sys fd
      ∷ srpc_add_group ops sys fd
      ∷ srpc_get_scenes ops sys fd
      ∷ srpc_store_scene ops sys fd
      ∷ srpc_recall_scene ops sys
      ∷ srpc_identify_device
      ∷ srpc_change_device_name ops sys
      ∷ srpc_not_supported
      ∷ srpc_not_supported
      ∷ srpc_not_supported
      ∷ srpc_not_supported
      ∷ srpc_not_supported
      ∷ srpc_not_supported
      ∷ srpc_not_supported
      ∷ srpc_permit_join
      ∷ []

  -- The table has 29 entries, and the index is not checked.
  unfoldable pub srpc_process_incoming : ℤ → Bytes → Action L
  unfolding rpcs_process_incoming call_handler
  srpc_process_incoming fd p_buf =
      call_handler (get_elem? (rpcs_process_incoming fd) (bit_and (get_or p_buf 0 0) 0x7F)) p_buf

  -- One round of the loop of `SRPC_RxCB`. `error` ends the process.
  unfoldable pub rx_round : ℤ → ReadResult → ReadResult → Gateway L → Option (Outcome L)
  unfolding srpc_process_incoming buffer_of
  rx_round fd first second g = elim (byte_read first second) [
    | negsuc _ ↦ some (exited g)
    | pos n ↦
        (let buffer = buffer_of (contents first) (contents second) in
          if ltb 254 (length (contents second))
          then none
          else if is_short n (get_or buffer 1 0)
          then some (exited g)
          else srpc_process_incoming fd buffer g)
  ]

  -- The loop; the results of its reads are a list of pairs.
  unfoldable pub rx_loop :
      ℤ → List (ReadResult × ReadResult) → ℤ → Gateway L → Option (RxResult (Gateway L))
  unfolding rx_round after
  rx_loop fd [] byte_to_read g = some (if eq_ℤ byte_to_read (pos 0) then idle g else blocked g)
  rx_loop fd ((first, second) ∷ rs) byte_to_read g =
      let next =
        λ (g' : Gateway L). rx_loop fd rs (minus byte_to_read (byte_read first second)) g' in
      if eq_ℤ byte_to_read (pos 0) then some (idle g) else after (rx_round fd first second g) next
