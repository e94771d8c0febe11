-- ===== src/Soc/Rpc/Receive.antt =====
-- The reading of a message from the serial port (`zbSocProcessRpc`, zbSocDriver/zbSocCmd.c). The
-- results that the calls of `read` will have are a list; the port is non-blocking, so a call may
-- bring few bytes, none, or fail.
pub mod Reads
use lighting_gateway.Prelude.{
  if◌then◌else◌, ℕ, ◌%◌, ◌++◌, ◌+◌, ◌-◌, ◌==◌, ◌∷◌, List, Option, [], length, ltb, none, some,
}
use lighting_gateway.Prelude.Reading.{Bytes}
use lighting_gateway.Soc.Rpc.{Event, Callbacks, Stack}
use lighting_gateway.Soc.Rpc.Process.{process_rpc}

pub data ReadResult : Type 0 where
  got : Bytes → ReadResult
  failed : ReadResult

pub data Received : Type 0 where
  -- the whole message, and the number of retries
  complete : Bytes → ℕ → Received
  gave_up : Received
  -- more results are needed: the loop goes on
  waiting : Received

-- `bytesRead` is a `uint8_t`, so a failure is 255.
abbrev pub bytes_read : ReadResult → ℕ
bytes_read (got bs) = length bs % 256
bytes_read failed = 255

-- What a read leaves in the buffer. A failure that counts as 255 bytes leaves what `malloc` found
-- there.
abbrev pub stored : Bytes → ReadResult → Bytes
stored junk (got bs) = bs
stored junk failed = junk

-- `while (rpcLen > 0) …`: what is left to read, the bytes so far and `retryAttempts`.
unfoldable pub read_loop : Bytes → List ReadResult → ℕ → Bytes → ℕ → Received
read_loop junk [] rpc_len buff retries = if rpc_len == 0 then complete buff retries else waiting
read_loop junk (r ∷ rs) rpc_len buff retries =
    let again = read_loop junk rs rpc_len buff (retries + 1) in
    let more = read_loop junk rs (rpc_len - bytes_read r) (buff ++ stored junk r) retries in
    if rpc_len == 0
    then complete buff retries
    else if ltb rpc_len (bytes_read r)
    then (if ltb retries 5 then again else gave_up)
    else more

pub data Outcome : Type 0 where
  -- no start of frame, or no length behind it
  dropped : Outcome
  failed : Outcome
  waiting : Outcome
  -- `none` is a read past the end of the message
  handled : Option (Option Event) → Outcome

unfoldable pub value_of : Option (Option Event × Bytes) → Option (Option Event)
value_of none = none
value_of (some (e, _)) = some e

unfoldable pub dispatch : Callbacks → Stack → Received → Outcome
unfolding value_of process_rpc
dispatch cb stack (complete buff _) = handled (value_of (process_rpc cb stack buff))
dispatch cb stack gave_up = failed
dispatch cb stack Received.waiting = waiting

-- `sofByte`: it keeps what the stack held where nothing is read.
abbrev sof_byte : Stack → ReadResult → ℕ
sof_byte stack (got (b ∷ _)) = b
sof_byte stack _ = stack.sof_byte

-- The length was read; room is made for two command bytes and the check sum, in a `uint8_t`.
read_message : Callbacks → Stack → Bytes → ReadResult → List ReadResult → Outcome
unfolding read_loop dispatch
read_message cb stack junk (got (len ∷ [])) rs =
    dispatch cb stack (read_loop junk rs ((len + 3) % 256) [] 0)
read_message cb stack junk _ rs = dropped

-- The first result is for the start of frame, the second for the length.
unfoldable pub zb_soc_process_rpc : Callbacks → Stack → Bytes → List ReadResult → Outcome
unfolding read_message
zb_soc_process_rpc cb stack junk (first ∷ second ∷ rs) =
    if sof_byte stack first == 0xFE then read_message cb stack junk second rs else dropped
zb_soc_process_rpc cb stack junk _ = waiting
