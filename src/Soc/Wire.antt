-- ===== src/Soc/Wire.antt =====
-- The serial protocol of the chip, described on its own: what a host may ask of the chip, the
-- frame that carries a request, and the reading of such a frame. zbSocDriver/zbSocCmd.c writes
-- its frames out byte by byte; the children show that these are the frames described here.
pub mod RoundTrip
use lighting_gateway.Prelude.{
  if◌then◌else◌, ℕ, ◌&&◌, ◌++◌, ◌==◌, ◌∷◌, Option, [], length, none, some,
}
use lighting_gateway.Prelude.Reading.{
  Bytes, Reader, byte, bytes, hi_uint16, lo_uint16, pure, uint16, ◌>>=◌, ◌>>◌,
}
use lighting_gateway.Soc.Port.Checksum.{checksum}

-- One command of the ZigBee cluster library, and where it goes.
pub record Zcl : Type 0 where
  pub dst_addr : ℕ
  pub endpoint : ℕ
  pub cluster : ℕ
  pub addr_mode : ℕ
  pub frame_control : ℕ
  pub seq : ℕ
  pub command : ℕ
  pub params : Bytes

pub record Binding : Type 0 where
  pub src_addr : ℕ
  pub src_ieee : Bytes
  pub src_endpoint : ℕ
  pub cluster : ℕ
  pub dst_ieee : Bytes
  pub dst_endpoint : ℕ

pub data Request : Type 0 where
  -- a command to the application on the chip, and its argument
  app : ℕ → ℕ → Request
  zcl : Zcl → Request
  -- every router is to let devices join for so many seconds
  permit_join : ℕ → Request
  bind : Binding → Request
  device_info : Request

abbrev pub word : ℕ → Bytes → Bytes
word w rest = lo_uint16 w ∷ hi_uint16 w ∷ rest

-- Length, two command bytes and payload.
abbrev pub message : ℕ → ℕ → Bytes → Bytes
message cmd0 cmd1 payload = length payload ∷ cmd0 ∷ cmd1 ∷ payload

abbrev pub af_message : ℕ → ℕ → ℕ → Bytes → Bytes
af_message dst_addr endpoint cluster content =
    message 0x29 0 (0x0B ∷ word dst_addr (endpoint ∷ word cluster (length content ∷ content)))

unfoldable pub body : Request → Bytes
body (app command argument) = af_message 2 0x0B 0xFFFF (2 ∷ 0 ∷ 0 ∷ command ∷ argument ∷ 0 ∷ [])
body (zcl z) =
    af_message z.dst_addr z.endpoint z.cluster
      (z.addr_mode ∷ z.frame_control ∷ z.seq ∷ z.command ∷ z.params)
body (permit_join duration) = message 0x25 0x36 (15 ∷ word 0xFFFD (duration ∷ 1 ∷ []))
body (bind b) = message 0x25 0x21 (
    word b.src_addr
      (b.src_ieee ++ b.src_endpoint ∷ word b.cluster (3 ∷ (b.dst_ieee ++ b.dst_endpoint ∷ []))))
body device_info = message 0x27 0 []

-- Start of frame, body, check sum.
abbrev pub sealed : Bytes → Bytes
sealed content = 0xFE ∷ (content ++ checksum content ∷ [])

unfoldable pub encode : Request → Bytes
unfolding body
encode r = sealed (body r)

-- A frame whose length and check sum are right: its two command bytes and its payload.
pub read_frame : Reader (ℕ × ℕ × Bytes)
read_frame = do
  sof ← byte
  len ← byte
  cmd0 ← byte
  cmd1 ← byte
  payload ← bytes len
  fcs ← byte
  if (sof == 0xFE) && (fcs == checksum (len ∷ cmd0 ∷ cmd1 ∷ payload))
      then pure (cmd0, cmd1, payload)
      else λ _. none

-- What the application on the chip makes of the data of a message.
af_request : ℕ → ℕ → ℕ → Bytes → Option Request
af_request dst endpoint cluster (mode ∷ control ∷ seq ∷ command ∷ params) =
    if cluster == 0xFFFF
    then elim params [ [] ↦ none | argument ∷ _ ↦ some (app command argument) ]
    else some (
        zcl (record {
          dst_addr = dst;
          endpoint = endpoint;
          cluster = cluster;
          addr_mode = mode;
          frame_control = control;
          seq = seq;
          command = command;
          params = params;
        }))
af_request dst endpoint cluster _ = none

lift_option {ℓ} : {A : Type ℓ} → Option A → Reader A
lift_option none buf = none
lift_option (some a) buf = some (a, buf)

read_af : Reader Request
unfolding lift_option af_request
read_af = do
  byte
  dst ← uint16
  endpoint ← byte
  cluster ← uint16
  len ← byte
  message ← bytes len
  lift_option (af_request dst endpoint cluster message)

read_permit : Reader Request
read_permit = do byte; uint16; duration ← byte; byte; pure (permit_join duration)

read_bind : Reader Request
read_bind = do
  src ← uint16
  src_ieee ← bytes 8
  src_endpoint ← byte
  cluster ← uint16
  byte
  dst_ieee ← bytes 8
  dst_endpoint ← byte
  pure (
      bind (record {
        src_addr = src;
        src_ieee = src_ieee;
        src_endpoint = src_endpoint;
        cluster = cluster;
        dst_ieee = dst_ieee;
        dst_endpoint = dst_endpoint;
      }))

read_payload : ℕ → ℕ → Reader Request
unfolding read_af read_permit read_bind
read_payload cmd0 cmd1 =
    if (cmd0 == 0x29) && (cmd1 == 0)
    then read_af
    else if (cmd0 == 0x25) && (cmd1 == 0x36)
    then read_permit
    else if (cmd0 == 0x25) && (cmd1 == 0x21)
    then read_bind
    else if (cmd0 == 0x27) && (cmd1 == 0)
    then pure device_info
    else λ _. none

-- The request of a message that was read, with the bytes behind its frame.
pub decode_message : Option ((ℕ × ℕ × Bytes) × Bytes) → Option (Request × Bytes)
unfolding read_payload
decode_message none = none
decode_message (some ((cmd0, cmd1, payload), rest)) = elim (read_payload cmd0 cmd1 payload) [
  | none ↦ none
  | some (r, _) ↦ some (r, rest)
]

-- What a listener on the line makes of the bytes, and the bytes behind the frame.
pub decode : Reader Request
unfolding read_frame decode_message
decode buf = decode_message (read_frame buf)
