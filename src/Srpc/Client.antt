-- ===== src/Srpc/Client.antt =====
-- What a client may ask of the lights, described on its own: the messages, the bytes of each, and
-- the call of the driver that it stands for. The children show that
-- server/Source/interface_srpcserver.c makes that call.
pub mod Obeyed
pub mod Run
use lighting_gateway.Prelude.{if◌then◌else◌, ℕ, ◌++◌, ◌==◌, ◌∷◌, List, [], get_or, length}
use lighting_gateway.Prelude.Reading.{Bytes}
use lighting_gateway.Soc.Wire.{word}
use lighting_gateway.Soc.Api.{
  Call, Target, identify, set_state, set_level, set_hue_sat, get_state, get_level, get_hue, get_sat,
  open_nwk,
}

-- A target as it stands in a message: the short address, what fills the room of a long one, and a
-- network identifier that the server passes over.
pub record Address : Type 0 where
  pub target : Target
  pub fill : Bytes
  pub pan : Bytes

pub data Command : Type 0 where
  switch : ℕ → Command
  -- level, transition time
  dim : ℕ → ℕ → Command
  -- hue, saturation, transition time
  color : ℕ → ℕ → ℕ → Command
  ask_state ask_level ask_hue ask_saturation : Command
  -- identify time
  show : ℕ → Command

pub data Message : Type 0 where
  light : Command → Address → Message
  -- source address, source endpoint, source IEEE, destination endpoint, destination IEEE, cluster
  connect : ℕ → ℕ → Bytes → ℕ → Bytes → ℕ → Message
  -- duration, authorisation
  join : ℕ → ℕ → Message

abbrev pub command_id : Command → ℕ
command_id (switch _) = 0x82
command_id (dim _ _) = 0x83
command_id (color _ _ _) = 0x84
command_id ask_state = 0x85
command_id ask_level = 0x86
command_id ask_hue = 0x87
command_id ask_saturation = 0x88
command_id (show _) = 0x93

abbrev pub message_id : Message → ℕ
message_id (light c _) = command_id c
message_id (connect _ _ _ _ _ _) = 0x89
message_id (join _ _) = 0x9C

abbrev pub arguments : Command → Bytes → Bytes
arguments (switch state) rest = state ∷ rest
arguments (dim level time) rest = level ∷ word time rest
arguments (color hue sat time) rest = hue ∷ sat ∷ word time rest
arguments ask_state rest = rest
arguments ask_level rest = rest
arguments ask_hue rest = rest
arguments ask_saturation rest = rest
arguments (show time) rest = word time rest

-- Six bytes of an array, and two.
abbrev pub six : Bytes → Bytes → Bytes
six a rest =
    get_or a 0 0 ∷ get_or a 1 0 ∷ get_or a 2 0 ∷ get_or a 3 0 ∷ get_or a 4 0 ∷ get_or a 5 0 ∷ rest

abbrev pub two : Bytes → Bytes → Bytes
two a rest = get_or a 0 0 ∷ get_or a 1 0 ∷ rest

abbrev pub address : Address → Bytes → Bytes
address a rest =
    a.target.addr_mode ∷ word a.target.dst_addr (six a.fill (a.target.endpoint ∷ two a.pan rest))

-- The bytes behind the header; `rest` is what follows in the buffer.
abbrev pub payload : Message → Bytes → Bytes
payload (light c a) rest = address a (arguments c rest)
payload (connect src src_ep src_ieee dst_ep dst_ieee cluster) rest =
    word src (src_ep ∷ (src_ieee ++ (dst_ep ∷ (dst_ieee ++ word cluster rest))))
payload (join duration magic) rest = duration ∷ word magic rest

unfoldable pub render : Message → Bytes → Bytes
render m rest = message_id m ∷ length (payload m []) ∷ payload m rest

abbrev pub light_call : Command → Target → Call
light_call (switch state) t = set_state (if state == 0 then 0 else 1) t
light_call (dim level time) t = set_level level time t
light_call (color hue sat time) t = set_hue_sat hue sat time t
light_call ask_state t = get_state t
light_call ask_level t = get_level t
light_call ask_hue t = get_hue t
light_call ask_saturation t = get_sat t
light_call (show time) t = identify time t

-- The network is opened only to those who know the number.
unfoldable pub calls : Message → List Call
calls (light c a) = light_call c a.target ∷ []
calls (connect src src_ep src_ieee dst_ep dst_ieee cluster) =
    Call.bind src src_ep src_ieee dst_ep dst_ieee cluster ∷ []
calls (join duration magic) = if magic == 0xEBD4 then open_nwk duration ∷ [] else []
