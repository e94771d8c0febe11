-- ===== src/ListDevs/Listing.antt =====
-- The list of devices, from the server's messages to the lines that the client prints.
use mathlib.Core.List.{map}
use lighting_gateway.Prelude.{
  ℕ, ◌++◌, ◌-◌, ◌∙◌, ◌∷◌, ◌≡◌, ◌≤◌, All, List, Option, [], ap, append_assoc, arith, get_or, length,
  none, refl, replicate, some, sym, take, take-append, true,
}
use lighting_gateway.Prelude.Reading.{Bytes, build_uint16_lem, bytes-append}
use lighting_gateway.Endpoint.{EpInfo, EpInfoExtended}
use lighting_gateway.Soc.Wire.{word}
use lighting_gateway.Srpc.{System}
use lighting_gateway.Srpc.Reply.{srpc_parse_ep_info}
use lighting_gateway.Srpc.Reply.Device.{
  name_of, device_payload, device_message_of, IsNews, length-device_payload, srpc_parse_ep_info_lem,
}
use lighting_gateway.SocketClient.{SocketClient, started}
use lighting_gateway.SocketClient.Interleaving.{Reach, IsPrompt}
use lighting_gateway.SocketClient.Progress.{is_between, IsOfHandler, handles_all}
use lighting_gateway.ListDevs.{
  device_line, srpc_new_device, srpc_process_incoming, socket_client_cb, p_data, printed,
}

-- A device whose message fits the array of the client.
abbrev pub IsShown : EpInfoExtended → Type 0
IsShown ex = IsNews ex × (length (name_of ex.ep_info) ≤ 106)

-- The line of a device.
abbrev pub line_of : EpInfo → Bytes
line_of e = device_line e.nwk_addr e.endpoint e.profile_id e.device_id e.ieee_addr (name_of e)

-- What stands behind the IEEE address.
abbrev tail_of : EpInfoExtended → Bytes → Bytes
tail_of ex z = ex.type ∷ word ex.prev_nwk_addr (ex.ep_info.flags ∷ z)

-- The message behind its header, before `z`.
abbrev payload_of : EpInfoExtended → Bytes → Bytes
payload_of ex z = word ex.ep_info.nwk_addr (
    ex.ep_info.endpoint
    ∷ word ex.ep_info.profile_id (
        word ex.ep_info.device_id (
          ex.ep_info.version
          ∷ length (name_of ex.ep_info)
          ∷ (name_of ex.ep_info ++ (ex.ep_info.status ∷ (ex.ep_info.ieee_addr ++ tail_of ex z))))))

device_payload-append : (ex : EpInfoExtended) (z : Bytes) → device_payload ex ++ z ≡ payload_of ex z
device_payload-append ex z =
    rw
      (
        append_assoc (name_of ex.ep_info)
            (ex.ep_info.status ∷ (ex.ep_info.ieee_addr ++ tail_of ex [])) z,
        append_assoc ex.ep_info.ieee_addr (tail_of ex []) z,
      )
      refl

srpc_new_device-payload_of :
    (ex : EpInfoExtended) (z : Bytes)
    → IsNews ex
    → srpc_new_device (payload_of ex z) ≡ some (line_of ex.ep_info, tail_of ex z)
unfolding srpc_new_device
srpc_new_device-payload_of ex z h =
    let e = ex.ep_info in
    rw
      (
        build_uint16_lem e.nwk_addr h.1,
        build_uint16_lem e.profile_id h.2,
        build_uint16_lem e.device_id h.3,
        bytes-append (length (name_of e)) (name_of e) _ refl,
        bytes-append 8 e.ieee_addr _ h.0.0,
      )
      refl

socket_client_cb_new :
    (msg : Bytes)
    → get_or msg 0 0 ≡ 1
    → socket_client_cb msg ≡ printed (srpc_new_device (p_data msg))
unfolding socket_client_cb srpc_process_incoming
socket_client_cb_new msg h = rw h refl

p_data-device_message_of :
    (ex : EpInfoExtended)
    → length (device_payload ex) ≤ 128
    → p_data (device_message_of ex)
      ≡ device_payload ex ++ take (128 - length (device_payload ex)) (replicate 128 0)
unfolding device_message_of
p_data-device_message_of ex h = take-append 128 (device_payload ex) (replicate 128 0) h

socket_client_cb-device_message_of :
    (ex : EpInfoExtended)
    → IsShown ex
    → socket_client_cb (device_message_of ex) ≡ some (line_of ex.ep_info)
socket_client_cb-device_message_of ex (h, short) =
    let z : Bytes = take (128 - length (device_payload ex)) (replicate 128 0) in
    let fits : length (device_payload ex) ≤ 128 =
      omega (arith, short, length-device_payload ex h.0) in
    socket_client_cb_new (device_message_of ex) (unfold device_message_of in refl)
    ∙ ap (λ p. printed (srpc_new_device p))
        (p_data-device_message_of ex fits ∙ device_payload-append ex z)
    ∙ ap printed (srpc_new_device-payload_of ex z h)

-- The server's messages about devices; `none`: one of them does not fit its block.
abbrev pub and_messages : Option Bytes → Option (List Bytes) → Option (List Bytes)
and_messages none ms = none
and_messages (some m) none = none
and_messages (some m) (some ms) = some (m ∷ ms)

abbrev pub device_messages : System → List EpInfoExtended → Option (List Bytes)
device_messages sys [] = some []
device_messages sys (ex ∷ exs) = and_messages (srpc_parse_ep_info sys ex) (device_messages sys exs)

-- What the client prints for messages, one after the other.
abbrev pub and_printed : Option Bytes → Option Bytes → Option Bytes
and_printed none rest = none
and_printed (some line) none = none
and_printed (some line) (some rest) = some (line ++ rest)

abbrev pub print_all : List Bytes → Option Bytes
print_all [] = some []
print_all (m ∷ ms) = and_printed (socket_client_cb m) (print_all ms)

abbrev pub lines_of : List EpInfoExtended → Bytes
lines_of [] = []
lines_of (ex ∷ exs) = line_of ex.ep_info ++ lines_of exs

device_messages_lem :
    (sys : System) (exs : List EpInfoExtended)
    → All IsShown exs
    → device_messages sys exs ≡ some (map device_message_of exs)
device_messages_lem sys [] h = refl
device_messages_lem sys (ex ∷ exs) h =
    rw (srpc_parse_ep_info_lem sys ex h.0.0.0, device_messages_lem sys exs h.1) refl

print_all-device_message_of :
    (exs : List EpInfoExtended)
    → All IsShown exs
    → print_all (map device_message_of exs) ≡ some (lines_of exs)
print_all-device_message_of [] h = refl
print_all-device_message_of (ex ∷ exs) h =
    rw (socket_client_cb-device_message_of ex h.0, print_all-device_message_of exs h.1) refl

-- If the messages that the server makes about devices are those that the rounds of a listing client
-- brought, each list handled before the next is handed over, and the receiving thread has nothing
-- left in its buffer and is between two rounds, then the handling thread alone can go on until a
-- line for each device has been printed, in their order, with the device's own numbers, address and
-- name. Conditions: every device has an IEEE address of eight bytes, sixteen-bit numbers and a name
-- of at most 106 characters; the rounds, the lock and the wait are as for the delivery of messages.
pub listed_lem :
    (sys : System) (socket_buf : Bytes) (n : Option ℕ) (exs : List EpInfoExtended) (ms : List Bytes)
    (c : SocketClient)
    → All IsShown exs
    → device_messages sys exs ≡ some ms
    → Reach IsPrompt (started socket_buf n) ms c
    → is_between c.rx ≡ true
    → c.rx_buf ≡ []
    → (d : SocketClient) × Reach IsOfHandler c [] d × (print_all d.handled ≡ some (lines_of exs))
listed_lem sys socket_buf n exs ms c h made r b none_left =
    let (d, r', handled) = handles_all socket_buf n r b none_left in
    let same : some ms ≡ some (map device_message_of exs) =
      sym made ∙ device_messages_lem sys exs h in
    let told : ms ≡ map device_message_of exs = cc in
    (d, r', ap print_all (handled ∙ told) ∙ print_all-device_message_of exs h)
