-- ===== src/Srpc/Reply/Device.antt =====
-- The message about a device, as a client reads it.
use lighting_gateway.Prelude.{
  ℕ, ◌%◌, ◌++◌, ◌+◌, ◌-◌, ◌∙◌, ◌∷◌, ◌≡◌, ◌≤◌, Option, [], ap, append-nil, arith, drop, get_or, leb,
  length, length-append, none, refl, some, take-append, take_all, true,
}
use lighting_gateway.Prelude.Reading.{
  Bytes, Reader, build_uint16_lem, byte, bytes, bytes-append, pure, uint16, ◌>>=◌, ◌>>◌,
}
use lighting_gateway.Endpoint.{EpInfo, EpInfoExtended}
use lighting_gateway.Soc.Wire.{word}
use lighting_gateway.Soc.Wire.RoundTrip.{IsWord}
use lighting_gateway.Srpc.{System, filled}
use lighting_gateway.Srpc.Reply.{ep_info_bytes, short_name, srpc_parse_ep_info}

abbrev pub characters : Option Bytes → Bytes
characters none = []
characters (some name) = name

abbrev pub name_of : EpInfo → Bytes
name_of e = characters e.device_name

-- An IEEE address of eight bytes, and a name that a message has room for.
abbrev pub IsDevice : EpInfo → Type 0
IsDevice e = (length e.ieee_addr ≡ 8) × (length (name_of e) ≤ 233)

-- The message behind its two header bytes.
abbrev pub device_payload : EpInfoExtended → Bytes
device_payload ex =
    let e = ex.ep_info in
    word e.nwk_addr (
      e.endpoint
      ∷ word e.profile_id (
          word e.device_id (
            e.version
            ∷ length (name_of e)
            ∷ (name_of e
                ++ (e.status
                    ∷ (e.ieee_addr ++ (ex.type ∷ word ex.prev_nwk_addr (e.flags ∷ []))))))))

unfoldable pub device_message_of : EpInfoExtended → Bytes
device_message_of ex = 0x01 ∷ (22 + length (name_of ex.ep_info)) ∷ device_payload ex

short_name_lem :
    (name : Option Bytes) → length (characters name) ≤ 233 → short_name name ≡ characters name
short_name_lem none h = refl
short_name_lem (some name) h = take_all (length name % 256) name (omega arith)

pub length-device_payload :
    (ex : EpInfoExtended)
    → IsDevice ex.ep_info
    → length (device_payload ex) ≡ 22 + length (name_of ex.ep_info)
length-device_payload ex h =
    let e = ex.ep_info in
    let tail = ex.type ∷ word ex.prev_nwk_addr (e.flags ∷ []) in
    omega (
      arith,
      h.0,
      length-append (name_of e) (e.status ∷ (e.ieee_addr ++ tail)),
      length-append e.ieee_addr tail,
    )

pub filled_exact :
    (sys : System) (bs : Bytes) (size : ℕ) → length bs ≡ size → filled sys size bs ≡ some bs
unfolding filled
filled_exact sys bs size e =
    let room : leb (length bs) size ≡ true = ground arith in
    rw (room, ← e, take-append (length bs) bs (drop (length bs) sys.fresh) (omega arith))
      (let nothing_left : length bs - length bs ≡ 0 = omega arith in
        rw nothing_left (ap some (append-nil bs)))

ep_info_bytes_lem :
    (ex : EpInfoExtended)
    → IsDevice ex.ep_info
    → ep_info_bytes (name_of ex.ep_info) (22 + length (name_of ex.ep_info)) ex
      ≡ device_message_of ex
unfolding ep_info_bytes device_message_of
ep_info_bytes_lem ex h = rw (take_all 8 ex.ep_info.ieee_addr (omega (arith, h.0))) refl

pub srpc_parse_ep_info_lem :
    (sys : System) (ex : EpInfoExtended)
    → IsDevice ex.ep_info
    → srpc_parse_ep_info sys ex ≡ some (device_message_of ex)
unfolding srpc_parse_ep_info
srpc_parse_ep_info_lem sys ex h =
    let e = ex.ep_info in
    let n = 22 + length (name_of e) in
    let size : n % 256 ≡ n = omega (arith, h.1) in
    ap
      (λ name.
        filled sys ((22 + length name) % 256 + 2)
          (ep_info_bytes name ((22 + length name) % 256) ex))
      (short_name_lem e.device_name h.1)
    ∙ ap (λ k. filled sys (k + 2) (ep_info_bytes (name_of e) k ex)) size
    ∙ ap (filled sys (n + 2)) (ep_info_bytes_lem ex h)
    ∙ filled_exact sys (device_message_of ex) (n + 2)
        (unfold device_message_of in omega (arith, length-device_payload ex h))

-- The second byte counts what follows the header.
pub length-device_message_of :
    (ex : EpInfoExtended)
    → IsDevice ex.ep_info
    → length (device_message_of ex) ≡ get_or (device_message_of ex) 1 0 + 2
unfolding device_message_of
length-device_message_of ex h = omega (arith, length-device_payload ex h)

-- The client's reading of a device message, with the fields that it has: everything but the header.
unfoldable pub read_device : Reader EpInfoExtended
read_device = do
  byte
  byte
  nwk_addr ← uint16
  endpoint ← byte
  profile_id ← uint16
  device_id ← uint16
  version ← byte
  name_len ← byte
  name ← bytes name_len
  status ← byte
  ieee_addr ← bytes 8
  type ← byte
  prev_nwk_addr ← uint16
  flags ← byte
  pure (record {
    ep_info = record {
      ieee_addr = ieee_addr;
      nwk_addr = nwk_addr;
      endpoint = endpoint;
      profile_id = profile_id;
      device_id = device_id;
      version = version;
      device_name = some name;
      status = status;
      flags = flags;
    };
    prev_nwk_addr = prev_nwk_addr;
    type = type;
  })

-- The numbers fit the places that the message has for them.
abbrev pub IsNews : EpInfoExtended → Type 0
IsNews ex =
    IsDevice ex.ep_info
    × IsWord ex.ep_info.nwk_addr
    × IsWord ex.ep_info.profile_id
    × IsWord ex.ep_info.device_id
    × IsWord ex.prev_nwk_addr

-- A device without a name has an empty one for the client.
abbrev pub named : EpInfoExtended → EpInfoExtended
named ex = record ex { ep_info = record ex.ep_info { device_name = some (name_of ex.ep_info) } }

read_device-device_message_of :
    (ex : EpInfoExtended) → IsNews ex → read_device (device_message_of ex) ≡ some (named ex, [])
unfolding read_device device_message_of
read_device-device_message_of ex h =
    let e = ex.ep_info in
    rw
      (
        build_uint16_lem e.nwk_addr h.1,
        build_uint16_lem e.profile_id h.2,
        build_uint16_lem e.device_id h.3,
        bytes-append (length (name_of e)) (name_of e) _ refl,
        bytes-append 8 e.ieee_addr _ h.0.0,
        build_uint16_lem ex.prev_nwk_addr h.4,
      )
      refl

-- The message about a device with an IEEE address of eight bytes, a name of at most 233 and
-- sixteen-bit numbers fits its block, its second byte counts what follows the header, and a client
-- that reads it gets every field back and no byte is left over; a device without a name has an
-- empty one.
pub read_device_lem :
    (sys : System) (ex : EpInfoExtended)
    → IsNews ex
    → (msg : Bytes) × (srpc_parse_ep_info sys ex ≡ some msg)
      × (length msg ≡ get_or msg 1 0 + 2)
      × (read_device msg ≡ some (named ex, []))
read_device_lem sys ex h = (
  device_message_of ex,
  srpc_parse_ep_info_lem sys ex h.0,
  length-device_message_of ex h.0,
  read_device-device_message_of ex h,
)
