-- ===== src/Soc/Wire/RoundTrip.antt =====
-- A frame of the serial protocol is read back as the request that it carries.
use lighting_gateway.Prelude.{
  ℕ, ◌++◌, ◌<◌, ◌==◌, ◌∷◌, ◌≡◌, ◌≢◌, ap, append_assoc, arith, false, length, refl, some, true,
}
use lighting_gateway.Prelude.Reading.{Bytes, build_uint16_lem, bytes, bytes-append, bytes_all}
use lighting_gateway.Soc.Wire.{
  Request, app, zcl, permit_join, bind, device_info, encode, read_frame, decode, decode_message,
  message, sealed,
}

abbrev pub IsByte : ℕ → Type 0
IsByte b = b < 256

abbrev pub IsWord : ℕ → Type 0
IsWord w = w < 65536

-- The fields of a request fit the places that the protocol has for them. Cluster 0xFFFF marks
-- the commands to the application.
abbrev pub Fits : Request → Type 0
Fits (app command argument) = Unit
Fits (zcl z) = IsWord z.dst_addr × IsWord z.cluster × (z.cluster ≢ 0xFFFF)
Fits (permit_join duration) = Unit
Fits (bind b) =
    IsWord b.src_addr × IsWord b.cluster × (length b.src_ieee ≡ 8) × (length b.dst_ieee ≡ 8)
Fits device_info = Unit

==_refl : (n : ℕ) → (n == n) ≡ true
==_refl n = ground arith

read_frame-sealed :
    (cmd0 cmd1 : ℕ) (payload rest : Bytes)
    → read_frame (sealed (message cmd0 cmd1 payload) ++ rest) ≡ some ((cmd0, cmd1, payload), rest)
unfolding read_frame
read_frame-sealed cmd0 cmd1 payload rest =
    rw (append_assoc payload, bytes-append (length payload) payload _ refl) (rw ==_refl)

decode-sealed :
    (cmd0 cmd1 : ℕ) (payload rest : Bytes)
    → decode (sealed (message cmd0 cmd1 payload) ++ rest)
      ≡ decode_message (some ((cmd0, cmd1, payload), rest))
unfolding decode
decode-sealed cmd0 cmd1 payload rest = ap decode_message (read_frame-sealed cmd0 cmd1 payload rest)

pub decode-encode :
    (r : Request) (rest : Bytes) → Fits r → decode (encode r ++ rest) ≡ some (r, rest)
unfolding encode decode_message
decode-encode (app command argument) rest h = rw decode-sealed (unfold bytes in refl)
decode-encode (zcl z) rest h =
    let content = z.addr_mode ∷ z.frame_control ∷ z.seq ∷ z.command ∷ z.params in
    let other : (z.cluster == 0xFFFF) ≡ false = ground arith in
    rw decode-sealed (
      rw
        (
          decode_message,
          bytes_all (length content) content refl,
          build_uint16_lem z.dst_addr h.0,
          build_uint16_lem z.cluster h.1,
          other,
        )
        refl)
decode-encode (permit_join duration) rest h = rw decode-sealed
decode-encode (bind b) rest h = rw decode-sealed (
    rw
      (
        decode_message,
        bytes-append 8 b.src_ieee _ h.2,
        bytes-append 8 b.dst_ieee _ h.3,
        build_uint16_lem b.src_addr h.0,
        build_uint16_lem b.cluster h.1,
      )
      refl)
decode-encode device_info rest h = rw decode-sealed
