-- ===== src/DeviceList/Line.antt =====
-- A device that was written is read back, also from a line with the mark of a deleted one.
use mathlib.Core.List.{reverse, reverse-reverse}
use lighting_gateway.Prelude.{
  ℕ, ◌*◌, ◌++◌, ◌+◌, ◌<◌, ◌∙◌, ◌∷◌, ◌≡◌, ◌≤◌, All, All-append, All-reverse_aux, Option, [], ap,
  append_assoc, arith, false, length, length-append, length-reverse_aux, none, refl, some, suc, sym,
}
use lighting_gateway.Prelude.Reading.{Bytes}
use lighting_gateway.Endpoint.{EpInfo}
use lighting_gateway.SimpleDb.Fields.{
  to_quote, sdb_txt_parser_get_hex_field, sdb_txt_parser_get_numeric_field,
  sdb_txt_parser_move_to_next_field, next_field,
}
use lighting_gateway.SimpleDb.Fields.Numbers.{hex2, at, hex4}
use lighting_gateway.SimpleDb.Fields.Hex.{
  print_hex, AreBytes, drop_spaces-print_hex, sdb_txt_parser_get_hex_field-print_hex,
}
use lighting_gateway.SimpleDb.Fields.Written.{get_address-hex, get_byte-hex, get_quoted_string-name}
use lighting_gateway.SimpleDb.Fields.Characters.{
  lead-Plain, hex2-Plain, hex4-Plain, print_hex-Plain, length-print_hex,
}
use lighting_gateway.SimpleDb.Lines.{Plain, line_of}
use lighting_gateway.SimpleDb.Contents.{IsRecord}
use lighting_gateway.SimpleDb.Members.{print_name, name_of}
use lighting_gateway.SimpleDb.Parsing.{value}
use lighting_gateway.DeviceList.{
  field4, field2, print_address, device_text, device_fields, device_numbers,
  dev_list_compose_record, dev_list_parse_record,
}

-- A name that is read back: no empty string, with at most 32 characters, no quote and no end of a line.
abbrev pub IsName : Option Bytes → Type 0
IsName name =
    (name_of (print_name name) ≡ name)
    × (to_quote (print_name name) ≡ none)
    × (length (print_name name) ≤ 32)
    × All Plain (print_name name)

-- A device that is read back.
abbrev pub IsReadable : EpInfo → Type 0
IsReadable e =
    ((length e.ieee_addr ≡ 8) × AreBytes e.ieee_addr)
    × (e.nwk_addr ≤ 0xFF00)
    × (e.endpoint < 256)
    × (e.profile_id ≤ 0xFF00)
    × (e.device_id ≤ 0xFF00)
    × (e.version < 256)
    × (e.status < 256)
    × (e.flags ≡ 0)
    × IsName e.device_name

get_field4 :
    (w f : ℕ) (more : Bytes)
    → w ≤ 0xFF00
    → sdb_txt_parser_get_numeric_field 2 (at (field4 w more) f) ≡ (w, at more (suc f))
get_field4 w f more h = get_address-hex w f (field4 w more) more refl h

get_field2 :
    (b f : ℕ) (more : Bytes)
    → b < 256
    → sdb_txt_parser_get_numeric_field 1 (at (field2 b more) f) ≡ (b, at more (suc f))
unfolding sdb_txt_parser_move_to_next_field next_field
get_field2 b f more h = get_byte-hex b f 0x20 (field2 b more) (0x2C ∷ more) refl refl h

get_hex_field-address :
    (l : Bytes) (f : ℕ) (rest : Bytes)
    → length l ≡ 8
    → AreBytes l
    → sdb_txt_parser_get_hex_field 8 (
        at
          (0x20 ∷ 0x20 ∷ 0x20 ∷ 0x20 ∷ 0x20 ∷ 0x20 ∷ 0x20 ∷ print_address l (0x20 ∷ 0x2C ∷ rest))
          f)
      ≡ (reverse l, at rest (suc f))
get_hex_field-address [] f rest len h = absurd (omega arith)
get_hex_field-address (b ∷ bs) f rest len h =
    let start = print_hex b bs (0x20 ∷ 0x2C ∷ rest) in
    ap
      (λ n.
        sdb_txt_parser_get_hex_field n
          (at (0x20 ∷ 0x20 ∷ 0x20 ∷ 0x20 ∷ 0x20 ∷ 0x20 ∷ 0x20 ∷ start) f))
      (sym len)
    ∙ sdb_txt_parser_get_hex_field-print_hex b bs f
        (0x20 ∷ 0x20 ∷ 0x20 ∷ 0x20 ∷ 0x20 ∷ 0x20 ∷ 0x20 ∷ start) rest
        (drop_spaces-print_hex b bs (0x20 ∷ 0x2C ∷ rest)) h

device_fields-text :
    (e : EpInfo) → IsReadable e → device_fields (at (device_text e (0x0A ∷ [])) 0) ≡ some (value e)
unfolding device_fields device_text sdb_txt_parser_move_to_next_field next_field
device_fields-text e ((len, ok), hn, he, hp, hd, hv, hs, flags, (named, plain, short, _)) =
    let name = print_name e.device_name in
    let n7 = 0x20 ∷ 0x22 ∷ (name ++ (0x22 ∷ 0x0A ∷ [])) in
    let n6 = field2 e.status n7 in
    let n5 = field2 e.version n6 in
    let n4 = field4 e.device_id n5 in
    let n3 = field4 e.profile_id n4 in
    let n2 = field2 e.endpoint n3 in
    let n1 = field4 e.nwk_addr n2 in
    rw
      (
        get_hex_field-address (reverse e.ieee_addr) 0 n1
            (omega (arith, len, length-reverse_aux e.ieee_addr []))
            (All-reverse_aux (λ b. b < 256) e.ieee_addr [] ok tt),
        get_field4 e.nwk_addr 1 n2 hn,
        get_field2 e.endpoint 2 n3 he,
        get_field4 e.profile_id 3 n4 hp,
        get_field4 e.device_id 4 n5 hd,
        get_field2 e.version 5 n6 hv,
        get_field2 e.status 6 n7 hs,
        get_quoted_string-name name (0x0A ∷ []) 7 plain short,
        reverse-reverse e.ieee_addr,
        named,
        flags,
      )
      refl

-- What stands on the line.
abbrev pub device_body : EpInfo → Bytes
device_body e = 0x20 ∷ device_text e []

print_hex-append :
    (b : ℕ) (bs rest tail : Bytes) → print_hex b bs (rest ++ tail) ≡ print_hex b bs rest ++ tail
print_hex-append b [] rest tail = refl
print_hex-append b (c ∷ bs) rest tail =
    ap (λ l. hex2 b (0x3A ∷ l)) (print_hex-append c bs rest tail)

print_address-append :
    (bs rest tail : Bytes) → print_address bs (rest ++ tail) ≡ print_address bs rest ++ tail
print_address-append [] rest tail = refl
print_address-append (b ∷ bs) rest tail = print_hex-append b bs rest tail

device_text-append : (e : EpInfo) (tail : Bytes) → device_text e tail ≡ device_text e [] ++ tail
unfolding device_text
device_text-append e tail =
    let lead = λ (t : Bytes). 0x20 ∷ 0x20 ∷ 0x20 ∷ 0x20 ∷ 0x20 ∷ 0x20 ∷ 0x20 ∷ t in
    let name = print_name e.device_name in
    ap (λ t. lead (print_address (reverse e.ieee_addr) (device_numbers e t)))
      (sym (append_assoc name (0x22 ∷ []) tail))
    ∙ ap lead
        (print_address-append (reverse e.ieee_addr) (device_numbers e (name ++ (0x22 ∷ []))) tail)

pub compose-device_body : (e : EpInfo) → dev_list_compose_record e ≡ line_of (device_body e)
unfolding dev_list_compose_record
compose-device_body e = ap (λ t. 0x20 ∷ t) (device_text-append e (0x0A ∷ []))

pub parse-device_body :
    (e : EpInfo) (mark : ℕ)
    → IsReadable e
    → dev_list_parse_record false (mark ∷ (device_text e [] ++ (0x0A ∷ []))) ≡ some (value e)
unfolding dev_list_parse_record
parse-device_body e mark h =
    ap (λ t. device_fields (at t 0)) (sym (device_text-append e (0x0A ∷ [])))
    ∙ device_fields-text e h

print_address-Plain : (bs rest : Bytes) → All Plain rest → All Plain (print_address bs rest)
print_address-Plain [] rest h = h
print_address-Plain (b ∷ bs) rest h = print_hex-Plain b bs rest h

length-print_address :
    (bs rest : Bytes) → length (print_address bs rest) ≤ 3 * length bs + length rest
length-print_address [] rest = omega arith
length-print_address (b ∷ bs) rest = omega (arith, length-print_hex b bs rest)

field4-Plain : (w : ℕ) (rest : Bytes) → All Plain rest → All Plain (field4 w rest)
field4-Plain w rest h =
    let more = 0x20 ∷ 0x2C ∷ rest in
    lead-Plain (0x20 ∷ 0x30 ∷ 0x78 ∷ []) (hex4 w more) refl
      (hex4-Plain w more (lead-Plain (0x20 ∷ 0x2C ∷ []) rest refl h))

field2-Plain : (b : ℕ) (rest : Bytes) → All Plain rest → All Plain (field2 b rest)
field2-Plain b rest h =
    let more = 0x20 ∷ 0x2C ∷ rest in
    lead-Plain (0x20 ∷ 0x30 ∷ 0x78 ∷ []) (hex2 b more) refl
      (hex2-Plain b more (lead-Plain (0x20 ∷ 0x2C ∷ []) rest refl h))

device_numbers-Plain :
    (e : EpInfo) (named : Bytes) → All Plain named → All Plain (device_numbers e named)
device_numbers-Plain e named h =
    let n6 = 0x20 ∷ 0x22 ∷ named in
    let n5 = field2 e.status n6 in
    let n4 = field2 e.version n5 in
    let n3 = field4 e.device_id n4 in
    let n2 = field4 e.profile_id n3 in
    let n1 = field2 e.endpoint n2 in
    let h6 = lead-Plain (0x20 ∷ 0x22 ∷ []) named refl h in
    let h4 = field2-Plain e.version n5 (field2-Plain e.status n6 h6) in
    let h2 = field4-Plain e.profile_id n3 (field4-Plain e.device_id n4 h4) in
    lead-Plain (0x20 ∷ 0x2C ∷ []) (field4 e.nwk_addr n1) refl
      (field4-Plain e.nwk_addr n1 (field2-Plain e.endpoint n2 h2))

pub device_body-IsRecord : (e : EpInfo) → IsReadable e → IsRecord (device_body e)
unfolding device_text
device_body-IsRecord e ((len, _), _, _, _, _, _, _, _, (_, _, short, chars)) =
    let bs = reverse e.ieee_addr in
    let named = print_name e.device_name ++ (0x22 ∷ []) in
    let text = device_numbers e named in
    let spaces : Bytes = 0x20 ∷ 0x20 ∷ 0x20 ∷ 0x20 ∷ 0x20 ∷ 0x20 ∷ 0x20 ∷ 0x20 ∷ [] in
    let named-Plain =
      All-append Plain (print_name e.device_name) (0x22 ∷ []) chars
        (lead-Plain (0x22 ∷ []) [] refl tt) in
    (
      (
        lead-Plain spaces (print_address bs text) refl
            (print_address-Plain bs text (device_numbers-Plain e named named-Plain)),
        omega arith,
        omega (
          arith,
          short,
          len,
          length-reverse_aux e.ieee_addr [],
          length-print_address bs text,
          length-append (print_name e.device_name) (0x22 ∷ []),
        ),
      ),
      refl,
    )
