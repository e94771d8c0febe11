-- ===== src/SimpleDb/Members/Read.antt =====
-- Members that were written are read back.
use lighting_gateway.Prelude.{
  ℕ, ◌*◌, ◌++◌, ◌<◌, ◌∷◌, ◌≡◌, ◌≤◌, All, List, [], ap, arith, false, length, refl, suc, zero,
}
use lighting_gateway.Prelude.Reading.{Bytes}
use lighting_gateway.SimpleDb.Lines.{Plain}
use lighting_gateway.SimpleDb.Fields.Characters.{lead-Plain, hex2-Plain, hex4-Plain}
use lighting_gateway.SimpleDb.Members.{print_members, parse_members}
use lighting_gateway.SimpleDb.Fields.Written.{get_address-hex, get_byte-hex}
use lighting_gateway.SimpleDb.Fields.{
  Parser, drop_spaces, sdb_txt_parser_move_to_next_field, next_field,
  sdb_txt_parser_get_numeric_field,
}
use lighting_gateway.SimpleDb.Fields.Numbers.{hex2, hex4, at}

get_endpoint-members :
    (e f : ℕ) (start : Bytes) (ms : List (ℕ × ℕ))
    → drop_spaces start ≡ 0x30 ∷ 0x78 ∷ hex2 e (print_members ms)
    → e < 256
    → sdb_txt_parser_get_numeric_field 1 (at start f)
      ≡ (e, sdb_txt_parser_move_to_next_field (at (print_members ms) (suc f)))
get_endpoint-members e f start [] here small = get_byte-hex e f 0x0A start [] refl here small
get_endpoint-members e f start (m ∷ ms) here small = get_byte-hex e f 0x20 start _ refl here small

-- The addresses that a line is read with.
abbrev pub AreReadable : List (ℕ × ℕ) → Type 0
AreReadable [] = Unit
AreReadable ((address, endpoint) ∷ ms) = (address ≤ 0xFF00) × (endpoint < 256) × AreReadable ms

abbrev pub fields_of : List (ℕ × ℕ) → ℕ → ℕ
fields_of [] f = f
fields_of (m ∷ ms) f = fields_of ms (suc (suc f))

abbrev pub end_of : ℕ → Parser
end_of f = record { rest = []; code = 1; error_left = 0; field = f; erange = false }

pub parse_members-print :
    (n : ℕ) (ms : List (ℕ × ℕ)) (f : ℕ)
    → AreReadable ms
    → length ms ≤ n
    → parse_members n (sdb_txt_parser_move_to_next_field (at (print_members ms) f))
      ≡ (ms, end_of (fields_of ms f))
unfolding parse_members sdb_txt_parser_move_to_next_field next_field
parse_members-print zero [] f ok h = refl
parse_members-print zero (m ∷ ms) f ok h = absurd (omega arith)
parse_members-print (suc n) [] f ok h = refl
parse_members-print (suc n) ((a, e) ∷ ms) f (ha, he, ok) h =
    rw
      (
        get_address-hex a f
            (0x20
              ∷ 0x30
              ∷ 0x78
              ∷ hex4 a (0x20 ∷ 0x2C ∷ 0x20 ∷ 0x30 ∷ 0x78 ∷ hex2 e (print_members ms)))
            (0x20 ∷ 0x30 ∷ 0x78 ∷ hex2 e (print_members ms)) refl ha,
        get_endpoint-members e (suc f) (0x20 ∷ 0x30 ∷ 0x78 ∷ hex2 e (print_members ms)) ms refl he,
        parse_members-print n ms (suc (suc f)) ok (omega arith),
      )
      refl

-- Members without the end of the line.
abbrev pub members_body : List (ℕ × ℕ) → Bytes
members_body [] = []
members_body ((address, endpoint) ∷ ms) =
    0x20
    ∷ 0x2C
    ∷ 0x20
    ∷ 0x30
    ∷ 0x78
    ∷ hex4 address (0x20 ∷ 0x2C ∷ 0x20 ∷ 0x30 ∷ 0x78 ∷ hex2 endpoint (members_body ms))

pub print_members-body : (ms : List (ℕ × ℕ)) → print_members ms ≡ members_body ms ++ 0x0A ∷ []
print_members-body [] = refl
print_members-body ((address, endpoint) ∷ ms) =
    ap
      (λ l.
        0x20
        ∷ 0x2C
        ∷ 0x20
        ∷ 0x30
        ∷ 0x78
        ∷ hex4 address (0x20 ∷ 0x2C ∷ 0x20 ∷ 0x30 ∷ 0x78 ∷ hex2 endpoint l))
      (print_members-body ms)

pub members_body-Plain : (ms : List (ℕ × ℕ)) → All Plain (members_body ms)
members_body-Plain [] = tt
members_body-Plain ((address, endpoint) ∷ ms) =
    let later = hex2 endpoint (members_body ms) in
    lead-Plain (0x20 ∷ 0x2C ∷ 0x20 ∷ 0x30 ∷ 0x78 ∷ [])
      (hex4 address (0x20 ∷ 0x2C ∷ 0x20 ∷ 0x30 ∷ 0x78 ∷ later)) refl
      (hex4-Plain address (0x20 ∷ 0x2C ∷ 0x20 ∷ 0x30 ∷ 0x78 ∷ later) (
        lead-Plain (0x20 ∷ 0x2C ∷ 0x20 ∷ 0x30 ∷ 0x78 ∷ []) later refl
          (hex2-Plain endpoint (members_body ms) (members_body-Plain ms))))

pub length-members_body : (ms : List (ℕ × ℕ)) → length (members_body ms) ≡ 16 * length ms
length-members_body [] = refl
length-members_body (m ∷ ms) = omega (arith, length-members_body ms)
