-- ===== src/SimpleDb/Fields/Written.antt =====
-- The fields that a line is composed of are read back, each up to the next.
use lighting_gateway.Prelude.{
  le→ltb, ℕ, ◌++◌, ◌<◌, ◌==◌, ◌∙◌, ◌∷◌, ◌≡◌, ◌≤◌, Bool-cases, Option-cases, [], ap, arith, false,
  inl, inr, length, ltb, none, refl, some, suc,
}
use lighting_gateway.Prelude.Reading.{Bytes}
use lighting_gateway.SimpleDb.Fields.{
  to_quote, open_quote, quoted_result, drop_spaces, digit, sdb_txt_parser_move_to_next_field,
  next_field, sdb_txt_parser_get_numeric_field, sdb_txt_parser_get_quoted_string,
}
use lighting_gateway.SimpleDb.Fields.Numbers.{
  hex2, hex4, at, number-hex2, number-hex4, get_numeric_field-hex,
}

to_quote-append :
    (name rest : Bytes)
    → to_quote name ≡ none
    → to_quote (name ++ (0x22 ∷ rest)) ≡ some (name, rest)
unfolding to_quote
to_quote-append [] rest h = refl
to_quote-append (b ∷ name) rest h = elim (Bool-cases (b == 0x22)) [
  | inl quote ↦ cc
  | inr other ↦ elim (Option-cases (to_quote name)) [
    | inl plain ↦ rw (other, to_quote-append name rest plain) refl
    | inr (s, found) ↦ ground arith
  ]
]

pub get_quoted_string-name :
    (name rest : Bytes) (field : ℕ)
    → to_quote name ≡ none
    → length name ≤ 32
    → sdb_txt_parser_get_quoted_string 32 (at (0x20 ∷ 0x22 ∷ (name ++ (0x22 ∷ rest))) field)
      ≡ some (name, sdb_txt_parser_move_to_next_field (at rest (suc field)))
unfolding sdb_txt_parser_get_quoted_string open_quote quoted_result
get_quoted_string-name name rest field plain short =
    ap
      (λ q. some (
        quoted_result 32 (at (0x20 ∷ 0x22 ∷ (name ++ (0x22 ∷ rest))) field) (name ++ (0x22 ∷ rest))
          q))
      (to_quote-append name rest plain)
    ∙ rw (le→ltb (length name) 32 short) refl

pub get_address-hex :
    (a f : ℕ) (start more : Bytes)
    → drop_spaces start ≡ 0x30 ∷ 0x78 ∷ hex4 a (0x20 ∷ 0x2C ∷ more)
    → a ≤ 0xFF00
    → sdb_txt_parser_get_numeric_field 2 (at start f) ≡ (a, at more (suc f))
unfolding sdb_txt_parser_move_to_next_field next_field
get_address-hex a f start more here small =
    get_numeric_field-hex 2 a f start (hex4 a (0x20 ∷ 0x2C ∷ more)) (0x20 ∷ 0x2C ∷ more) here
      (number-hex4 a 0x20 (0x2C ∷ more) refl (omega arith)) (omega arith) (le→ltb a 0xFF00 small)

pub get_byte-hex :
    (e f c : ℕ) (start more : Bytes)
    → ltb (digit c) 16 ≡ false
    → drop_spaces start ≡ 0x30 ∷ 0x78 ∷ hex2 e (c ∷ more)
    → e < 256
    → sdb_txt_parser_get_numeric_field 1 (at start f)
      ≡ (e, sdb_txt_parser_move_to_next_field (at (c ∷ more) (suc f)))
get_byte-hex e f c start more stop here small =
    get_numeric_field-hex 1 e f start (hex2 e (c ∷ more)) (c ∷ more) here
      (number-hex2 e c more stop small) (omega arith) (le→ltb e 0xFF (omega arith))
