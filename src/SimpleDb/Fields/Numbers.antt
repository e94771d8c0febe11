-- ===== src/SimpleDb/Fields/Numbers.antt =====
-- Numbers printed in base 16 are read back.
use lighting_gateway.Prelude.{
  if◌then◌else◌, lt→ltb, ℕ, ◌%◌, ◌*◌, ◌+◌, ◌-◌, ◌/◌, ◌<◌, ◌^◌, ◌∙◌, ◌∷◌, ◌≡◌, ap, arith, false, leb,
  length, ltb, refl, some, suc, true,
}
use lighting_gateway.Prelude.Reading.{Bytes}
use lighting_gateway.SimpleDb.Fields.{
  digit, digits, number, Parser, fail, drop_spaces, based, with_sign, in_range, strtoul_result,
  strtoul, sdb_txt_parser_move_to_next_field, numeric_result, sdb_txt_parser_get_numeric_field,
}

-- `%X` of one digit, and `%02X` and `%04X`.
abbrev pub hex : ℕ → ℕ
hex d = if ltb d 10 then 48 + d else 55 + d

abbrev pub hex2 : ℕ → Bytes → Bytes
hex2 b rest = hex (b / 16 % 16) ∷ hex (b % 16) ∷ rest

abbrev pub hex4 : ℕ → Bytes → Bytes
hex4 w rest = hex2 (w / 256 % 256) (hex2 (w % 256) rest)

pub digit-hex : (d : ℕ) → d < 16 → digit (hex d) ≡ d
digit-hex d h = ground arith

digits-hex :
    (value d : ℕ) (rest : Bytes)
    → d < 16
    → digits 16 value (hex d ∷ rest) ≡ digits 16 (value * 16 + d) rest
digits-hex value d rest h = rw (digit-hex d h, lt→ltb d 16 h) refl

number-two :
    (x y c : ℕ) (rest : Bytes)
    → ltb (digit c) 16 ≡ false
    → x < 16
    → y < 16
    → number 16 (hex x ∷ hex y ∷ c ∷ rest) ≡ some (x * 16 + y, c ∷ rest)
number-two x y c rest stop hx hy =
    rw (digit-hex x hx, lt→ltb x 16 hx, digits-hex x y (c ∷ rest) hy, stop) refl

pub number-hex2 :
    (b c : ℕ) (rest : Bytes)
    → ltb (digit c) 16 ≡ false
    → b < 256
    → number 16 (hex2 b (c ∷ rest)) ≡ some (b, c ∷ rest)
number-hex2 b c rest stop h =
    number-two (b / 16 % 16) (b % 16) c rest stop (omega arith) (omega arith)
    ∙ ap (λ v. some (v, c ∷ rest)) (omega arith)

number-four :
    (x y z t c : ℕ) (rest : Bytes)
    → ltb (digit c) 16 ≡ false
    → x < 16
    → y < 16
    → z < 16
    → t < 16
    → number 16 (hex x ∷ hex y ∷ hex z ∷ hex t ∷ c ∷ rest)
      ≡ some (((x * 16 + y) * 16 + z) * 16 + t, c ∷ rest)
number-four x y z t c rest stop hx hy hz ht =
    rw
      (
        digit-hex x hx,
        lt→ltb x 16 hx,
        digits-hex x y (hex z ∷ hex t ∷ c ∷ rest) hy,
        digits-hex (x * 16 + y) z (hex t ∷ c ∷ rest) hz,
        digits-hex ((x * 16 + y) * 16 + z) t (c ∷ rest) ht,
        stop,
      )
      refl

pub number-hex4 :
    (w c : ℕ) (rest : Bytes)
    → ltb (digit c) 16 ≡ false
    → w < 65536
    → number 16 (hex4 w (c ∷ rest)) ≡ some (w, c ∷ rest)
number-hex4 w c rest stop h =
    number-four (w / 256 % 256 / 16 % 16) (w / 256 % 256 % 16) (w % 256 / 16 % 16) (w % 256 % 16) c
      rest stop (omega arith) (omega arith) (omega arith) (omega arith)
    ∙ ap (λ v. some (v, c ∷ rest)) (omega arith)

pub leb-above : (a b : ℕ) → a < b → leb b a ≡ false
leb-above a b h = ground arith

-- A parser that has met no error.
abbrev pub at : Bytes → ℕ → Parser
at rest field = record { rest = rest; code = 0; error_left = 0; field = field; erange = false }

with_sign-hex :
    (start rest more : Bytes) (v : ℕ)
    → drop_spaces start ≡ 0x30 ∷ 0x78 ∷ rest
    → number 16 rest ≡ some (v, more)
    → with_sign 0 (drop_spaces start) ≡ (false, some (v, more))
unfolding with_sign based
with_sign-hex start rest more v here read = rw (here, read) refl

strtoul-hex :
    (start rest more : Bytes) (v field : ℕ)
    → drop_spaces start ≡ 0x30 ∷ 0x78 ∷ rest
    → number 16 rest ≡ some (v, more)
    → v < 2 ^ 32
    → strtoul 0 (at start field) ≡ (v, at more field)
unfolding strtoul strtoul_result in_range
strtoul-hex start rest more v field here read small =
    ap (strtoul_result (at start field)) (with_sign-hex start rest more v here read)
    ∙ rw (leb-above v (2 ^ 32) small) refl

pub get_numeric_field-hex :
    (len v field : ℕ) (start rest more : Bytes)
    → drop_spaces start ≡ 0x30 ∷ 0x78 ∷ rest
    → number 16 rest ≡ some (v, more)
    → v < 2 ^ 32
    → ltb (0xFF * 2 ^ (8 * (len - 1))) v ≡ false
    → sdb_txt_parser_get_numeric_field len (at start field)
      ≡ (v, sdb_txt_parser_move_to_next_field (at more (suc field)))
unfolding sdb_txt_parser_get_numeric_field numeric_result
get_numeric_field-hex len v field start rest more here read small fits =
    rw (strtoul-hex start rest more v field here read small, fits) refl

pub get_numeric_field-large :
    (len v field : ℕ) (start rest more : Bytes)
    → drop_spaces start ≡ 0x30 ∷ 0x78 ∷ rest
    → number 16 rest ≡ some (v, more)
    → v < 2 ^ 32
    → ltb (0xFF * 2 ^ (8 * (len - 1))) v ≡ true
    → sdb_txt_parser_get_numeric_field len (at start field)
      ≡ (0, fail 5 (suc (length more)) (at more field))
unfolding sdb_txt_parser_get_numeric_field numeric_result
get_numeric_field-large len v field start rest more here read small over =
    rw (strtoul-hex start rest more v field here read small, over) refl
