-- ===== src/SimpleDb/Fields/Hex.antt =====
-- A field of bytes printed in base 16 with colons is read back.
use mathlib.Core.List.{reverse}
use lighting_gateway.Prelude.{
  le→ltb, ℕ, ◌%◌, ◌&&◌, ◌/◌, ◌<◌, ◌==◌, ◌^◌, ◌∙◌, ◌∷◌, ◌≡◌, All, Bool, [], ap, arith, false, length,
  ltb, refl, some, suc, true,
}
use lighting_gateway.Prelude.Reading.{Bytes}
use lighting_gateway.SimpleDb.Fields.{
  Parser, hex_step, drop_spaces, is_space, is_x, strtoul, strtoul_result, with_sign, based,
  in_range, digit, next_field, sdb_txt_parser_move_to_next_field, hex_separator, hex_byte, hex_loop,
  hex_result, sdb_txt_parser_get_hex_field,
}
use lighting_gateway.SimpleDb.Fields.Numbers.{hex, hex2, at, number-hex2, leb-above}

-- `%02X:%02X:…`, as devListComposeRecord prints an address.
abbrev pub print_hex : ℕ → Bytes → Bytes → Bytes
print_hex b [] rest = hex2 b rest
print_hex b (c ∷ bs) rest = hex2 b (0x3A ∷ print_hex c bs rest)

is_space-hex : (d : ℕ) → d < 16 → is_space (hex d) ≡ false
is_space-hex d h = ground arith

minus-hex : (d : ℕ) → d < 16 → (hex d == 0x2D) ≡ false
minus-hex d h = ground arith

plus-hex : (d : ℕ) → d < 16 → (hex d == 0x2B) ≡ false
plus-hex d h = ground arith

is_x-hex : (d : ℕ) → d < 16 → is_x (hex d) ≡ false
is_x-hex d h = ground arith

and_false : (b : Bool) → (b && false) ≡ false
and_false true = refl
and_false false = refl

with_sign-hex2 :
    (b c : ℕ) (rest : Bytes)
    → ltb (digit c) 16 ≡ false
    → b < 256
    → with_sign 16 (hex2 b (c ∷ rest)) ≡ (false, some (b, c ∷ rest))
unfolding with_sign based
with_sign-hex2 b c rest stop h =
    rw
      (
        minus-hex (b / 16 % 16) (omega arith),
        plus-hex (b / 16 % 16) (omega arith),
        is_x-hex (b % 16) (omega arith),
        and_false (hex (b / 16 % 16) == 0x30),
      )
      (ap (λ r. (false, r)) (number-hex2 b c rest stop h))

strtoul-hex2 :
    (b c f : ℕ) (start rest : Bytes)
    → drop_spaces start ≡ hex2 b (c ∷ rest)
    → ltb (digit c) 16 ≡ false
    → b < 256
    → strtoul 16 (at start f) ≡ (b, at (c ∷ rest) f)
unfolding strtoul strtoul_result in_range
strtoul-hex2 b c f start rest here stop h =
    ap (strtoul_result (at start f)) (ap (with_sign 16) here ∙ with_sign-hex2 b c rest stop h)
    ∙ rw (leb-above b (2 ^ 32) (omega arith)) refl

abbrev pub AreBytes : Bytes → Type 0
AreBytes bs = All (λ b. b < 256) bs

pub drop_spaces-print_hex :
    (b : ℕ) (bs rest : Bytes) → drop_spaces (print_hex b bs rest) ≡ print_hex b bs rest
drop_spaces-print_hex b [] rest = rw (is_space-hex (b / 16 % 16) (omega arith)) refl
drop_spaces-print_hex b (c ∷ bs) rest = rw (is_space-hex (b / 16 % 16) (omega arith)) refl

hex_byte-hex2 :
    (n b c f : ℕ) (start rest : Bytes)
    → drop_spaces start ≡ hex2 b (c ∷ rest)
    → ltb (digit c) 16 ≡ false
    → b < 256
    → hex_byte n (strtoul 16 (at start f)) ≡ (some b, hex_separator n (at (c ∷ rest) f))
unfolding hex_byte
hex_byte-hex2 n b c f start rest here stop small =
    ap (hex_byte n) (strtoul-hex2 b c f start rest here stop small)
    ∙ rw (le→ltb b 0xFF (omega arith)) refl

hex_loop-step :
    (n b f : ℕ) (start : Bytes) (q : Parser)
    → hex_byte n (strtoul 16 (at start f)) ≡ (some b, q)
    → hex_loop (suc n) (at start f) ≡ hex_step (some b, q) (hex_loop n q)
unfolding hex_loop
hex_loop-step n b f start q e = ap (λ r. hex_step r (hex_loop n r.1)) e

hex_loop-print_hex :
    (b : ℕ) (bs : Bytes) (f : ℕ) (start rest : Bytes)
    → drop_spaces start ≡ print_hex b bs (0x20 ∷ rest)
    → AreBytes (b ∷ bs)
    → hex_loop (suc (length bs)) (at start f) ≡ (b ∷ bs, at (0x20 ∷ rest) f)
unfolding hex_loop hex_separator
hex_loop-print_hex b [] f start rest here (small, ok) =
    hex_loop-step 0 b f start (at (0x20 ∷ rest) f)
      (hex_byte-hex2 0 b 0x20 f start rest here refl small)
hex_loop-print_hex b (c ∷ bs) f start rest here (small, ok) =
    let later = print_hex c bs (0x20 ∷ rest) in
    hex_loop-step (suc (length bs)) b f start (at later f)
      (hex_byte-hex2 (suc (length bs)) b 0x3A f start later here refl small)
    ∙ ap (hex_step (some b, at later f))
        (hex_loop-print_hex c bs f later rest (drop_spaces-print_hex c bs (0x20 ∷ rest)) ok)

-- Parsing a hexadecimal field of one or more bytes, printed with two digits each and colons between
-- them, behind white space and before a space and a comma, gives the bytes in the reverse order of
-- the text and goes on behind the comma, if no error was met before and errno is not ERANGE.
pub sdb_txt_parser_get_hex_field-print_hex :
    (b : ℕ) (bs : Bytes) (f : ℕ) (start rest : Bytes)
    → drop_spaces start ≡ print_hex b bs (0x20 ∷ 0x2C ∷ rest)
    → AreBytes (b ∷ bs)
    → sdb_txt_parser_get_hex_field (suc (length bs)) (at start f)
      ≡ (reverse (b ∷ bs), at rest (suc f))
unfolding sdb_txt_parser_get_hex_field hex_result sdb_txt_parser_move_to_next_field next_field
sdb_txt_parser_get_hex_field-print_hex b bs f start rest here ok =
    rw (hex_loop-print_hex b bs f start (0x2C ∷ rest) here ok) refl
