-- ===== src/SimpleDb/Fields/Characters.antt =====
-- Printed numbers have no end of a line and no end of a string.
use lighting_gateway.Prelude.{
  ℕ, ◌%◌, ◌&&◌, ◌*◌, ◌++◌, ◌+◌, ◌/◌, ◌<◌, ◌==◌, ◌∷◌, ◌≡◌, All, Bool, [], arith, false, length, not,
  refl, true,
}
use lighting_gateway.Prelude.Reading.{Bytes}
use lighting_gateway.SimpleDb.Lines.{Plain}
use lighting_gateway.SimpleDb.Fields.Numbers.{hex, hex2, hex4}
use lighting_gateway.SimpleDb.Fields.Hex.{print_hex}

hex-Plain : (d : ℕ) → d < 16 → Plain (hex d)
hex-Plain d h = (ground arith, ground arith)

pub hex2-Plain : (b : ℕ) (rest : Bytes) → All Plain rest → All Plain (hex2 b rest)
hex2-Plain b rest h = (hex-Plain (b / 16 % 16) (omega arith), (hex-Plain (b % 16) (omega arith), h))

pub hex4-Plain : (w : ℕ) (rest : Bytes) → All Plain rest → All Plain (hex4 w rest)
hex4-Plain w rest h = hex2-Plain (w / 256 % 256) (hex2 (w % 256) rest) (hex2-Plain (w % 256) rest h)

abbrev pub is_plain : Bytes → Bool
is_plain [] = true
is_plain (b ∷ bs) = not (b == 0) && not (b == 10) && is_plain bs

-- The constant parts of a line.
pub lead-Plain :
    (lead rest : Bytes) → is_plain lead ≡ true → All Plain rest → All Plain (lead ++ rest)
lead-Plain [] rest e h = h
lead-Plain (b ∷ lead) rest e h =
    let parts : ((b == 0) ≡ false) × ((b == 10) ≡ false) × (is_plain lead ≡ true) = ground arith in
    ((ground arith, ground arith), lead-Plain lead rest parts.2 h)

pub print_hex-Plain : (b : ℕ) (bs rest : Bytes) → All Plain rest → All Plain (print_hex b bs rest)
print_hex-Plain b [] rest h = hex2-Plain b rest h
print_hex-Plain b (c ∷ bs) rest h =
    hex2-Plain b (0x3A ∷ print_hex c bs rest)
      (lead-Plain (0x3A ∷ []) (print_hex c bs rest) refl (print_hex-Plain c bs rest h))

pub length-print_hex :
    (b : ℕ) (bs rest : Bytes) → length (print_hex b bs rest) ≡ 3 * length bs + 2 + length rest
length-print_hex b [] rest = omega arith
length-print_hex b (c ∷ bs) rest = omega (arith, length-print_hex c bs rest)
