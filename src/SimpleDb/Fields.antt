-- ===== src/SimpleDb/Fields.antt =====
-- The fields of a record (server/Source/SimpleDB.c, `sdb_txt_parser_…`): a pointer moves along the
-- text, and a result code stops it. `unsigned long` has 32 bits.
pub mod Numbers
pub mod Hex
pub mod Written
pub mod Characters
use mathlib.Core.List.{reverse}
use lighting_gateway.Prelude.{
  if◌then◌else◌, ℕ, ◌%◌, ◌&&◌, ◌*◌, ◌+◌, ◌-◌, ◌==◌, ◌^◌, ◌||◌, ◌∷◌, Bool, Option, [], false, leb,
  length, ltb, none, some, suc, true, zero,
}
use lighting_gateway.Prelude.Reading.{Bytes}

-- The text from the pointer on, `result.code`, how many characters stand behind `errorLocation`,
-- `result.field`, and whether `errno` is `ERANGE`.
pub record Parser : Type 0 where
  pub rest : Bytes
  pub code : ℕ
  pub error_left : ℕ
  pub field : ℕ
  pub erange : Bool

abbrev pub fail : ℕ → ℕ → Parser → Parser
fail code left p = record p { code = code; error_left = left }

-- What `strtoul` skips.
abbrev pub is_space : ℕ → Bool
is_space b = (b == 0x20) || (leb 9 b && leb b 13)

abbrev pub drop_spaces : Bytes → Bytes
drop_spaces [] = []
drop_spaces (b ∷ rest) = if is_space b then drop_spaces rest else b ∷ rest

-- The value of a digit in any base; 36 for none.
abbrev pub digit : ℕ → ℕ
digit b =
    if leb 48 b && leb b 57
    then b - 48
    else if leb 65 b && leb b 90
    then b - 55
    else if leb 97 b && leb b 122
    then b - 87
    else 36

abbrev pub digits : ℕ → ℕ → Bytes → ℕ × Bytes
digits base value [] = (value, [])
digits base value (b ∷ rest) =
    let more = digits base (value * base + digit b) rest in
    if ltb (digit b) base then more else (value, b ∷ rest)

-- One digit at least.
abbrev pub number : ℕ → Bytes → Option (ℕ × Bytes)
number base [] = none
number base (b ∷ rest) = if ltb (digit b) base then some (digits base (digit b) rest) else none

-- Behind `0x`: without a digit, the number is the 0 before it.
abbrev pub behind_prefix : ℕ → Bytes → Option (ℕ × Bytes) → Option (ℕ × Bytes)
behind_prefix x rest none = some (0, x ∷ rest)
behind_prefix x rest (some r) = some r

abbrev pub is_x : ℕ → Bool
is_x x = (x == 0x78) || (x == 0x58)

-- Base 16, or 0 for the base that the prefix tells.
unfoldable pub based : ℕ → Bytes → Option (ℕ × Bytes)
based base (b ∷ x ∷ rest) =
    if (b == 0x30) && is_x x
    then behind_prefix x rest (number 16 rest)
    else if base == 16
    then number 16 (b ∷ x ∷ rest)
    else if b == 0x30
    then number 8 (b ∷ x ∷ rest)
    else number 10 (b ∷ x ∷ rest)
based base bs = if base == 16 then number 16 bs else number 10 bs

unfoldable pub with_sign : ℕ → Bytes → Bool × Option (ℕ × Bytes)
unfolding based
with_sign base [] = (false, none)
with_sign base (b ∷ rest) =
    if b == 0x2D
    then (true, based base rest)
    else if b == 0x2B
    then (false, based base rest)
    else (false, based base (b ∷ rest))

-- The number, and whether it is out of range; a minus wraps around.
unfoldable pub in_range : Bool → ℕ → ℕ × Bool
in_range minus v =
    if leb (2 ^ 32) v
    then (2 ^ 32 - 1, true)
    else (if minus then (2 ^ 32 - v) % 2 ^ 32 else v, false)

-- `strtoul(*pBuf, pBuf, base)`; without a number the pointer stays.
unfoldable pub strtoul_result : Parser → Bool × Option (ℕ × Bytes) → ℕ × Parser
unfolding in_range
strtoul_result p (minus, none) = (0, p)
strtoul_result p (minus, some (v, rest)) =
    let (w, over) = in_range minus v in (w, record p { rest = rest; erange = p.erange || over })

unfoldable pub strtoul : ℕ → Parser → ℕ × Parser
unfolding with_sign strtoul_result
strtoul base p = strtoul_result p (with_sign base (drop_spaces p.rest))

-- The loop of `sdb_txt_parser_move_to_next_field`, entered with the code for success.
unfoldable pub next_field : Parser → Bytes → Parser
next_field p [] = record p { rest = []; code = 1; error_left = 0 }
next_field p (b ∷ rest) =
    let more = next_field p rest in
    if b == 0x2C
    then record p { rest = rest }
    else if (b == 0x20) || (b == 9) || (b == 10) || (b == 13)
    then more
    else record p { rest = b ∷ rest; code = 2; error_left = suc (length rest) }

unfoldable pub sdb_txt_parser_move_to_next_field : Parser → Parser
unfolding next_field
sdb_txt_parser_move_to_next_field p = if p.code == 0 then next_field p p.rest else p

-- A number of `len` bytes; `isSigned` is FALSE in every call. The last test of the source is never
-- true, as the number was compared before.
unfoldable pub numeric_result : ℕ → ℕ × Parser → ℕ × Parser
unfolding sdb_txt_parser_move_to_next_field
numeric_result len (v, p) =
    if p.erange || ltb (0xFF * 2 ^ (8 * (len - 1))) v
    then (0, fail 5 (suc (length p.rest)) p)
    else (v, sdb_txt_parser_move_to_next_field (record p { field = suc p.field }))

-- The value is 0 where the source leaves the field as it was.
unfoldable pub sdb_txt_parser_get_numeric_field : ℕ → Parser → ℕ × Parser
unfolding strtoul numeric_result
sdb_txt_parser_get_numeric_field len p =
    if p.code == 1
    then (0, fail 3 (length p.rest) p)
    else if p.code == 0
    then numeric_result len (strtoul 0 p)
    else (0, p)

-- The characters up to a quote, and what follows it.
unfoldable pub to_quote : Bytes → Option (Bytes × Bytes)
to_quote [] = none
to_quote (b ∷ rest) =
    let more = to_quote rest in
    if b == 0x22
    then some ([], rest)
    else elim more [ none ↦ none | some (s, left) ↦ some (b ∷ s, left) ]

-- Behind the first quote.
unfoldable pub quoted_result : ℕ → Parser → Bytes → Option (Bytes × Bytes) → Bytes × Parser
unfolding sdb_txt_parser_move_to_next_field
quoted_result size p start none = ([], record p { rest = []; code = 7; error_left = 0 })
quoted_result size p start (some (s, left)) =
    if ltb size (length s)
    then ([], record p { rest = 0x22 ∷ left; code = 8; error_left = length start - size })
    else (s, sdb_txt_parser_move_to_next_field (record p { rest = left; field = suc p.field }))

-- The search for the first quote. `none`: the text ends first, and the pointer moves past its end.
unfoldable pub open_quote : ℕ → Parser → Bytes → Option (Bytes × Parser)
unfolding quoted_result to_quote
open_quote size p [] = none
open_quote size p (b ∷ rest) =
    let more = open_quote size p rest in
    if b == 0x22
    then some (quoted_result size p rest (to_quote rest))
    else if (b == 0x20) || (b == 9)
    then more
    else some ([], record p { rest = b ∷ rest; code = 6; error_left = suc (length rest) })

unfoldable pub sdb_txt_parser_get_quoted_string : ℕ → Parser → Option (Bytes × Parser)
unfolding open_quote
sdb_txt_parser_get_quoted_string size p =
    if p.code == 1
    then some ([], fail 3 (length p.rest) p)
    else if p.code == 0
    then open_quote size p p.rest
    else some ([], p)

-- What follows byte number `n` from the end: a colon, but for the last.
unfoldable pub hex_separator : ℕ → Parser → Parser
hex_separator zero p = p
hex_separator (suc n) p = elim p.rest [
  | [] ↦ fail 4 0 p
  | c ∷ rest ↦ if c == 0x3A then record p { rest = rest } else fail 4 (length p.rest) p
]

unfoldable pub hex_byte : ℕ → ℕ × Parser → Option ℕ × Parser
unfolding hex_separator
hex_byte n (v, p) =
    if p.erange || ltb 0xFF v
    then (none, fail 5 (suc (length p.rest)) p)
    else (some v, hex_separator n p)

-- The byte, and what the later rounds read.
abbrev pub hex_step : Option ℕ × Parser → Bytes × Parser → Bytes × Parser
hex_step (none, p) more = ([], p)
hex_step (some b, p) (bs, q) = (b ∷ bs, q)

-- The bytes in the order of the text; the source stores them from the last place of the field to the
-- first.
unfoldable pub hex_loop : ℕ → Parser → Bytes × Parser
unfolding hex_byte strtoul
hex_loop zero p = ([], p)
hex_loop (suc n) p =
    let read = hex_byte n (strtoul 16 p) in
    let more = hex_loop n read.1 in if p.code == 0 then hex_step read more else ([], p)

unfoldable pub hex_result : Bytes × Parser → Bytes × Parser
unfolding sdb_txt_parser_move_to_next_field
hex_result (bs, p) =
    if p.code == 0
    then (reverse bs, sdb_txt_parser_move_to_next_field (record p { field = suc p.field }))
    else (reverse bs, p)

unfoldable pub sdb_txt_parser_get_hex_field : ℕ → Parser → Bytes × Parser
unfolding hex_result hex_loop
sdb_txt_parser_get_hex_field len p =
    if p.code == 1 then ([], fail 3 (length p.rest) p) else hex_result (hex_loop len p)
