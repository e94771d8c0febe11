-- ===== src/SimpleDb/Lines.antt =====
-- The file as the list of its lines.
use lighting_gateway.Prelude.{
  ℕ, ◌++◌, ◌+◌, ◌<◌, ◌==◌, ◌∙◌, ◌∷◌, ◌≡◌, ◌≢◌, ◌≤◌, All, List, [], ap, append_assoc, arith, drop,
  false, length, length-append, refl, suc, sym, take, true, zero,
}
use lighting_gateway.Prelude.Reading.{Bytes, c_string}
use lighting_gateway.SimpleDb.{fgets, ends_line}

-- A character of a line: no end of a line, and no end of a string.
abbrev pub Plain : ℕ → Type 0
Plain b = (b ≢ 0) × (b ≢ 10)

-- What stands before the end of a line: at least one character, and together they fit the buffer.
abbrev pub IsBody : Bytes → Type 0
IsBody body = All Plain body × (0 < length body) × (length body < 499)

abbrev pub line_of : Bytes → Bytes
line_of body = body ++ 10 ∷ []

abbrev pub file_of : List Bytes → Bytes
file_of [] = []
file_of (b ∷ bs) = line_of b ++ file_of bs

pub fgets-line_of :
    (n : ℕ) (body rest : Bytes)
    → All Plain body
    → length body < n
    → fgets n (line_of body ++ rest) ≡ line_of body
fgets-line_of zero body rest h k = absurd (omega arith)
fgets-line_of (suc n) [] rest h k = refl
fgets-line_of (suc n) (b ∷ body) rest h k =
    let inner : (b == 10) ≡ false = ground (arith, h.0.1) in
    rw (inner, fgets-line_of n body rest h.1 (omega arith)) refl

pub c_string-line_of : (body : Bytes) → All Plain body → c_string (line_of body) ≡ line_of body
c_string-line_of [] h = refl
c_string-line_of (b ∷ body) h =
    let inner : (b == 0) ≡ false = ground (arith, h.0.0) in
    rw (inner, c_string-line_of body h.1) refl

pub ends_line-line_of : (body : Bytes) → ends_line (line_of body) ≡ true
ends_line-line_of [] = refl
ends_line-line_of (b ∷ []) = refl
ends_line-line_of (b ∷ c ∷ body) = ends_line-line_of (c ∷ body)

pub length-line_of : (body : Bytes) → length (line_of body) ≡ length body + 1
length-line_of body = length-append body (10 ∷ [])

pub file_of-append : (a b : List Bytes) → file_of (a ++ b) ≡ file_of a ++ file_of b
file_of-append [] b = refl
file_of-append (x ∷ a) b =
    ap (λ l. line_of x ++ l) (file_of-append a b)
    ∙ sym (append_assoc (line_of x) (file_of a) (file_of b))

pub drop-length : (pre post : Bytes) → drop (length pre) (pre ++ post) ≡ post
drop-length [] post = refl
drop-length (x ∷ pre) post = drop-length pre post

pub take-length : (pre post : Bytes) → take (length pre) (pre ++ post) ≡ pre
take-length [] post = refl
take-length (x ∷ pre) post = ap (λ l. x ∷ l) (take-length pre post)

-- There are no more lines than bytes.
pub lines_le : (ls : List Bytes) → length ls ≤ length (file_of ls)
lines_le [] = omega arith
lines_le (b ∷ ls) =
    omega (arith, lines_le ls, length-append (line_of b) (file_of ls), length-append b (10 ∷ []))
