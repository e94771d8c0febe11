-- ===== src/Prelude/Reading.antt =====
-- Reading a byte buffer through a moving pointer: what is read, and the bytes that are left.
-- `none` is a read past the end of the buffer.
use Prim.Native.Nat.{ℕ, zero, suc, ◌+◌, ◌*◌, ◌/◌, ◌%◌}
use mathlib.Core.Option.{Option, none, some}
use Prim.Native.Nat.{◌<◌}
use mathlib.Core.List.{List, [], ◌∷◌, ◌++◌, append-nil}
use mathlib.Core.Path.{◌≡◌, refl}
use native.Mathlib.Omega.{arith}
use lighting_gateway.Prelude.Lists.{length}
use lighting_gateway.Prelude.Tests.{if◌then◌else◌, ◌==◌}

abbrev pub Bytes : Type 0
Bytes = List ℕ

-- LO_UINT16 and `x & 0x00ff`; HI_UINT16 and `(x & 0xff00) >> 8`.
abbrev pub lo_uint16 : ℕ → ℕ
lo_uint16 a = a % 256

abbrev pub hi_uint16 : ℕ → ℕ
hi_uint16 a = a / 256 % 256

-- BUILD_UINT16
abbrev pub build_uint16 : ℕ → ℕ → ℕ
build_uint16 lo_byte hi_byte = lo_byte % 256 + hi_byte % 256 * 256

abbrev pub Reader {ℓ} : Type ℓ → Type ℓ
Reader A = Bytes → Option (A × Bytes)

module _ {ℓ κ} {A : Type ℓ} {B : Type κ} where
  abbrev continue : Option (A × Bytes) → (A → Reader B) → Option (B × Bytes)
  continue none f = none
  continue (some (a, rest)) f = f a rest

  infixl 5 ◌>>=◌ ◌>>◌
  abbrev pub ◌>>=◌ : Reader A → (A → Reader B) → Reader B
  ◌>>=◌ m f buf = continue (m buf) f

  abbrev pub ◌>>◌ : Reader A → Reader B → Reader B
  m >> n = m >>= λ _. n

abbrev pub pure {ℓ} : {A : Type ℓ} → A → Reader A
pure a buf = some (a, buf)

-- `*p++`
abbrev pub byte : Reader ℕ
byte [] = none
byte (b ∷ buf) = some (b, buf)

-- `BUILD_UINT16(p[0], p[1]); p += 2`
abbrev pub uint16 : Reader ℕ
uint16 = byte >>= λ lo. byte >>= λ hi. pure (build_uint16 lo hi)

-- `n` bytes copied one by one.
unfoldable pub bytes : ℕ → Reader Bytes
bytes zero = pure []
bytes (suc n) = byte >>= λ b. bytes n >>= λ bs. pure (b ∷ bs)

pub bytes-append :
    (n : ℕ) (bs rest : Bytes) → length bs ≡ n → bytes n (bs ++ rest) ≡ some (bs, rest)
unfolding bytes
bytes-append zero [] rest h = refl
bytes-append zero (b ∷ bs) rest h = absurd (omega arith)
bytes-append (suc n) [] rest h = absurd (omega arith)
bytes-append (suc n) (b ∷ bs) rest h = rw (bytes-append n bs rest (omega arith))

pub bytes_all : (n : ℕ) (bs : Bytes) → length bs ≡ n → bytes n bs ≡ some (bs, [])
bytes_all n bs h = rw append-nil at (bytes-append n bs [] h)

pub build_uint16_lem : (w : ℕ) → w < 65536 → build_uint16 (lo_uint16 w) (hi_uint16 w) ≡ w
build_uint16_lem w h = omega arith

-- `p += n`; moving the pointer reads nothing, but what lies past the end cannot be read later.
abbrev pub skip : ℕ → Reader (Unit {0})
skip zero = pure tt
skip (suc n) = λ buf. skip n (elim buf [ [] ↦ [] | b ∷ rest ↦ rest ])

-- The bytes of a C string: those before the first 0.
abbrev pub c_string : Bytes → Bytes
c_string [] = []
c_string (b ∷ bs) = if b == 0 then [] else b ∷ c_string bs
