-- ===== src/Soc/Port/Checksum.antt =====
-- `calcFcs` puts the exclusive or of the bytes between the start of frame and the check sum at the
-- end, so that the bytes behind the start of frame add up to zero for the receiver.
use lighting_gateway.Prelude.{
  ℕ, ◌++◌, ◌-◌, ◌<◌, ◌∙◌, ◌∷◌, ◌≡◌, All, [], ap, append_assoc, arith, bit_xor, bit_xor-lt,
  bit_xor-zero, bit_xor_self, get_or, length, length-append, refl, set, suc, sym,
}
use lighting_gateway.Prelude.Reading.{Bytes}
use lighting_gateway.Soc.Port.{fcs_loop, calc_fcs}

-- The check sum of the serial protocol: the exclusive or of a list of bytes.
abbrev pub xor_onto : ℕ → Bytes → ℕ
xor_onto r [] = r
xor_onto r (b ∷ bs) = xor_onto (bit_xor r b) bs

abbrev pub checksum : Bytes → ℕ
checksum = xor_onto 0

pub xor_onto-append : (r : ℕ) (a b : Bytes) → xor_onto r (a ++ b) ≡ xor_onto (xor_onto r a) b
xor_onto-append r [] b = refl
xor_onto-append r (x ∷ a) b = xor_onto-append (bit_xor r x) a b

get_or-append : (pre : Bytes) (x : ℕ) (post : Bytes) → get_or (pre ++ x ∷ post) (length pre) 0 ≡ x
get_or-append [] x post = refl
get_or-append (y ∷ pre) x post = get_or-append pre x post

-- The loop reads what stands behind the first `idx` bytes.
fcs_loop-xor_onto :
    (body pre msg : Bytes) (r : ℕ)
    → msg ≡ pre ++ body
    → fcs_loop msg (length body) (length pre) r ≡ xor_onto r body
unfolding fcs_loop
fcs_loop-xor_onto [] pre msg r e = refl
fcs_loop-xor_onto (b ∷ body) pre msg r e =
    let g : get_or msg (length pre) 0 ≡ b = rw e (get_or-append pre b body) in
    let count : length (pre ++ b ∷ []) ≡ suc (length pre) =
      omega (arith, length-append pre (b ∷ [])) in
    let ih =
      fcs_loop-xor_onto body (pre ++ b ∷ []) msg (bit_xor r b)
        (e ∙ sym (append_assoc pre (b ∷ []) body)) in
    ap (λ x. fcs_loop msg (length body) (suc (length pre)) (bit_xor r x)) g ∙ (rw count at ih)

set_last : (pre : Bytes) (x v : ℕ) → set (pre ++ x ∷ []) (length pre) v ≡ pre ++ v ∷ []
set_last [] x v = refl
set_last (y ∷ pre) x v = ap (◌∷◌ y) (set_last pre x v)

-- For an array of a start byte, a body and a zero placeholder, calcFcs replaces the placeholder by
-- the exclusive or of the body's bytes and changes nothing else.
pub calc_fcs_lem :
    (sof : ℕ) (body : Bytes)
    → calc_fcs (sof ∷ (body ++ 0 ∷ [])) ≡ sof ∷ (body ++ checksum body ∷ [])
unfolding calc_fcs
calc_fcs_lem sof body =
    let all = body ++ 0 ∷ [] in
    let sum : fcs_loop (sof ∷ all) (length all) 1 0 ≡ checksum body =
      fcs_loop-xor_onto all (sof ∷ []) (sof ∷ all) 0 refl
      ∙ xor_onto-append 0 body (0 ∷ [])
      ∙ bit_xor-zero (checksum body) in
    let last : length (sof ∷ all) - 1 ≡ length all = omega arith in
    let size : length all ≡ suc (length body) = omega (arith, length-append body (0 ∷ [])) in
    rw (last, sum, size, set_last) refl

-- What a receiver checks: the bytes behind the start of frame, the check sum with them, have
-- exclusive or 0.
pub checksum_verifies : (body : Bytes) → checksum (body ++ checksum body ∷ []) ≡ 0
checksum_verifies body = xor_onto-append 0 body (checksum body ∷ []) ∙ bit_xor_self (checksum body)

xor_onto-lt : (r : ℕ) (body : Bytes) → r < 256 → All (λ b. b < 256) body → xor_onto r body < 256
xor_onto-lt r [] h all = h
xor_onto-lt r (b ∷ body) h all = xor_onto-lt (bit_xor r b) body (bit_xor-lt 8 r b h all.0) all.1

pub checksum-lt : (body : Bytes) → All (λ b. b < 256) body → checksum body < 256
checksum-lt body all = xor_onto-lt 0 body (omega arith) all
