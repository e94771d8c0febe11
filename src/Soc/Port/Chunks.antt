-- ===== src/Soc/Port/Chunks.antt =====
-- `zbSocTransportWrite` hands the port the whole buffer, in pieces of at most eight bytes.
use lighting_gateway.Prelude.{
  if◌then◌else◌, lt→ltb, ℕ, ◌%◌, ◌-◌, ◌<◌, ◌∙◌, ◌∷◌, ◌≡◌, ◌≤◌, All, All-append, Bool-cases, [],
  arith, concat, drop, inl, inr, leb, length, length-drop, length-set, length-take, refl, suc, sym,
  take, take-append-drop, take_all, zero,
}
use lighting_gateway.Prelude.Reading.{Bytes}
use lighting_gateway.Soc.Port.{Soc, transport_loop, fcs_loop, calc_fcs, send}

-- A piece that one call of `write` is handed.
abbrev pub IsChunk : Bytes → Type 0
IsChunk c = (1 ≤ length c) × (length c ≤ 8)

-- What the first call takes.
pub first_chunk :
    (buf : Bytes) → take (if leb 8 (length buf) then 8 else length buf) buf ≡ take 8 buf
first_chunk buf = elim (Bool-cases (leb 8 (length buf))) [
  | inl full ↦ rw full
  | inr short ↦
      rw short (take_all (length buf) buf (omega arith) ∙ sym (take_all 8 buf (ground arith)))
]

pub concat-transport_loop :
    (fuel : ℕ) (buf : Bytes)
    → length buf ≤ fuel
    → concat (transport_loop fuel (length buf) buf) ≡ buf
unfolding transport_loop
concat-transport_loop zero [] h = refl
concat-transport_loop zero (b ∷ buf) h = absurd (omega arith)
concat-transport_loop (suc fuel) [] h = refl
concat-transport_loop (suc fuel) (b ∷ buf) h =
    let all = b ∷ buf in
    let ih =
      rw (length-drop 8 all) at
        (concat-transport_loop fuel (drop 8 all) (omega (arith, length-drop 8 all))) in
    rw (lt→ltb 0 (length all) (omega arith), first_chunk all, ih) (take-append-drop 8 all)

pub All-transport_loop :
    (fuel : ℕ) (buf : Bytes) → All IsChunk (transport_loop fuel (length buf) buf)
unfolding transport_loop
All-transport_loop zero buf = tt
All-transport_loop (suc fuel) [] = tt
All-transport_loop (suc fuel) (b ∷ buf) =
    let all = b ∷ buf in
    let ih = rw (length-drop 8 all) at (All-transport_loop fuel (drop 8 all)) in
    rw (lt→ltb 0 (length all) (omega arith), first_chunk all)
      (((omega (arith, length-take 8 all)), omega (arith, length-take 8 all)), ih)

pub send-IsChunk :
    (cmd : Bytes) (s : Soc)
    → length cmd < 256
    → All IsChunk s.written
    → All IsChunk (send cmd s).written
unfolding send
send-IsChunk cmd s h w =
    let size : length (calc_fcs cmd) ≡ length cmd =
      length-set cmd (length cmd - 1) (fcs_loop cmd (length cmd - 1) 1 0) in
    let small : length cmd % 256 ≡ length (calc_fcs cmd) = omega arith in
    rw small
      (All-append IsChunk s.written _ w (All-transport_loop (length (calc_fcs cmd)) (calc_fcs cmd)))
