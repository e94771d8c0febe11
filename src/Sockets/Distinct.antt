-- ===== src/Sockets/Distinct.antt =====
-- Lists of sockets in which none stands twice.
use lighting_gateway.Prelude.{
  ◌++◌, ◌∙◌, ◌∷◌, ◌≡◌, All, Bool-cases, List, [], arith, false, inl, inr, refl,
}
use lighting_gateway.Prelude.Int.{ℤ, eq_ℤ, eq_ℤ_comm, eq_ℤ_refl}
use lighting_gateway.Sockets.Records.{erase, mem}

-- No socket stands in the list twice.
abbrev pub Distinct : List ℤ → Type 0
Distinct [] = Unit
Distinct (fd ∷ fds) = (mem fd fds ≡ false) × Distinct fds

abbrev pub Absent : List ℤ → ℤ → Type 0
Absent kept fd = mem fd kept ≡ false

mem_last :
    (kept : List ℤ) (fd x : ℤ)
    → mem fd kept ≡ false
    → eq_ℤ x fd ≡ false
    → mem fd (kept ++ x ∷ []) ≡ false
mem_last [] fd x h other = ground arith
mem_last (k ∷ kept) fd x h other = ground (arith, mem_last kept fd x)

pub All-Absent :
    (kept rest : List ℤ) (x : ℤ)
    → All (Absent kept) rest
    → mem x rest ≡ false
    → All (Absent (kept ++ x ∷ [])) rest
All-Absent kept [] x h other = tt
All-Absent kept (fd ∷ rest) x h other = elim (Bool-cases (eq_ℤ fd x)) [
  | inl same ↦ absurd (ground arith)
  | inr apart ↦
      (mem_last kept fd x h.0 (eq_ℤ_comm x fd ∙ apart), All-Absent kept rest x h.1 (ground arith))
]

pub All-Absent_none : (fds : List ℤ) → All (Absent []) fds
All-Absent_none [] = tt
All-Absent_none (fd ∷ fds) = (refl, All-Absent_none fds)

pub erase-append :
    (fd : ℤ) (kept rest : List ℤ)
    → mem fd kept ≡ false
    → erase fd (kept ++ fd ∷ rest) ≡ kept ++ rest
erase-append fd [] rest h = rw (eq_ℤ_refl fd) refl
erase-append fd (k ∷ kept) rest h = ground (arith, erase-append fd kept rest)
