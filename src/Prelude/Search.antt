-- ===== src/Prelude/Search.antt =====
-- The search in a list for the first value that passes a test.
use mathlib.Core.Path.{◌≡◌, refl, ap}
use mathlib.Core.Logic.{inl, inr}
use mathlib.Core.Bool.{Bool, true, false}
use mathlib.Core.Option.{Option, none, some}
use mathlib.Core.List.{List, [], ◌∷◌, ◌++◌}
use lighting_gateway.Prelude.Tests.{Bool-cases, if◌then◌else◌}
use lighting_gateway.Prelude.Lists.{All}

abbrev pub is_some {ℓ} : {A : Type ℓ} → Option A → Bool
is_some none = false
is_some (some a) = true

-- The first value that passes a test, and the others.
abbrev pub first_of {ℓ} : {R : Type ℓ} → (R → Bool) → List R → Option R
first_of q [] = none
first_of q (r ∷ rs) = if q r then some r else first_of q rs

abbrev pub without_first_of {ℓ} : {R : Type ℓ} → (R → Bool) → List R → List R
without_first_of q [] = []
without_first_of q (r ∷ rs) = if q r then rs else r ∷ without_first_of q rs

abbrev pub If {ℓ} : {A : Type ℓ} → (A → Type 0) → Option A → Type 0
If P none = Unit
If P (some a) = P a

pub first_of-If {ℓ} :
    {R : Type ℓ} (P : R → Type 0) (q : R → Bool) (rs : List R) → All P rs → If P (first_of q rs)
first_of-If P q [] h = tt
first_of-If P q (r ∷ rs) h = elim (Bool-cases (q r)) [
  | inl hit ↦ rw hit (h.0)
  | inr miss ↦ rw miss (first_of-If P q rs h.1)
]

pub without_first_of-All {ℓ} :
    {R : Type ℓ} (P : R → Type 0) (q : R → Bool) (rs : List R)
    → All P rs
    → All P (without_first_of q rs)
without_first_of-All P q [] h = tt
without_first_of-All P q (r ∷ rs) h = elim (Bool-cases (q r)) [
  | inl hit ↦ rw hit (h.1)
  | inr miss ↦ rw miss (h.0, without_first_of-All P q rs h.1)
]

-- The first value that passes, with those before it and those behind.
pub first_of-split {ℓ} :
    {R : Type ℓ} (q : R → Bool) (es : List R) (e : R)
    → first_of q es ≡ some e
    → (pre : List R) × (post : List R) × (es ≡ pre ++ e ∷ post)
      × (without_first_of q es ≡ pre ++ post)
first_of-split q [] e h = cc
first_of-split q (x ∷ es) e h = elim (Bool-cases (q x)) [
  | inl hit ↦
      (let first : some x ≡ some e = rw hit at h in
        let same : x ≡ e = cc in ([], es, ap (λ y. y ∷ es) same, rw hit refl))
  | inr miss ↦
      (let (pre, post, before, after) = first_of-split q es e (rw miss at h) in
        (x ∷ pre, post, ap (λ l. x ∷ l) before, rw miss (ap (λ l. x ∷ l) after)))
]

pub without_first_of-missing {ℓ} :
    {R : Type ℓ} (q : R → Bool) (es : List R) → first_of q es ≡ none → without_first_of q es ≡ es
without_first_of-missing q [] h = refl
without_first_of-missing q (x ∷ es) h = elim (Bool-cases (q x)) [
  | inl hit ↦ (let first : some x ≡ none = rw hit at h in cc)
  | inr miss ↦ rw miss (ap (λ l. x ∷ l) (without_first_of-missing q es (rw miss at h)))
]

pub first_of-none {ℓ} :
    {R : Type ℓ} (q : R → Bool) (rs : List R) → first_of q rs ≡ none → All (λ r. q r ≡ false) rs
first_of-none q [] h = tt
first_of-none q (r ∷ rs) h = elim (Bool-cases (q r)) [
  | inl hit ↦ (let first : some r ≡ none = rw hit at h in cc)
  | inr miss ↦ (miss, first_of-none q rs (rw miss at h))
]
