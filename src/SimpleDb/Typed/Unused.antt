-- ===== src/SimpleDb/Typed/Unused.antt =====
-- The search for a number that no value has.
use native.Mathlib.Nat.{mod-add-mod, mod-lt, mod-eq_of_lt, add-mod-mod, add-mod_right}
use lighting_gateway.Prelude.{
  ℕ, ◌%◌, ◌+◌, ◌-◌, ◌<◌, ◌==◌, ◌∙◌, ◌∷◌, ◌≡◌, All, Bool, Bool-cases, List, Option, [], ap, arith,
  false, first_of, inl, inr, is_some, none, refl, some, suc, true, zero,
}
use lighting_gateway.SimpleDb.{Db}
use lighting_gateway.SimpleDb.Parsing.{
  ParseRecord, unused_loop, always, unused_step, has_unique, get_unused, never_ends,
}
use lighting_gateway.SimpleDb.Typed.{Codec, HoldsAll}
use lighting_gateway.SimpleDb.Typed.Search.{has_unique-HoldsAll}

unused_step_used :
    (n : ℕ) (r : Bool × Db) (again : Db → Option ℕ × Db)
    → r.0 ≡ true
    → unused_step n r again ≡ again r.1
unused_step_used n (true, db) again e = refl
unused_step_used n (false, db) again e = cc

unused_step_free :
    (n : ℕ) (r : Bool × Db) (again : Db → Option ℕ × Db)
    → r.0 ≡ false
    → unused_step n r again ≡ (some n, r.1)
unused_step_free n (true, db) again e = cc
unused_step_free n (false, db) again e = refl

never_ends-some : (r : Option ℕ × Db) (v : ℕ) → r.0 ≡ some v → never_ends r ≡ (v, r.1)
unfolding never_ends
never_ends-some (none, db) v e = cc
never_ends-some (some n, db) v e = let same : n ≡ v = cc in rw same refl

module _ {R : Type 0} {parse : ParseRecord R} (codec : Codec parse) (num : R → ℕ) where
  abbrev pub has_number : ℕ → R → Bool
  has_number n r = num r == n

  -- No value has the number.
  abbrev pub IsFree : List R → ℕ → Type 0
  IsFree rs n = is_some (first_of (has_number n) rs) ≡ false

  abbrev numbered : ℕ → R → Option Bool
  numbered n = always (has_number n)

  every_number : (n : ℕ) (rs : List R) → All (λ r. numbered n r ≡ some (has_number n r)) rs
  every_number n [] = tt
  every_number n (r ∷ rs) = (refl, every_number n rs)

  next_number : (n j count : ℕ) → ((n + 1) % count + j) % count ≡ (n + suc j) % count
  next_number n j count =
      let same : n + 1 + j ≡ n + suc j = omega arith in
      mod-add-mod (n + 1) count j ∙ ap (λ (k : ℕ). k % count) same

  -- A free number that is reached in `j` rounds ends the loop by then, with a free number.
  pub unused_loop-IsFree :
      (count j fuel n : ℕ) (db : Db) (rs : List R)
      → j < fuel
      → n < count
      → HoldsAll codec db rs
      → IsFree rs ((n + j) % count)
      → (v : ℕ) × ((unused_loop parse numbered count fuel n db).0 ≡ some v)
        × (v < count)
        × IsFree rs v
        × HoldsAll codec (unused_loop parse numbered count fuel n db).1 rs
  unfolding unused_loop
  unused_loop-IsFree count j zero n db rs h small holds f = absurd (omega arith)
  unused_loop-IsFree count zero (suc fuel) n db rs h small holds f =
      let (r, held) =
        has_unique-HoldsAll codec (numbered n) (has_number n) db rs holds (every_number n rs) in
      let same : (n + 0) % count ≡ n =
        ap (λ (k : ℕ). k % count) (omega arith) ∙ mod-eq_of_lt small in
      let free : IsFree rs n = rw (← same) f in
      rw (unused_step_free n (has_unique parse (numbered n) db) _ (r ∙ free))
        (n, refl, small, free, held)
  unused_loop-IsFree count (suc j) (suc fuel) n db rs h small holds f =
      let (r, held) =
        has_unique-HoldsAll codec (numbered n) (has_number n) db rs holds (every_number n rs) in
      elim (Bool-cases (is_some (first_of (has_number n) rs))) [
        | inl used ↦ rw (unused_step_used n (has_unique parse (numbered n) db) _ (r ∙ used)) (
            unused_loop-IsFree count j fuel ((n + 1) % count) (has_unique parse (numbered n) db).1
              rs (omega arith) (mod-lt (n + 1) (omega arith)) held (rw (next_number n j count) f))
        | inr free ↦
            rw (unused_step_free n (has_unique parse (numbered n) db) _ (r ∙ free))
              (n, refl, small, free, held)
      ]

  reached : (n k count : ℕ) → n < count → k < count → (n + (k + count - n) % count) % count ≡ k
  reached n k count hn hk =
      let sum : n + (k + count - n) ≡ k + count = omega arith in
      add-mod-mod n (k + count - n) count
      ∙ ap (λ (x : ℕ). x % count) sum
      ∙ add-mod_right k count
      ∙ mod-eq_of_lt hk

  -- Where some number is free, the search gives a free one.
  pub get_unused-IsFree :
      (count last k : ℕ) (db : Db) (rs : List R)
      → k < count
      → IsFree rs k
      → HoldsAll codec db rs
      → ((get_unused parse numbered count last db).0 < count)
        × IsFree rs (get_unused parse numbered count last db).0
        × HoldsAll codec (get_unused parse numbered count last db).1 rs
  unfolding get_unused
  get_unused-IsFree count last k db rs hk free holds =
      let n = (last + 1) % count in
      let hn = mod-lt (last + 1) {m = count} (omega arith) in
      let pos : 0 < count = omega arith in
      let (v, found, small, is_free, held) =
        unused_loop-IsFree count ((k + count - n) % count) count n db rs
          (mod-lt (k + count - n) pos) hn holds (rw (reached n k count hn hk) free) in
      rw (never_ends-some (unused_loop parse numbered count count n db) v found)
        (small, is_free, held)

  -- Where every number is in use the loop goes on for ever.
  pub unused_loop-none :
      (count fuel n : ℕ) (db : Db) (rs : List R)
      → 0 < count
      → n < count
      → HoldsAll codec db rs
      → ((k : ℕ) → k < count → ¬ IsFree rs k)
      → (unused_loop parse numbered count fuel n db).0 ≡ none
  unfolding unused_loop
  unused_loop-none count zero n db rs pos small holds full = refl
  unused_loop-none count (suc fuel) n db rs pos small holds full =
      let (r, held) =
        has_unique-HoldsAll codec (numbered n) (has_number n) db rs holds (every_number n rs) in
      elim (Bool-cases (is_some (first_of (has_number n) rs))) [
        | inl used ↦ rw (unused_step_used n (has_unique parse (numbered n) db) _ (r ∙ used)) (
            unused_loop-none count fuel ((n + 1) % count) (has_unique parse (numbered n) db).1 rs
              pos (mod-lt (n + 1) pos) held full)
        | inr free ↦ absurd (full n small free)
      ]
