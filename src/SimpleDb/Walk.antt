-- ===== src/SimpleDb/Walk.antt =====
-- Going through the file from record to record meets each record once, in order.
use mathlib.Core.List.{map}
use lighting_gateway.Prelude.{
  ℕ, ◌%◌, ◌++◌, ◌<◌, ◌^◌, ◌∙◌, ◌∷◌, ◌≡◌, All, All-suffix, Bool, Bool-cases, List, [], ap,
  append_assoc, arith, inl, inr, length, length-append, none, refl, some, suc, sym, true, zero,
}
use lighting_gateway.Prelude.Reading.{Bytes}
use lighting_gateway.SimpleDb.{
  Db, Found, is_skipped, next_records, follow, any_record, sdb_get_record, sdbt_get_record_count,
}
use lighting_gateway.SimpleDb.Lines.{IsBody, line_of, file_of, lines_le}
use lighting_gateway.SimpleDb.Records.{Split, push, find, Finds, behind, sdb_get_record-find}
use lighting_gateway.SimpleDb.Contents.{records, Holds}

abbrev anything : Bytes → Bool
anything rec = true

-- What the search for any record says of the records.
abbrev Next : List Bytes → Split → Type 0
Next ls none = records ls ≡ []
Next ls (some (pre, x, post)) = (ls ≡ pre ++ x ∷ post) × (records ls ≡ x ∷ records post)

Next-push :
    (b : Bytes) (ls : List Bytes) (r : Split)
    → is_skipped true (line_of b) ≡ true
    → Next ls r
    → Next (b ∷ ls) (push b r)
unfolding records
Next-push b ls none skipped h = rw skipped h
Next-push b ls (some (pre, x, post)) skipped h = (ap (λ l. b ∷ l) h.0, rw skipped h.1)

find-Next : (ls : List Bytes) → Next ls (find true anything ls)
unfolding find records
find-Next [] = refl
find-Next (b ∷ ls) = elim (Bool-cases (is_skipped true (line_of b))) [
  | inl skipped ↦ rw skipped (Next-push b ls (find true anything ls) skipped (find-Next ls))
  | inr live ↦ rw live (refl, rw live refl)
]

follow_lem :
    (fuel : ℕ) (before ls : List Bytes) (db : Db) (r : Split) (found : Found)
    → All IsBody ls
    → length ls < suc fuel
    → db.file ≡ file_of (before ++ ls)
    → Next ls r
    → Finds true anything before r db.file found
    → ((before ls : List Bytes) (db : Db)
        → All IsBody ls
        → length ls < fuel
        → db.file ≡ file_of (before ++ ls)
        → next_records fuel (length (file_of before)) db ≡ map line_of (records ls))
    → follow found (next_records fuel) ≡ map line_of (records ls)
unfolding follow
follow_lem fuel before ls db none found h k e next f ih = rw (f.0, next, follow) refl
follow_lem fuel before ls db (some (pre, x, post)) found h k e next f ih =
    let bodies =
      All-suffix IsBody (x ∷ []) post (All-suffix IsBody pre (x ∷ post) (rw next.0 at h)) in
    let fewer : length post < fuel =
      omega (arith, k, ap (λ l. length l) next.0, length-append pre (x ∷ post)) in
    let same_file : found.1.file ≡ file_of (((before ++ pre) ++ x ∷ []) ++ post) =
      f.1
      ∙ e
      ∙ ap file_of (
          ap (λ l. before ++ l) next.0
          ∙ sym (append_assoc before pre (x ∷ post))
          ∙ sym (append_assoc (before ++ pre) (x ∷ []) post)) in
    rw (f.0, follow, next.1)
      (ap (λ l. line_of x ∷ l)
        (ap (λ c. next_records fuel c found.1) (behind (before ++ pre) x)
          ∙ ih ((before ++ pre) ++ x ∷ []) post found.1 bodies fewer same_file))

next_records_lem :
    (fuel : ℕ) (before ls : List Bytes) (db : Db)
    → All IsBody ls
    → length ls < fuel
    → db.file ≡ file_of (before ++ ls)
    → next_records fuel (length (file_of before)) db ≡ map line_of (records ls)
unfolding next_records
next_records_lem zero before ls db h k e = absurd (omega arith)
next_records_lem (suc fuel) before ls db h k e =
    follow_lem fuel before ls db (find true anything ls)
      (sdb_get_record true any_record (length (file_of before)) db) h k e (find-Next ls)
      (sdb_get_record-find true anything before ls db h e) (next_records_lem fuel)

-- Going through a file that holds a list of records, from record to record until there is none,
-- meets the line of each record once, in the order of the list, within one round more than the file
-- has bytes.
pub walk-Holds :
    (db : Db) (rs : List Bytes)
    → Holds db rs
    → next_records (suc (length db.file)) 0 db ≡ map line_of rs
walk-Holds db rs (ls, e, bodies, r) =
    next_records_lem (suc (length db.file)) [] ls db bodies
      (omega (arith, lines_le ls, ap (λ l. length l) e)) e
    ∙ ap (map line_of) r

pub length-map : {A B : Type 0} → (f : A → B) (list : List A) → length (map f list) ≡ length list
length-map f [] = refl
length-map f (a ∷ rest) = ap suc (length-map f rest)

-- The count of a file that holds a list of fewer than 2^32 records is the length of the list.
pub count-Holds :
    (db : Db) (rs : List Bytes)
    → Holds db rs
    → length rs < 2 ^ 32
    → sdbt_get_record_count db ≡ length rs
unfolding sdbt_get_record_count
count-Holds db rs h small =
    let n = ap (λ l. length l) (walk-Holds db rs h) ∙ length-map line_of rs in
    ap (λ k. k % 2 ^ 32) n ∙ omega arith
