-- ===== src/SimpleDb/Records.antt =====
-- Searching and deleting in the file are searching and deleting in the list of its lines.
use lighting_gateway.Prelude.{
  if◌then◌else◌, ℕ, ◌++◌, ◌+◌, ◌<◌, ◌∙◌, ◌∷◌, ◌≡◌, All, Bool, Bool-cases, List, Option, [], ap,
  append-nil, append_assoc, arith, drop, inl, inr, length, length-append, none, refl, some, suc,
  sym, zero,
}
use lighting_gateway.Prelude.Reading.{Bytes}
use lighting_gateway.SimpleDb.{
  Db, Check, Found, fgets, is_skipped, checked, round, get_loop, sdb_get_record,
}
use lighting_gateway.SimpleDb.Lines.{
  IsBody, line_of, file_of, fgets-line_of, c_string-line_of, ends_line-line_of, file_of-append,
  drop-length, lines_le,
}

-- A check that reads the record only.
abbrev pub by : (Bytes → Bool) → Check
by p rec db = (p rec, db)

-- A line of a list, with the lines before it and those behind.
abbrev pub Split : Type 0
Split = Option (List Bytes × Bytes × List Bytes)

abbrev pub push : Bytes → Split → Split
push b none = none
push b (some (pre, x, post)) = some (b ∷ pre, x, post)

-- The first line that is not skipped and passes the test.
unfoldable pub find : Bool → (Bytes → Bool) → List Bytes → Split
find ignore p [] = none
find ignore p (b ∷ ls) =
    let rest = push b (find ignore p ls) in
    if is_skipped ignore (line_of b) then rest else if p (line_of b) then some ([], b, ls) else rest

-- What a search tells of a line that it has found behind the lines `before`.
abbrev pub told : List Bytes → Split → Option (Bytes × ℕ)
told before none = none
told before (some (pre, x, post)) =
    some (line_of x, length (file_of (before ++ pre)) + length (line_of x))

-- The last accessed record is the line found.
abbrev pub Accessed : List Bytes → Split → Db → Type 0
Accessed before none db = Unit
Accessed before (some (pre, x, post)) db =
    (db.last_accessed_record_start_file_pointer ≡ length (file_of (before ++ pre)))
    × (db.last_accessed_record_size ≡ length (line_of x))

told-push :
    (before : List Bytes) (b : Bytes) (r : Split)
    → told (before ++ b ∷ []) r ≡ told before (push b r)
told-push before b none = refl
told-push before b (some (pre, x, post)) = rw (append_assoc before (b ∷ []) pre) refl

Accessed-push :
    (before : List Bytes) (b : Bytes) (r : Split) (db : Db)
    → Accessed (before ++ b ∷ []) r db
    → Accessed before (push b r) db
Accessed-push before b none db h = tt
Accessed-push before b (some (pre, x, post)) db h = rw (append_assoc before (b ∷ []) pre) at h

-- The state after a line was read.
abbrev pub accessed : ℕ → Bytes → Db → Db
accessed context body db = record db {
  last_accessed_record_start_file_pointer = context;
  last_accessed_record_size = length (line_of body);
}

module _ (ignore : Bool) (check : Check) where
  pub round-line_of :
      (context : ℕ) (next : ℕ → Db → Found) (body : Bytes) (db : Db)
      → IsBody body
      → round ignore check context next (line_of body) db ≡ (
          if is_skipped ignore (line_of body)
          then next (context + length (line_of body)) (accessed context body db)
          else checked
              (line_of body)
              (context + length (line_of body))
              (next (context + length (line_of body)))
              (check (line_of body) (accessed context body db)))
  unfolding round
  round-line_of context next [] db h = absurd (omega (arith, h.1))
  round-line_of context next (b ∷ body) db h =
      rw (c_string-line_of (b ∷ body) h.0, ends_line-line_of (b ∷ body)) refl

pub read_here :
    (before : List Bytes) (body : Bytes) (ls : List Bytes) (db : Db)
    → IsBody body
    → db.file ≡ file_of (before ++ body ∷ ls)
    → fgets 499 (drop (length (file_of before)) db.file) ≡ line_of body
read_here before body ls db h e =
    ap (λ f. fgets 499 (drop (length (file_of before)) f)) (e ∙ file_of-append before (body ∷ ls))
    ∙ ap (fgets 499) (drop-length (file_of before) (file_of (body ∷ ls)))
    ∙ fgets-line_of 499 body (file_of ls) h.0 h.2

-- The position behind a line.
pub behind :
    (before : List Bytes) (body : Bytes)
    → length (file_of before) + length (line_of body) ≡ length (file_of (before ++ body ∷ []))
behind before body = sym (
    ap (λ l. length l) (file_of-append before (body ∷ []))
    ∙ omega (
      arith,
      length-append (file_of before) (file_of (body ∷ [])),
      length-append (line_of body) [],
    ))

module _ (ignore : Bool) (p : Bytes → Bool) where
  -- The outcome of a search from a position on.
  abbrev pub Finds : List Bytes → Split → Bytes → Found → Type 0
  Finds before r file found =
      (found.0 ≡ told before r) × (found.1.file ≡ file) × Accessed before r found.1

  later :
      (fuel : ℕ) (before : List Bytes) (b : Bytes) (r : Split) (file : Bytes) (db : Db)
      → Finds
          (before ++ b ∷ [])
          r
          file
          (get_loop fuel ignore (by p) (length (file_of (before ++ b ∷ []))) db)
      → Finds before
          (push b r)
          file
          (get_loop fuel ignore (by p) (length (file_of before) + length (line_of b)) db)
  later fuel before b r file db h =
      rw (behind before b) (h.0 ∙ told-push before b r, h.1, Accessed-push before b r _ h.2)

  get_loop-Finds :
      (fuel : ℕ) (before ls : List Bytes) (db : Db)
      → All IsBody ls
      → length ls < fuel
      → db.file ≡ file_of (before ++ ls)
      → Finds before
          (find ignore p ls)
          db.file
          (get_loop fuel ignore (by p) (length (file_of before)) db)
  unfolding get_loop find
  get_loop-Finds zero before ls db h k e = absurd (omega arith)
  get_loop-Finds (suc fuel) before [] db h k e =
      let nothing : fgets 499 (drop (length (file_of before)) db.file) ≡ [] =
        ap (λ f. fgets 499 (drop (length (file_of before)) f)) (e ∙ file_of-append before [])
        ∙ ap (fgets 499) (drop-length (file_of before) []) in
      rw (nothing, round) (refl, refl, tt)
  get_loop-Finds (suc fuel) before (b ∷ ls) db h k e =
      let db' = accessed (length (file_of before)) b db in
      let goes_on = later fuel before b (find ignore p ls) db.file db' (
        get_loop-Finds fuel (before ++ b ∷ []) ls db' h.1 (omega arith)
          (e ∙ ap file_of (sym (append_assoc before (b ∷ []) ls)))) in
      rw
        (
          read_here before b ls db h.0 e,
          round-line_of ignore (by p) (length (file_of before)) _ b db h.0,
        )
        (elim (Bool-cases (is_skipped ignore (line_of b))) [
          | inl skipped ↦ rw skipped goes_on
          | inr live ↦ elim (Bool-cases (p (line_of b))) [
            | inl hit ↦ rw (live, hit, checked) (rw (append-nil before) (refl, refl, (refl, refl)))
            | inr miss ↦ rw (live, miss, checked) goes_on
          ]
        ])

  -- The search from the position behind the lines `before`.
  pub sdb_get_record-find :
      (before ls : List Bytes) (db : Db)
      → All IsBody ls
      → db.file ≡ file_of (before ++ ls)
      → Finds before
          (find ignore p ls)
          db.file
          (sdb_get_record ignore (by p) (length (file_of before)) db)
  unfolding sdb_get_record
  sdb_get_record-find before ls db h e =
      get_loop-Finds (suc (length db.file)) before ls db h
        (omega (arith, ap (λ l. length l) e, lines_le (before ++ ls), length-append before ls)) e
