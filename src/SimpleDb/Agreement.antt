-- ===== src/SimpleDb/Agreement.antt =====
-- A check that agrees with a test of the text on the records of a file finds what the test finds.
use lighting_gateway.Prelude.{
  if◌then◌else◌, ℕ, ◌++◌, ◌+◌, ◌==◌, ◌∙◌, ◌∷◌, ◌≡◌, All, Bool, Bool-cases, List, [], ap,
  append_assoc, drop, false, inl, inr, length, none, refl, some, suc, sym, true, zero,
}
use lighting_gateway.Prelude.Reading.{Bytes, c_string}
use lighting_gateway.SimpleDb.{
  Db, Check, Found, is_skipped, checked, round, get_loop, sdb_get_record, sdb_delete_record,
  delete_found, sdb_modify_last_accessed_record, fgets, sdbt_get_record_size, sdbt_mark_deleted,
  ends_line,
}
use lighting_gateway.SimpleDb.Lines.{IsBody, line_of, file_of, file_of-append, drop-length}
use lighting_gateway.SimpleDb.Records.{by, accessed, read_here, round-line_of, behind}

-- `errno` is not `ERANGE`, and no fault has happened.
abbrev pub IsClean : Db → Type 0
IsClean db = (db.erange ≡ false) × (db.fault ≡ false)

abbrev pub Agrees : Check → (Bytes → Bool) → Bytes → Type 0
Agrees check p b = (db : Db) → IsClean db → check (line_of b) db ≡ (p (line_of b), db)

-- On the lines that are not skipped.
abbrev pub AgreesOn : Check → (Bytes → Bool) → List Bytes → Type 0
AgreesOn check p ls = All (λ b. (is_skipped true (line_of b) ≡ false) → Agrees check p b) ls

module _ (check : Check) (p : Bytes → Bool) where
  get_loop-agree :
      (fuel : ℕ) (before ls : List Bytes) (db : Db)
      → All IsBody ls
      → AgreesOn check p ls
      → db.file ≡ file_of (before ++ ls)
      → IsClean db
      → get_loop fuel true check (length (file_of before)) db
        ≡ get_loop fuel true (by p) (length (file_of before)) db
  unfolding get_loop
  get_loop-agree zero before ls db h a e c = refl
  get_loop-agree (suc fuel) before [] db h a e c =
      let nothing : fgets 499 (drop (length (file_of before)) db.file) ≡ [] =
        ap (λ f. fgets 499 (drop (length (file_of before)) f)) (e ∙ file_of-append before [])
        ∙ ap (fgets 499) (drop-length (file_of before) []) in
      rw (nothing, round) refl
  get_loop-agree (suc fuel) before (b ∷ ls) db h a e c =
      let db' = accessed (length (file_of before)) b db in
      let goes_on =
        ap (λ n. get_loop fuel true check n db') (behind before b)
        ∙ get_loop-agree fuel (before ++ b ∷ []) ls db' h.1 a.1
            (e ∙ ap file_of (sym (append_assoc before (b ∷ []) ls))) c
        ∙ ap (λ n. get_loop fuel true (by p) n db') (sym (behind before b)) in
      rw
        (
          read_here before b ls db h.0 e,
          round-line_of true check (length (file_of before)) (get_loop fuel true check) b db h.0,
          round-line_of true (by p) (length (file_of before)) (get_loop fuel true (by p)) b db h.0,
        )
        (elim (Bool-cases (is_skipped true (line_of b))) [
          | inl skipped ↦ rw skipped goes_on
          | inr live ↦ elim (Bool-cases (p (line_of b))) [
            | inl hit ↦ rw (live, a.0 live db' c, hit, checked) refl
            | inr miss ↦ rw (live, a.0 live db' c, miss, checked) goes_on
          ]
        ])

  pub sdb_get_record-agree :
      (ls : List Bytes) (db : Db)
      → All IsBody ls
      → AgreesOn check p ls
      → db.file ≡ file_of ls
      → IsClean db
      → sdb_get_record true check 0 db ≡ sdb_get_record true (by p) 0 db
  unfolding sdb_get_record
  sdb_get_record-agree ls db h a e c = get_loop-agree (suc (length db.file)) [] ls db h a e c

  pub sdb_delete_record-agree :
      (ls : List Bytes) (db : Db)
      → All IsBody ls
      → AgreesOn check p ls
      → db.file ≡ file_of ls
      → IsClean db
      → sdb_delete_record check db ≡ sdb_delete_record (by p) db
  unfolding sdb_delete_record
  sdb_delete_record-agree ls db h a e c = ap delete_found (sdb_get_record-agree ls db h a e c)

abbrev pub Keeps : Bytes → Db → Type 0
Keeps file db = (db.file ≡ file) × IsClean db

if-Keeps :
    (file : Bytes) (b : Bool) (x y : Found)
    → Keeps file x.1
    → Keeps file y.1
    → Keeps file (if b then x else y).1
if-Keeps file true x y hx hy = hx
if-Keeps file false x y hx hy = hy

-- A search by a test leaves the file, `errno` and the fault as they are.
module _ (file : Bytes) (p : Bytes → Bool) where
  checked-Keeps :
      (rec : Bytes) (context : ℕ) (next : Db → Found) (db : Db) (b : Bool)
      → Keeps file db
      → ((db' : Db) → Keeps file db' → Keeps file (next db').1)
      → Keeps file (checked rec context next (b, db)).1
  unfolding checked
  checked-Keeps rec context next db true c keeps = c
  checked-Keeps rec context next db false c keeps = keeps db c

  round-Keeps :
      (ignore : Bool) (context : ℕ) (next : ℕ → Db → Found) (rec : Bytes) (db : Db)
      → Keeps file db
      → ((n : ℕ) (db' : Db) → Keeps file db' → Keeps file (next n db').1)
      → Keeps file (round ignore (by p) context next rec db).1
  unfolding round
  round-Keeps ignore context next [] db c keeps = c
  round-Keeps ignore context next (b ∷ bs) db c keeps =
      let rec = b ∷ bs in
      let n = context + length rec in
      let db' = record db {
        last_accessed_record_start_file_pointer = context;
        last_accessed_record_size = sdbt_get_record_size rec;
      } in
      let live = checked rec n (next n) (by p rec db') in
      if-Keeps file (ends_line (c_string rec)) (if is_skipped ignore rec then next n db' else live)
        (none, db')
        (if-Keeps file (is_skipped ignore rec) (next n db') live (keeps n db' c)
          (checked-Keeps rec n (next n) db' (p rec) c (keeps n)))
        c

  get_loop-Keeps :
      (fuel : ℕ) (ignore : Bool) (context : ℕ) (db : Db)
      → Keeps file db
      → Keeps file (get_loop fuel ignore (by p) context db).1
  unfolding get_loop
  get_loop-Keeps zero ignore context db c = c
  get_loop-Keeps (suc fuel) ignore context db c =
      round-Keeps ignore context (get_loop fuel ignore (by p)) (fgets 499 (drop context db.file)) db
        c (get_loop-Keeps fuel ignore)

  pub sdb_get_record-Keeps :
      (ignore : Bool) (context : ℕ) (db : Db)
      → Keeps file db
      → Keeps file (sdb_get_record ignore (by p) context db).1
  unfolding sdb_get_record
  sdb_get_record-Keeps ignore context db c =
      get_loop-Keeps (suc (length db.file)) ignore context db c

module _ (p : Bytes → Bool) where
  pub sdb_get_record-IsClean :
      (ignore : Bool) (context : ℕ) (db : Db)
      → IsClean db
      → IsClean (sdb_get_record ignore (by p) context db).1
  sdb_get_record-IsClean ignore context db c =
      (sdb_get_record-Keeps db.file p ignore context db (refl, c)).1

  delete_found-IsClean : (f : Found) → IsClean f.1 → IsClean (delete_found f).1
  unfolding delete_found sdb_modify_last_accessed_record
  delete_found-IsClean (none, db) c = c
  delete_found-IsClean (some (rec, context), db) c =
      elim (Bool-cases
        (sdbt_get_record_size (sdbt_mark_deleted rec) == db.last_accessed_record_size)) [
          | inl same ↦ rw (delete_found, same) c
          | inr other ↦ rw (delete_found, other) c
        ]

  pub sdb_delete_record-IsClean : (db : Db) → IsClean db → IsClean (sdb_delete_record (by p) db).1
  unfolding sdb_delete_record
  sdb_delete_record-IsClean db c =
      delete_found-IsClean (sdb_get_record true (by p) 0 db) (sdb_get_record-IsClean true 0 db c)
