-- ===== src/SimpleDb/Typed/Faults.antt =====
-- A value that a key is compared with by a null pointer: the search runs into a fault.
use lighting_gateway.Prelude.{
  if◌then◌else◌, ℕ, ◌++◌, ◌+◌, ◌<◌, ◌==◌, ◌∙◌, ◌∷◌, ◌≡◌, All, Bool, Bool-cases, List, Option,
  Option-cases, [], ap, append_assoc, arith, drop, false, inl, inr, length, ltb, none, refl, some,
  suc, sym, true, zero,
}
use lighting_gateway.Prelude.Reading.{Bytes, c_string}
use lighting_gateway.SimpleDb.{
  Db, Found, checked, round, get_loop, fgets, sdbt_get_record_size, sdb_modify_last_accessed_record,
  ends_line, is_skipped, sdb_get_record,
}
use lighting_gateway.SimpleDb.Lines.{IsBody, line_of, file_of, lines_le}
use lighting_gateway.SimpleDb.Records.{accessed, read_here, round-line_of, behind}
use lighting_gateway.SimpleDb.Contents.{records, first}
use lighting_gateway.SimpleDb.Agreement.{IsClean}
use lighting_gateway.SimpleDb.Fields.{Parser}
use lighting_gateway.SimpleDb.Parsing.{
  Parsed, value, mark_error, ParseRecord, check_key, parse_record, outcome, tested, sdbt_mark_error,
  marked_line, or_same, found_line, parse_found, get_unique,
}
use lighting_gateway.SimpleDb.Typed.{Codec, HoldsAll, parse_record-body}

abbrev IsFaulty : Db → Type 0
IsFaulty db = db.fault ≡ true

if-IsFaulty :
    (b : Bool) (x y : Found) → IsFaulty x.1 → IsFaulty y.1 → IsFaulty (if b then x else y).1
if-IsFaulty true x y hx hy = hx
if-IsFaulty false x y hx hy = hy

modify-IsFaulty :
    (rec : Bytes) (db : Db)
    → IsFaulty db
    → IsFaulty (or_same db (sdb_modify_last_accessed_record rec db))
unfolding sdb_modify_last_accessed_record
modify-IsFaulty rec db h =
    elim (Bool-cases (sdbt_get_record_size rec == db.last_accessed_record_size)) [
      | inl same ↦ rw (sdb_modify_last_accessed_record, same) h
      | inr other ↦ rw (sdb_modify_last_accessed_record, other) h
    ]

mark-IsFaulty :
    (rec : Bytes) (p : Parser) (db : Db) → IsFaulty db → IsFaulty (sdbt_mark_error rec p db)
unfolding sdbt_mark_error
mark-IsFaulty rec p db h = elim (Bool-cases (ltb (length rec) 7)) [
  | inl short ↦ rw short h
  | inr long ↦ rw long (modify-IsFaulty (marked_line rec p) db h)
]

outcome-IsFaulty :
    {R : Type 0} (rec : Bytes) (db : Db) (o : Option (Parsed R))
    → IsFaulty db
    → IsFaulty (outcome rec db o).1
unfolding outcome
outcome-IsFaulty rec db none h = refl
outcome-IsFaulty rec db (some (value r)) h = h
outcome-IsFaulty rec db (some (mark_error p)) h =
    mark-IsFaulty rec p (record db { erange = p.erange }) h

module _ {R : Type 0} (parse : ParseRecord R) (test : R → Option Bool) where
  tested-IsFaulty : (r : Option R × Db) → IsFaulty r.1 → IsFaulty (tested parse test r).1
  unfolding tested
  tested-IsFaulty (none, db) h = h
  tested-IsFaulty (some r, db) h = elim (Option-cases (test r)) [
    | inl null ↦ rw (null, tested) refl
    | inr (b, compared) ↦ rw (compared, tested) h
  ]

  check_key-IsFaulty :
      (rec : Bytes) (db : Db) → IsFaulty db → IsFaulty (check_key parse test rec db).1
  unfolding check_key parse_record
  check_key-IsFaulty rec db h =
      tested-IsFaulty (parse_record parse rec db)
        (outcome-IsFaulty (c_string rec) db (parse db.erange (c_string rec)) h)

  checked-IsFaulty :
      (rec : Bytes) (context : ℕ) (next : Db → Found) (r : Bool × Db)
      → IsFaulty r.1
      → ((db : Db) → IsFaulty db → IsFaulty (next db).1)
      → IsFaulty (checked rec context next r).1
  unfolding checked
  checked-IsFaulty rec context next (true, db) h keeps = h
  checked-IsFaulty rec context next (false, db) h keeps = keeps db h

  round-IsFaulty :
      (context : ℕ) (next : ℕ → Db → Found) (rec : Bytes) (db : Db)
      → IsFaulty db
      → ((n : ℕ) (db' : Db) → IsFaulty db' → IsFaulty (next n db').1)
      → IsFaulty (round true (check_key parse test) context next rec db).1
  unfolding round
  round-IsFaulty context next [] db h keeps = h
  round-IsFaulty context next (b ∷ bs) db h keeps =
      let rec = b ∷ bs in
      let n = context + length rec in
      let db' = record db {
        last_accessed_record_start_file_pointer = context;
        last_accessed_record_size = sdbt_get_record_size rec;
      } in
      let live = checked rec n (next n) (check_key parse test rec db') in
      if-IsFaulty (ends_line (c_string rec)) (if is_skipped true rec then next n db' else live)
        (none, db')
        (if-IsFaulty (is_skipped true rec) (next n db') live (keeps n db' h) (
          checked-IsFaulty rec n (next n) (check_key parse test rec db')
            (check_key-IsFaulty rec db' h) (keeps n)))
        h

  get_loop-IsFaulty :
      (fuel context : ℕ) (db : Db)
      → IsFaulty db
      → IsFaulty (get_loop fuel true (check_key parse test) context db).1
  unfolding get_loop
  get_loop-IsFaulty zero context db h = h
  get_loop-IsFaulty (suc fuel) context db h =
      round-IsFaulty context (get_loop fuel true (check_key parse test))
        (fgets 499 (drop context db.file)) db h (get_loop-IsFaulty fuel)

  parse_found-IsFaulty : (r : Option Bytes × Db) → IsFaulty r.1 → IsFaulty (parse_found parse r).1
  unfolding parse_found parse_record
  parse_found-IsFaulty (none, db) h = h
  parse_found-IsFaulty (some rec, db) h =
      outcome-IsFaulty (c_string rec) db (parse db.erange (c_string rec)) h

found_line-IsFaulty : (f : Found) → IsFaulty f.1 → IsFaulty (found_line f).1
found_line-IsFaulty (none, db) h = h
found_line-IsFaulty (some (rec, context), db) h = h

module _ {R : Type 0} {parse : ParseRecord R} (codec : Codec parse) (test : R → Option Bool) where
  null_check :
      (r : R) (db : Db)
      → codec.Readable r
      → test r ≡ none
      → IsClean db
      → IsFaulty (check_key parse test (line_of (codec.body r)) db).1
  unfolding check_key
  null_check r db ok null clean =
      rw (parse_record-body codec r db ok clean) (rw (null, tested) refl)

  -- The first record of the lines is the value.
  get_loop-null :
      (fuel : ℕ) (before ls : List Bytes) (db : Db) (r : R) (rs : List Bytes)
      → All IsBody ls
      → length ls < fuel
      → db.file ≡ file_of (before ++ ls)
      → records ls ≡ codec.body r ∷ rs
      → codec.Readable r
      → test r ≡ none
      → IsClean db
      → IsFaulty (get_loop fuel true (check_key parse test) (length (file_of before)) db).1
  unfolding get_loop records
  get_loop-null zero before ls db r rs h k e first ok null c = absurd (omega arith)
  get_loop-null (suc fuel) before [] db r rs h k e first ok null c = cc
  get_loop-null (suc fuel) before (b ∷ ls) db r rs h k e first ok null c =
      let db' = accessed (length (file_of before)) b db in
      let loop = get_loop fuel true (check_key parse test) in
      rw
        (
          read_here before b ls db h.0 e,
          round-line_of true (check_key parse test) (length (file_of before)) loop b db h.0,
        )
        (elim (Bool-cases (is_skipped true (line_of b))) [
          | inl skipped ↦
              rw (skipped, behind before b)
                (get_loop-null fuel (before ++ b ∷ []) ls db' r rs h.1 (omega arith)
                  (e ∙ ap file_of (sym (append_assoc before (b ∷ []) ls))) (rw skipped at first) ok
                  null c)
          | inr live ↦
              (let here : b ∷ records ls ≡ codec.body r ∷ rs = rw live at first in
                let same : b ≡ codec.body r = cc in
                rw live (
                  checked-IsFaulty parse test (line_of b)
                    (length (file_of before) + length (line_of b))
                    (loop (length (file_of before) + length (line_of b)))
                    (check_key parse test (line_of b) db')
                    (rw same (
                      null_check r (accessed (length (file_of before)) (codec.body r) db) ok null
                        c))
                    (get_loop-IsFaulty parse test fuel
                      (length (file_of before) + length (line_of b)))))
        ])

  -- A search runs into a fault if the first value cannot be compared.
  pub get_unique-null :
      (db : Db) (r : R) (rs : List R)
      → HoldsAll codec db (r ∷ rs)
      → test r ≡ none
      → (get_unique parse test db).1.fault ≡ true
  unfolding get_unique sdb_get_record
  get_unique-null db r rs ((ls, file, bodies, live), ok, clean) null =
      let looped =
        get_loop-null (suc (length db.file)) [] ls db r _ bodies
          (omega (arith, lines_le ls, ap (λ l. length l) file)) file live ok.0 null clean in
      parse_found-IsFaulty parse test (found_line (sdb_get_record true (check_key parse test) 0 db))
        (found_line-IsFaulty (sdb_get_record true (check_key parse test) 0 db) looped)
