-- ===== src/SimpleDb/Typed/Search.antt =====
-- The searches in a file of values by their keys are those in the list of the values.
use mathlib.Core.List.{map}
use lighting_gateway.Prelude.{
  ◌∙◌, ◌∷◌, ◌≡◌, All, Bool, Bool-cases, If, List, Option, [], ap, false, first_of, first_of-If, inl,
  inr, is_some, none, refl, some, true, without_first_of, without_first_of-All,
}
use lighting_gateway.Prelude.Reading.{Bytes}
use lighting_gateway.SimpleDb.{
  Db, Found, is_skipped, sdbt_mark_deleted, sdb_get_record, sdb_delete_record,
}
use lighting_gateway.SimpleDb.Lines.{line_of}
use lighting_gateway.SimpleDb.Records.{by}
use lighting_gateway.SimpleDb.Contents.{
  records, first, without_first, returned_of, record_of, line_of_found, delete-Holds, get-Holds,
}
use lighting_gateway.SimpleDb.Agreement.{
  IsClean, Agrees, AgreesOn, sdb_get_record-agree, sdb_delete_record-agree, sdb_get_record-IsClean,
  sdb_delete_record-IsClean,
}
use lighting_gateway.SimpleDb.Parsing.{
  Parsed, value, mark_error, ParseRecord, check_key, tested, found_line, parse_found, get_unique,
  remove_unique, some_found, has_unique,
}
use lighting_gateway.SimpleDb.Typed.{
  Codec, HoldsAll, parse_record-body, parse_record-deleted, same_file-HoldsAll,
}

abbrev map_option : {A B : Type 0} → (A → B) → Option A → Option B
map_option f none = none
map_option f (some a) = some (f a)

records-AgreesOn :
    (P : Bytes → Type 0) (ls : List Bytes)
    → All P (records ls)
    → All (λ b. (is_skipped true (line_of b) ≡ false) → P b) ls
unfolding records
records-AgreesOn P [] h = tt
records-AgreesOn P (b ∷ ls) h = elim (Bool-cases (is_skipped true (line_of b))) [
  | inl skipped ↦ (λ live. cc, records-AgreesOn P ls (rw skipped at h))
  | inr live ↦
      (let h' : P b × All P (records ls) = rw live at h in (λ e. h'.0, records-AgreesOn P ls h'.1))
]

abbrev line_value : {R : Type 0} → (R → Bool) → Option (Parsed R) → Bool
line_value q none = false
line_value q (some (value r)) = q r
line_value q (some (mark_error p)) = false

module _ {R : Type 0} {parse : ParseRecord R} (codec : Codec parse) where
  open codec use {Readable, body, body-IsRecord, parse-body, parse-deleted}

  module _ (test : R → Option Bool) (q : R → Bool) where
    line_test : Bytes → Bool
    line_test rec = line_value q (parse false rec)

    check_key-Agrees :
        (r : R)
        → Readable r
        → test r ≡ some (q r)
        → Agrees (check_key parse test) line_test (body r)
    unfolding check_key tested line_test
    check_key-Agrees r h t db c =
        ap (tested parse test) (parse_record-body codec r db h c)
        ∙ rw (t, tested, parse-body r h) refl

    Agrees-map :
        (rs : List R)
        → All Readable rs
        → All (λ r. test r ≡ some (q r)) rs
        → All (Agrees (check_key parse test) line_test) (map body rs)
    Agrees-map [] h t = tt
    Agrees-map (r ∷ rs) h t = (check_key-Agrees r h.0 t.0, Agrees-map rs h.1 t.1)

    first-map :
        (rs : List R)
        → All Readable rs
        → first line_test (map body rs) ≡ map_option body (first_of q rs)
    unfolding line_test
    first-map [] h = refl
    first-map (r ∷ rs) h =
        rw (parse-body r h.0) (elim (Bool-cases (q r)) [
          | inl hit ↦ rw hit refl
          | inr miss ↦ rw miss (first-map rs h.1)
        ])

    without_first-map :
        (rs : List R)
        → All Readable rs
        → without_first line_test (map body rs) ≡ map body (without_first_of q rs)
    unfolding line_test
    without_first-map [] h = refl
    without_first-map (r ∷ rs) h = rw (parse-body r h.0) (elim (Bool-cases (q r)) [
      | inl hit ↦ rw hit refl
      | inr miss ↦ rw miss (ap (λ l. body r ∷ l) (without_first-map rs h.1))
    ])

  parse_found-line :
      (f : Found) (o : Option R)
      → record_of f.0 ≡ line_of_found (map_option body o)
      → If Readable o
      → IsClean f.1
      → parse_found parse (found_line f) ≡ (o, f.1)
  unfolding parse_found
  parse_found-line (none, db) none e h c = refl
  parse_found-line (none, db) (some r) e h c = cc
  parse_found-line (some (rec, context), db) none e h c = cc
  parse_found-line (some (rec, context), db) (some r) e h c =
      let same : rec ≡ line_of (body r) = cc in rw same (parse_record-body codec r db h c)

  parse_found-deleted :
      (back : Option Bytes) (db : Db) (o : Option R)
      → back ≡ returned_of (map_option body o)
      → If Readable o
      → IsClean db
      → parse_found parse (back, db) ≡ (o, db)
  unfolding parse_found
  parse_found-deleted none db none e h c = refl
  parse_found-deleted none db (some r) e h c = cc
  parse_found-deleted (some rec) db none e h c = cc
  parse_found-deleted (some rec) db (some r) e h c =
      let same : rec ≡ line_of (sdbt_mark_deleted (body r)) = cc in
      rw same (parse_record-deleted codec r db h c)

  module _ (test : R → Option Bool) (q : R → Bool) where
    -- A search by a key finds the first value that passes the test, and changes nothing.
    pub get_unique-HoldsAll :
        (db : Db) (rs : List R)
        → HoldsAll codec db rs
        → All (λ r. test r ≡ some (q r)) rs
        → ((get_unique parse test db).0 ≡ first_of q rs)
          × HoldsAll codec (get_unique parse test db).1 rs
    unfolding get_unique
    get_unique-HoldsAll db rs holds t =
        let ((ls, file, bodies, live), ok, clean) = holds in
        let p = line_test test q in
        let agrees : AgreesOn (check_key parse test) p ls =
          records-AgreesOn (Agrees (check_key parse test) p) ls
            (rw live (Agrees-map test q rs ok t)) in
        let same = sdb_get_record-agree (check_key parse test) p ls db bodies agrees file clean in
        let (hit, kept) = get-Holds p db (map body rs) holds.0 in
        let clean' = sdb_get_record-IsClean p true 0 db clean in
        let got =
          ap (λ f. parse_found parse (found_line f)) same
          ∙ parse_found-line (sdb_get_record true (by p) 0 db) (first_of q rs)
              (hit ∙ ap line_of_found (first-map test q rs ok)) (first_of-If Readable q rs ok)
              clean' in
        rw got (
          refl,
          same_file-HoldsAll codec db (sdb_get_record true (by p) 0 db).1 rs kept clean' holds,
        )

    some_found-Keeps :
        (f : Found) (o : Option R)
        → record_of f.0 ≡ line_of_found (map_option body o)
        → some_found f ≡ (is_some o, f.1)
    some_found-Keeps (none, db) none e = refl
    some_found-Keeps (none, db) (some r) e = cc
    some_found-Keeps (some (rec, context), db) none e = cc
    some_found-Keeps (some (rec, context), db) (some r) e = refl

    -- Whether there is such a value.
    pub has_unique-HoldsAll :
        (db : Db) (rs : List R)
        → HoldsAll codec db rs
        → All (λ r. test r ≡ some (q r)) rs
        → ((has_unique parse test db).0 ≡ is_some (first_of q rs))
          × HoldsAll codec (has_unique parse test db).1 rs
    unfolding has_unique
    has_unique-HoldsAll db rs holds t =
        let ((ls, file, bodies, live), ok, clean) = holds in
        let p = line_test test q in
        let agrees : AgreesOn (check_key parse test) p ls =
          records-AgreesOn (Agrees (check_key parse test) p) ls
            (rw live (Agrees-map test q rs ok t)) in
        let same = sdb_get_record-agree (check_key parse test) p ls db bodies agrees file clean in
        let (hit, kept) = get-Holds p db (map body rs) holds.0 in
        let clean' = sdb_get_record-IsClean p true 0 db clean in
        let got =
          ap some_found same
          ∙ some_found-Keeps (sdb_get_record true (by p) 0 db) (first_of q rs)
              (hit ∙ ap line_of_found (first-map test q rs ok)) in
        rw got (
          refl,
          same_file-HoldsAll codec db (sdb_get_record true (by p) 0 db).1 rs kept clean' holds,
        )

    -- A removal by a key returns the first value that passes the test, and leaves the others.
    pub remove_unique-HoldsAll :
        (db : Db) (rs : List R)
        → HoldsAll codec db rs
        → All (λ r. test r ≡ some (q r)) rs
        → ((remove_unique parse test db).0 ≡ first_of q rs)
          × HoldsAll codec (remove_unique parse test db).1 (without_first_of q rs)
    unfolding remove_unique
    remove_unique-HoldsAll db rs holds t =
        let ((ls, file, bodies, live), ok, clean) = holds in
        let p = line_test test q in
        let agrees : AgreesOn (check_key parse test) p ls =
          records-AgreesOn (Agrees (check_key parse test) p) ls
            (rw live (Agrees-map test q rs ok t)) in
        let same =
          sdb_delete_record-agree (check_key parse test) p ls db bodies agrees file clean in
        let (back, left) = delete-Holds p db (map body rs) holds.0 in
        let clean' = sdb_delete_record-IsClean p db clean in
        let r = sdb_delete_record (by p) db in
        let got =
          ap (parse_found parse) same
          ∙ parse_found-deleted r.0 r.1 (first_of q rs)
              (back ∙ ap returned_of (first-map test q rs ok)) (first_of-If Readable q rs ok)
              clean' in
        rw got (
          refl,
          (
            rw (← without_first-map test q rs ok) left,
            without_first_of-All Readable q rs ok,
            clean',
          ),
        )
