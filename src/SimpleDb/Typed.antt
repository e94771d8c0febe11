-- ===== src/SimpleDb/Typed.antt =====
-- A file whose records are the lines of values that are read back.
pub mod Search
pub mod Enumeration
pub mod Unused
pub mod Faults
use mathlib.Core.List.{map, map-append}
use lighting_gateway.Prelude.{◌++◌, ◌∙◌, ◌∷◌, ◌≡◌, All, All-append, List, [], false, refl, some}
use lighting_gateway.Prelude.Reading.{Bytes}
use lighting_gateway.SimpleDb.{Db, sdb_add_record, sdbt_mark_deleted}
use lighting_gateway.SimpleDb.Lines.{line_of, c_string-line_of}
use lighting_gateway.SimpleDb.Records.{by}
use lighting_gateway.SimpleDb.Contents.{Holds, IsRecord, mark-IsBody, add-Holds}
use lighting_gateway.SimpleDb.Walk.{walk-Holds}
use lighting_gateway.SimpleDb.Agreement.{IsClean}
use lighting_gateway.SimpleDb.Parsing.{value, ParseRecord, parse_record, outcome}

-- How values stand on lines, and that a line is read as its value, also with the mark of a deleted
-- line.
pub record Codec {R : Type 0} (parse : ParseRecord R) : Type 1 where
  pub Readable : R → Type 0
  pub body : R → Bytes
  pub body-IsRecord : (r : R) → Readable r → IsRecord (body r)
  pub parse-body : (r : R) → Readable r → parse false (line_of (body r)) ≡ some (value r)
  pub parse-deleted :
      (r : R) → Readable r → parse false (line_of (sdbt_mark_deleted (body r))) ≡ some (value r)

module _ {R : Type 0} {parse : ParseRecord R} (codec : Codec parse) where
  open codec use {Readable, body, body-IsRecord, parse-body, parse-deleted}

  -- The file holds these values, and the process is well.
  abbrev pub HoldsAll : Db → List R → Type 0
  HoldsAll db rs = Holds db (map body rs) × All Readable rs × IsClean db

  pub parse_record-body :
      (r : R) (db : Db)
      → Readable r
      → IsClean db
      → parse_record parse (line_of (body r)) db ≡ (some r, db)
  unfolding parse_record outcome
  parse_record-body r db h c =
      rw (c_string-line_of (body r) (body-IsRecord r h).0.0, c.0, parse-body r h) refl

  pub parse_record-deleted :
      (r : R) (db : Db)
      → Readable r
      → IsClean db
      → parse_record parse (line_of (sdbt_mark_deleted (body r))) db ≡ (some r, db)
  unfolding parse_record outcome
  parse_record-deleted r db h c =
      rw
        (
          c_string-line_of (sdbt_mark_deleted (body r))
              (mark-IsBody (body r) (body-IsRecord r h).0).0,
          c.0,
          parse-deleted r h,
        )
        refl

  -- Adding a value that is read back puts it at the end.
  pub add-HoldsAll :
      (r : R) (db : Db) (rs : List R)
      → Readable r
      → HoldsAll db rs
      → HoldsAll (sdb_add_record (line_of (body r)) db) (rs ++ r ∷ [])
  add-HoldsAll r db rs h (holds, ok, clean) = (
    rw (map-append body rs (r ∷ []))
        (add-Holds (body r) db (map body rs) (body-IsRecord r h) holds),
    All-append Readable rs (r ∷ []) ok (h, tt),
    (unfold sdb_add_record in clean),
  )

  -- The file as it was, after a call that reads only.
  pub same_file-HoldsAll :
      (db db' : Db) (rs : List R)
      → db'.file ≡ db.file
      → IsClean db'
      → HoldsAll db rs
      → HoldsAll db' rs
  same_file-HoldsAll db db' rs e c ((ls, file, bodies, r), ok, clean) =
      ((ls, e ∙ file, bodies, r), ok, c)
