-- ===== src/Tests/SimpleDb.antt =====
-- A file with a deleted line and two records.
use lighting_gateway.Prelude.{◌==◌, ◌∷◌, ◌≡◌, All, Bool, [], arith, false, get_or, refl, some}
use lighting_gateway.Prelude.Reading.{Bytes}
use lighting_gateway.SimpleDb.{Db, sdb_delete_record}
use lighting_gateway.SimpleDb.Lines.{IsBody, file_of}
use lighting_gateway.SimpleDb.Records.{by}
use lighting_gateway.SimpleDb.Contents.{Holds, records, delete-Holds}
use lighting_gateway.SimpleDb.Consolidation.{sdb_consolidate_db}
use lighting_gateway.SimpleDb.Consolidation.Kept.{sdb_consolidate_db-Holds}

abbrev one : Bytes
one = 0x20 ∷ 0x31 ∷ []

abbrev two : Bytes
two = 0x20 ∷ 0x32 ∷ []

abbrev three : Bytes
three = 0x20 ∷ 0x33 ∷ []

abbrev deleted : Bytes
deleted = 0x3B ∷ 0x30 ∷ []

abbrev db : Db
db = record {
  file = file_of (one ∷ deleted ∷ two ∷ []);
  last_accessed_record_start_file_pointer = 0;
  last_accessed_record_size = 0;
  erange = false;
  fault = false;
}

abbrev is_two : Bytes → Bool
is_two rec = get_or rec 1 0 == 0x32

bodies : All IsBody (one ∷ deleted ∷ two ∷ [])
bodies = (
  (((ground arith, ground arith), ((ground arith, ground arith), tt)), omega arith, omega arith),
  (
    (((ground arith, ground arith), ((ground arith, ground arith), tt)), omega arith, omega arith),
    (
      (
        ((ground arith, ground arith), ((ground arith, ground arith), tt)),
        omega arith,
        omega arith,
      ),
      tt,
    ),
  ),
)

db-Holds : Holds db (one ∷ two ∷ [])
unfolding records
db-Holds = (one ∷ deleted ∷ two ∷ [], refl, bodies, refl)

delete-Holds_example :
    ((sdb_delete_record (by is_two) db).0 ≡ some (0x3B ∷ 0x32 ∷ 10 ∷ []))
    × Holds (sdb_delete_record (by is_two) db).1 (one ∷ [])
delete-Holds_example = delete-Holds is_two db (one ∷ two ∷ []) db-Holds

consolidate_example :
    ((sdb_consolidate_db 0 0 db).file ≡ file_of (one ∷ two ∷ []))
    × Holds (sdb_consolidate_db 0 0 db) (records (one ∷ deleted ∷ two ∷ []))
consolidate_example =
    sdb_consolidate_db-Holds 0 0 (one ∷ deleted ∷ two ∷ []) db bodies (refl, (refl, (refl, tt)))
      refl
