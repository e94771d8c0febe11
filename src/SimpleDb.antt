-- ===== src/SimpleDb.antt =====
-- The text database that the lists are stored in (server/Source/SimpleDB.c, and the functions of
-- server/Source/SimpleDBTxt.c that it is given): a file of lines, in which a mark in the first column
-- deletes a line. Positions in the file are numbers of bytes; the calls on the file succeed.
pub mod Lines
pub mod Records
pub mod Deletion
pub mod Contents
pub mod Walk
pub mod Fields
pub mod Consolidation
pub mod Parsing
pub mod Agreement
pub mod Typed
pub mod Members
pub mod SceneRecord
use lighting_gateway.Prelude.{
  if◌then◌else◌, ℕ, ◌%◌, ◌&&◌, ◌++◌, ◌+◌, ◌==◌, ◌^◌, ◌||◌, ◌∷◌, Bool, List, Option, [], drop, false,
  length, none, some, suc, take, true, zero,
}
use lighting_gateway.Prelude.Reading.{Bytes, c_string}

-- The file of a `_db_descriptor`, and the record that was accessed last; and of the process, whether
-- `errno` is `ERANGE`, and whether a null pointer or a place past the end of a text was read or a
-- loop goes on for ever, after which nothing counts.
pub record Db : Type 0 where
  pub file : Bytes
  pub last_accessed_record_start_file_pointer : ℕ
  pub last_accessed_record_size : ℕ
  pub erange : Bool
  pub fault : Bool

-- `fgets`: the bytes up to the end of the line, at most `n`; empty for `NULL`.
abbrev pub fgets : ℕ → Bytes → Bytes
fgets zero rest = []
fgets (suc n) [] = []
fgets (suc n) (b ∷ rest) = if b == 10 then b ∷ [] else b ∷ fgets n rest

-- `sdbtGetRecordSize`, which is `strlen`.
abbrev pub sdbt_get_record_size : Bytes → ℕ
sdbt_get_record_size rec = length (c_string rec)

abbrev pub starts_with : ℕ → Bytes → Bool
starts_with c [] = false
starts_with c (b ∷ _) = b == c

-- `;` marks a deleted line.
abbrev pub sdbt_check_deleted : Bytes → Bool
sdbt_check_deleted rec = starts_with 0x3B rec

-- `@` marks a line of bad format, and `?` one that is to get a comment.
abbrev pub sdbt_check_ignored : Bytes → Bool
sdbt_check_ignored rec = starts_with 0x40 rec || starts_with 0x3F rec

abbrev pub sdbt_mark_deleted : Bytes → Bytes
sdbt_mark_deleted [] = []
sdbt_mark_deleted (_ ∷ rest) = 0x3B ∷ rest

-- `rec[strlen(rec) - 1] == '\n'`
abbrev pub ends_line : Bytes → Bool
ends_line [] = false
ends_line (b ∷ []) = b == 10
ends_line (_ ∷ rest) = ends_line rest

-- `check_key(rec, key) == SDB_CHECK_KEY_EQUAL`; a check marks a line that it cannot read.
abbrev pub Check : Type 0
Check = Bytes → Db → Bool × Db

-- `check_key == NULL`
abbrev pub any_record : Check
any_record rec db = (true, db)

-- `check_ignore` is `NULL` while the file is consolidated.
abbrev pub is_skipped : Bool → Bytes → Bool
is_skipped ignore rec = sdbt_check_deleted rec || (ignore && sdbt_check_ignored rec)

-- The record and the position behind it, if there is one.
abbrev pub Found : Type 0
Found = Option (Bytes × ℕ) × Db

-- What becomes of a record that the check was made on: `next` goes on behind it.
unfoldable pub checked : Bytes → ℕ → (Db → Found) → Bool × Db → Found
checked rec context next (true, db) = (some (rec, context), db)
checked rec context next (false, db) = next db

-- One round of the loop of `sdb_get_record`, with what `fgets` has read: `next` goes on at a
-- position.
unfoldable pub round : Bool → Check → ℕ → (ℕ → Db → Found) → Bytes → Db → Found
unfolding checked
round ignore check context next [] db = (none, db)
round ignore check context next (b ∷ bs) db =
    let rec = b ∷ bs in
    let context' = context + length rec in
    let db' = record db {
      last_accessed_record_start_file_pointer = context;
      last_accessed_record_size = sdbt_get_record_size rec;
    } in
    if ends_line (c_string rec)
    then (if is_skipped ignore rec
        then next context' db'
        else checked rec context' (next context') (check rec db'))
    else (none, db')

-- `context` is the position of the next line.
unfoldable pub get_loop : ℕ → Bool → Check → ℕ → Db → Found
unfolding round
get_loop zero ignore check context db = (none, db)
get_loop (suc fuel) ignore check context db =
    round ignore check context (get_loop fuel ignore check) (fgets 499 (drop context db.file)) db

-- A line has at least one byte, so the file has no more lines than bytes.
unfoldable pub sdb_get_record : Bool → Check → ℕ → Db → Found
unfolding get_loop
sdb_get_record ignore check context db = get_loop (suc (length db.file)) ignore check context db

unfoldable pub sdb_add_record : Bytes → Db → Db
sdb_add_record rec db = record db {
  file = db.file ++ c_string rec;
  last_accessed_record_start_file_pointer = length db.file;
  last_accessed_record_size = sdbt_get_record_size rec;
}

-- `fwrite` at a position.
abbrev pub overwrite : ℕ → Bytes → Bytes → Bytes
overwrite start bs file = take start file ++ bs ++ drop (start + length bs) file

-- `none` for FALSE.
unfoldable pub sdb_modify_last_accessed_record : Bytes → Db → Option Db
sdb_modify_last_accessed_record rec db =
    if sdbt_get_record_size rec == db.last_accessed_record_size
    then some (record db {
      file =
          overwrite db.last_accessed_record_start_file_pointer
            (take db.last_accessed_record_size rec) db.file;
    })
    else none

unfoldable pub delete_found : Found → Option Bytes × Db
unfolding sdb_modify_last_accessed_record
delete_found (none, db) = (none, db)
delete_found (some (rec, _), db) =
    elim (sdb_modify_last_accessed_record (sdbt_mark_deleted rec) db) [
      | none ↦ (none, db)
      | some db' ↦ (some (sdbt_mark_deleted rec), db')
    ]

unfoldable pub sdb_delete_record : Check → Db → Option Bytes × Db
unfolding sdb_get_record delete_found
sdb_delete_record check db = delete_found (sdb_get_record true check 0 db)

-- A record, and what follows it.
unfoldable pub follow : Found → (ℕ → Db → List Bytes) → List Bytes
follow (none, db) next = []
follow (some (rec, context), db) next = rec ∷ next context db

-- What the loop of `sdbtGetRecordCount` goes through, and the loops of the lists' enumerations:
-- `SDB_GET_NEXT_RECORD` until it returns `NULL`.
unfoldable pub next_records : ℕ → ℕ → Db → List Bytes
unfolding sdb_get_record follow
next_records zero context db = []
next_records (suc fuel) context db =
    follow (sdb_get_record true any_record context db) (next_records fuel)

-- There are no more records than bytes. The count is a `uint32_t`.
unfoldable pub sdbt_get_record_count : Db → ℕ
unfolding next_records
sdbt_get_record_count db = length (next_records (suc (length db.file)) 0 db) % 2 ^ 32
