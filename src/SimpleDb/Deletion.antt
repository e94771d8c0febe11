-- ===== src/SimpleDb/Deletion.antt =====
-- Deleting a record marks its line, and nothing else in the file changes.
use lighting_gateway.Prelude.{
  ℕ, ◌++◌, ◌+◌, ◌==◌, ◌∙◌, ◌∷◌, ◌≡◌, All, All-split, Bool, Bool-cases, List, Option, [], ap,
  append_assoc, arith, inl, inr, length, length-append, none, refl, some, sym, take, take_all, true,
}
use lighting_gateway.Prelude.Reading.{Bytes, c_string}
use lighting_gateway.SimpleDb.{
  Found, sdbt_mark_deleted, overwrite, delete_found, sdbt_get_record_size, is_skipped,
  sdb_modify_last_accessed_record, Db, sdb_get_record, sdb_delete_record,
}
use lighting_gateway.SimpleDb.Lines.{
  IsBody, line_of, file_of, c_string-line_of, drop-length, take-length, file_of-append,
}
use lighting_gateway.SimpleDb.Records.{find, Split, push, by, Finds, sdb_get_record-find}

overwrite_lem :
    (a old new rest : Bytes)
    → length new ≡ length old
    → overwrite (length a) new (a ++ (old ++ rest)) ≡ a ++ (new ++ rest)
overwrite_lem a old new rest e =
    let size : length a + length new ≡ length (a ++ old) = omega (arith, e, length-append a old) in
    rw (take-length a (old ++ rest), size, ← append_assoc a old rest, drop-length (a ++ old) rest)
      (append_assoc a new rest)

-- The parts are those of the list.
abbrev Parts : List Bytes → Split → Type 0
Parts ls none = Unit
Parts ls (some (pre, x, post)) = ls ≡ pre ++ x ∷ post

Parts-push : (b : Bytes) (ls : List Bytes) (r : Split) → Parts ls r → Parts (b ∷ ls) (push b r)
Parts-push b ls none h = tt
Parts-push b ls (some (pre, x, post)) h = ap (λ l. b ∷ l) h

find-Parts : (ignore : Bool) (p : Bytes → Bool) (ls : List Bytes) → Parts ls (find ignore p ls)
unfolding find
find-Parts ignore p [] = tt
find-Parts ignore p (b ∷ ls) =
    let later = Parts-push b ls (find ignore p ls) (find-Parts ignore p ls) in
    elim (Bool-cases (is_skipped ignore (line_of b))) [
      | inl skipped ↦ rw skipped later
      | inr live ↦ elim (Bool-cases (p (line_of b))) [
        | inl hit ↦ rw (live, hit) refl
        | inr miss ↦ rw (live, miss) later
      ]
    ]

delete_found_lem :
    (pre : List Bytes) (x : Bytes) (post : List Bytes) (context : ℕ) (found : Found)
    → IsBody x
    → found.0 ≡ some (line_of x, context)
    → found.1.file ≡ file_of (pre ++ x ∷ post)
    → found.1.last_accessed_record_start_file_pointer ≡ length (file_of pre)
    → found.1.last_accessed_record_size ≡ length (line_of x)
    → ((delete_found found).0 ≡ some (line_of (sdbt_mark_deleted x)))
      × ((delete_found found).1.file ≡ file_of (pre ++ sdbt_mark_deleted x ∷ post))
unfolding delete_found
delete_found_lem pre [] post context found h hit file start size = absurd (omega (arith, h.1))
delete_found_lem pre (c ∷ x) post context found h hit file start size =
    let marked = line_of (0x3B ∷ x) in
    let string : c_string marked ≡ marked =
      c_string-line_of (0x3B ∷ x) ((ground arith, ground arith), h.0.1) in
    let same : length marked ≡ length (line_of (c ∷ x)) = refl in
    let db = found.1 in
    let room : (sdbt_get_record_size marked == db.last_accessed_record_size) ≡ true =
      ground (arith, ap (λ l. length l) string, size) in
    let new_file : overwrite db.last_accessed_record_start_file_pointer
          (take db.last_accessed_record_size marked) db.file
        ≡ file_of (pre ++ (0x3B ∷ x) ∷ post) =
      ap (λ n. overwrite n (take db.last_accessed_record_size marked) db.file) start
      ∙ ap (λ n. overwrite (length (file_of pre)) (take n marked) db.file) size
      ∙ ap (λ t. overwrite (length (file_of pre)) t db.file)
          (take_all (length marked) marked (omega arith))
      ∙ ap (overwrite (length (file_of pre)) marked) (file ∙ file_of-append pre ((c ∷ x) ∷ post))
      ∙ overwrite_lem (file_of pre) (line_of (c ∷ x)) marked (file_of post) refl
      ∙ sym (file_of-append pre ((0x3B ∷ x) ∷ post)) in
    let modified : sdb_modify_last_accessed_record marked db
        ≡ some (record db { file = file_of (pre ++ (0x3B ∷ x) ∷ post) }) =
      (unfold sdb_modify_last_accessed_record in rw (room, new_file) refl) in
    rw (hit, delete_found, modified) (refl, refl)

-- The lines after a deletion, and what the call returns.
abbrev pub marked : Split → List Bytes → List Bytes
marked none ls = ls
marked (some (pre, x, post)) ls = pre ++ sdbt_mark_deleted x ∷ post

abbrev pub returned : Split → Option Bytes
returned none = none
returned (some (pre, x, post)) = some (line_of (sdbt_mark_deleted x))

delete_found-Finds :
    (p : Bytes → Bool) (ls : List Bytes) (file : Bytes) (r : Split) (found : Found)
    → All IsBody ls
    → file ≡ file_of ls
    → Parts ls r
    → Finds true p [] r file found
    → ((delete_found found).0 ≡ returned r) × ((delete_found found).1.file ≡ file_of (marked r ls))
delete_found-Finds p ls file none found h e parts f =
    unfold delete_found in rw (f.0, delete_found) (refl, f.1 ∙ e)
delete_found-Finds p ls file (some (pre, x, post)) found h e parts f =
    delete_found_lem pre x post (length (file_of pre) + length (line_of x)) found
      (All-split IsBody pre x post (rw parts at h)).0 f.0 (f.1 ∙ e ∙ ap file_of parts) f.2.0 f.2.1

pub sdb_delete_record_lem :
    (p : Bytes → Bool) (ls : List Bytes) (db : Db)
    → All IsBody ls
    → db.file ≡ file_of ls
    → ((sdb_delete_record (by p) db).0 ≡ returned (find true p ls))
      × ((sdb_delete_record (by p) db).1.file ≡ file_of (marked (find true p ls) ls))
unfolding sdb_delete_record
sdb_delete_record_lem p ls db h e =
    delete_found-Finds p ls db.file (find true p ls) (sdb_get_record true (by p) 0 db) h e
      (find-Parts true p ls) (sdb_get_record-find true p [] ls db h e)
