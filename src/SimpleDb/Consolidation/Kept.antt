-- ===== src/SimpleDb/Consolidation/Kept.antt =====
-- Consolidation leaves out the deleted lines and nothing else, where no line waits for a comment.
use lighting_gateway.Prelude.{
  if◌then◌else◌, ℕ, ◌++◌, ◌<◌, ◌∙◌, ◌∷◌, ◌≡◌, All, All-split, All-suffix, Bool, Bool-cases, List,
  [], ap, append-nil, append_assoc, arith, false, inl, inr, length, length-append, none, refl, some,
  suc, sym, true, zero,
}
use lighting_gateway.Prelude.Reading.{Bytes}
use lighting_gateway.SimpleDb.{
  Db, Found, starts_with, is_skipped, any_record, sdb_get_record, sdb_add_record,
}
use lighting_gateway.SimpleDb.Lines.{IsBody, line_of, file_of, c_string-line_of, lines_le}
use lighting_gateway.SimpleDb.Records.{Split, push, find, Finds, behind, sdb_get_record-find}
use lighting_gateway.SimpleDb.Contents.{records, Holds}
use lighting_gateway.SimpleDb.Consolidation.{
  sdbt_error_comment, consolidated, consolidate_loop, new_db, sdb_consolidate_db,
}

-- The lines that are not deleted.
abbrev pub kept : List Bytes → List Bytes
kept [] = []
kept (b ∷ ls) = if is_skipped false (line_of b) then kept ls else b ∷ kept ls

-- The line is not marked as one that is to get a comment.
abbrev pub IsCommented : Bytes → Type 0
IsCommented b = starts_with 0x3F (line_of b) ≡ false

abbrev anything : Bytes → Bool
anything rec = true

-- What the search for a line that is not deleted says of the lines.
abbrev Next : List Bytes → Split → Type 0
Next ls none = kept ls ≡ []
Next ls (some (pre, x, post)) = (ls ≡ pre ++ x ∷ post) × (kept ls ≡ x ∷ kept post)

Next-push :
    (b : Bytes) (ls : List Bytes) (r : Split)
    → is_skipped false (line_of b) ≡ true
    → Next ls r
    → Next (b ∷ ls) (push b r)
Next-push b ls none skipped h = rw skipped h
Next-push b ls (some (pre, x, post)) skipped h = (ap (λ l. b ∷ l) h.0, rw skipped h.1)

find-Next : (ls : List Bytes) → Next ls (find false anything ls)
unfolding find
find-Next [] = refl
find-Next (b ∷ ls) = elim (Bool-cases (is_skipped false (line_of b))) [
  | inl skipped ↦ rw skipped (Next-push b ls (find false anything ls) skipped (find-Next ls))
  | inr live ↦ rw live (refl, rw live refl)
]

skipped_more : (rec : Bytes) → is_skipped false rec ≡ true → is_skipped true rec ≡ true
skipped_more rec h = ground arith

records-kept : (ls : List Bytes) → records (kept ls) ≡ records ls
unfolding records
records-kept [] = refl
records-kept (b ∷ ls) = elim (Bool-cases (is_skipped false (line_of b))) [
  | inl deleted ↦ rw (deleted, skipped_more (line_of b) deleted) (records-kept ls)
  | inr kept_line ↦ rw kept_line (elim (Bool-cases (is_skipped true (line_of b))) [
    | inl skipped ↦ rw skipped (records-kept ls)
    | inr live ↦ rw live (ap (λ l. b ∷ l) (records-kept ls))
  ])
]

kept-IsBody : (ls : List Bytes) → All IsBody ls → All IsBody (kept ls)
kept-IsBody [] h = tt
kept-IsBody (b ∷ ls) h = elim (Bool-cases (is_skipped false (line_of b))) [
  | inl deleted ↦ rw deleted (kept-IsBody ls h.1)
  | inr kept_line ↦ rw kept_line (h.0, kept-IsBody ls h.1)
]

module _ (unset_code unset_offset : ℕ) where
  -- The file after a line was passed on.
  passed_on :
      (b : Bytes) (temp : Db)
      → IsBody b
      → IsCommented b
      → (sdbt_error_comment unset_code unset_offset (line_of b) temp).file ≡ temp.file ++ line_of b
  unfolding sdbt_error_comment sdb_add_record
  passed_on b temp h c = rw (c, c_string-line_of b h.0) refl

  -- What the rest of the loop does with the lines from a position on.
  abbrev Copies : ℕ → Type 0
  Copies fuel =
      (before ls : List Bytes) (db temp : Db)
      → All IsBody ls
      → All IsCommented ls
      → length ls < fuel
      → db.file ≡ file_of (before ++ ls)
      → (consolidate_loop unset_code unset_offset fuel (length (file_of before)) db temp).file
        ≡ temp.file ++ file_of (kept ls)

  consolidated_lem :
      (fuel : ℕ) (before ls : List Bytes) (db temp : Db) (r : Split) (found : Found)
      → All IsBody ls
      → All IsCommented ls
      → length ls < suc fuel
      → db.file ≡ file_of (before ++ ls)
      → Next ls r
      → Finds false anything before r db.file found
      → Copies fuel
      → (consolidated unset_code unset_offset found temp
          (consolidate_loop unset_code unset_offset fuel)).file
        ≡ temp.file ++ file_of (kept ls)
  unfolding consolidated
  consolidated_lem fuel before ls db temp none found h c k e next f ih =
      rw (f.0, next, consolidated) (sym (append-nil temp.file))
  consolidated_lem fuel before ls db temp (some (pre, x, post)) found h c k e next f ih =
      let bodies = All-split IsBody pre x post (rw next.0 at h) in
      let marks = All-split IsCommented pre x post (rw next.0 at c) in
      let fewer : length post < fuel =
        omega (arith, k, ap (λ l. length l) next.0, length-append pre (x ∷ post)) in
      let same_file : found.1.file ≡ file_of (((before ++ pre) ++ x ∷ []) ++ post) =
        f.1
        ∙ e
        ∙ ap file_of (
            ap (λ l. before ++ l) next.0
            ∙ sym (append_assoc before pre (x ∷ post))
            ∙ sym (append_assoc (before ++ pre) (x ∷ []) post)) in
      let temp' = sdbt_error_comment unset_code unset_offset (line_of x) temp in
      rw (f.0, consolidated, next.1, behind (before ++ pre) x)
        (ih ((before ++ pre) ++ x ∷ []) post found.1 temp' (All-suffix IsBody pre post bodies.1)
            (All-suffix IsCommented pre post marks.1) fewer same_file
          ∙ ap (λ l. l ++ file_of (kept post)) (passed_on x temp bodies.0 marks.0)
          ∙ append_assoc temp.file (line_of x) (file_of (kept post)))

  consolidate_loop-Copies : (fuel : ℕ) → Copies fuel
  unfolding consolidate_loop
  consolidate_loop-Copies zero before ls db temp h c k e = absurd (omega arith)
  consolidate_loop-Copies (suc fuel) before ls db temp h c k e =
      consolidated_lem fuel before ls db temp (find false anything ls)
        (sdb_get_record false any_record (length (file_of before)) db) h c k e (find-Next ls)
        (sdb_get_record-find false anything before ls db h e) (consolidate_loop-Copies fuel)

  -- Consolidating a file of lines that fit the buffer, none of which waits for a comment, gives a
  -- file with exactly the lines that are not marked as deleted, in their order, and so with the
  -- same records.
  pub sdb_consolidate_db-Holds :
      (ls : List Bytes) (db : Db)
      → All IsBody ls
      → All IsCommented ls
      → db.file ≡ file_of ls
      → ((sdb_consolidate_db unset_code unset_offset db).file ≡ file_of (kept ls))
        × Holds (sdb_consolidate_db unset_code unset_offset db) (records ls)
  unfolding sdb_consolidate_db
  sdb_consolidate_db-Holds ls db h c e =
      let file =
        consolidate_loop-Copies (suc (length db.file)) [] ls db (new_db db) h c
          (omega (arith, lines_le ls, ap (λ l. length l) e)) e in
      (file, (kept ls, file, kept-IsBody ls h, records-kept ls))
