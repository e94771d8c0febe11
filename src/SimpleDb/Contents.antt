-- ===== src/SimpleDb/Contents.antt =====
-- What the database promises: it is a list of records, to which records are added at the end, from
-- which the first that passes a test is deleted, and which is gone through in order.
use lighting_gateway.Prelude.{
  if◌then◌else◌, ℕ, ◌++◌, ◌∙◌, ◌∷◌, ◌≡◌, All, All-append, Bool, Bool-cases, List, Option, [], ap,
  append-nil, arith, false, inl, inr, none, refl, some, sym, true,
}
use lighting_gateway.Prelude.Reading.{Bytes}
use lighting_gateway.SimpleDb.{
  Db, is_skipped, sdbt_mark_deleted, sdb_add_record, sdb_delete_record, sdb_get_record,
}
use lighting_gateway.SimpleDb.Lines.{IsBody, line_of, file_of, c_string-line_of, file_of-append}
use lighting_gateway.SimpleDb.Records.{find, by, Split, push, told, sdb_get_record-find}
use lighting_gateway.SimpleDb.Deletion.{marked, returned, sdb_delete_record_lem}

-- The records of a file: its lines without a mark.
unfoldable pub records : List Bytes → List Bytes
records [] = []
records (b ∷ ls) = if is_skipped true (line_of b) then records ls else b ∷ records ls

-- The first record that passes a test, and the others.
abbrev pub first : (Bytes → Bool) → List Bytes → Option Bytes
first p [] = none
first p (b ∷ bs) = if p (line_of b) then some b else first p bs

abbrev pub without_first : (Bytes → Bool) → List Bytes → List Bytes
without_first p [] = []
without_first p (b ∷ bs) = if p (line_of b) then bs else b ∷ without_first p bs

-- The file has these records.
abbrev pub Holds : Db → List Bytes → Type 0
Holds db rs = (ls : List Bytes) × (db.file ≡ file_of ls) × All IsBody ls × (records ls ≡ rs)

abbrev pub IsRecord : Bytes → Type 0
IsRecord b = IsBody b × (is_skipped true (line_of b) ≡ false)

records-append : (a b : List Bytes) → records (a ++ b) ≡ records a ++ records b
unfolding records
records-append [] b = refl
records-append (x ∷ a) b = elim (Bool-cases (is_skipped true (line_of x))) [
  | inl skipped ↦ rw skipped (records-append a b)
  | inr live ↦ rw live (ap (λ l. x ∷ l) (records-append a b))
]

-- Adding a line that fits the buffer and begins with no mark to a file that holds a list of records
-- gives a file that holds the list with that record at the end.
pub add-Holds :
    (b : Bytes) (db : Db) (rs : List Bytes)
    → IsRecord b
    → Holds db rs
    → Holds (sdb_add_record (line_of b) db) (rs ++ b ∷ [])
unfolding sdb_add_record
add-Holds b db rs h (ls, e, bodies, r) = (
  ls ++ b ∷ [],
  rw (c_string-line_of b h.0.0, e)
      (ap (λ l. file_of ls ++ l) (sym (append-nil (line_of b))) ∙ sym (file_of-append ls (b ∷ []))),
  All-append IsBody ls (b ∷ []) bodies (h.0, tt),
  records-append ls (b ∷ []) ∙ (unfold records in rw (h.1, r) refl),
)

abbrev pub returned_of : Option Bytes → Option Bytes
returned_of none = none
returned_of (some b) = some (line_of (sdbt_mark_deleted b))

returned-push : (b : Bytes) (r : Split) → returned (push b r) ≡ returned r
returned-push b none = refl
returned-push b (some (pre, x, post)) = refl

marked-push :
    (b : Bytes) (ls : List Bytes) (r : Split) → marked (push b r) (b ∷ ls) ≡ b ∷ marked r ls
marked-push b ls none = refl
marked-push b ls (some (pre, x, post)) = refl

mark-skipped : (b : Bytes) → IsBody b → is_skipped true (line_of (sdbt_mark_deleted b)) ≡ true
mark-skipped [] h = absurd (omega (arith, h.1))
mark-skipped (c ∷ b) h = refl

returned-find :
    (p : Bytes → Bool) (ls : List Bytes)
    → returned (find true p ls) ≡ returned_of (first p (records ls))
unfolding find records
returned-find p [] = refl
returned-find p (b ∷ ls) =
    let later = returned-push b (find true p ls) ∙ returned-find p ls in
    elim (Bool-cases (is_skipped true (line_of b))) [
      | inl skipped ↦ rw skipped later
      | inr live ↦ elim (Bool-cases (p (line_of b))) [
        | inl hit ↦ rw (live, hit) refl
        | inr miss ↦ rw (live, miss) later
      ]
    ]

records-marked :
    (p : Bytes → Bool) (ls : List Bytes)
    → All IsBody ls
    → records (marked (find true p ls) ls) ≡ without_first p (records ls)
unfolding find records
records-marked p [] h = refl
records-marked p (b ∷ ls) h =
    let later = records-marked p ls h.1 in
    elim (Bool-cases (is_skipped true (line_of b))) [
      | inl skipped ↦ rw (skipped, marked-push b ls (find true p ls), skipped) later
      | inr live ↦ elim (Bool-cases (p (line_of b))) [
        | inl hit ↦ rw (live, hit, mark-skipped b h.0) refl
        | inr miss ↦
            rw (live, miss, marked-push b ls (find true p ls), live) (ap (λ l. b ∷ l) later)
      ]
    ]

pub mark-IsBody : (b : Bytes) → IsBody b → IsBody (sdbt_mark_deleted b)
mark-IsBody [] h = h
mark-IsBody (c ∷ b) h = (((ground arith, ground arith), h.0.1), h.1, h.2)

All-marked-IsBody :
    (p : Bytes → Bool) (ls : List Bytes) → All IsBody ls → All IsBody (marked (find true p ls) ls)
unfolding find
All-marked-IsBody p [] h = tt
All-marked-IsBody p (b ∷ ls) h =
    let later : All IsBody (marked (push b (find true p ls)) (b ∷ ls)) =
      rw (marked-push b ls (find true p ls)) (h.0, All-marked-IsBody p ls h.1) in
    elim (Bool-cases (is_skipped true (line_of b))) [
      | inl skipped ↦ rw skipped later
      | inr live ↦ elim (Bool-cases (p (line_of b))) [
        | inl hit ↦ rw (live, hit) (mark-IsBody b h.0, h.1)
        | inr miss ↦ rw (live, miss) later
      ]
    ]

-- A file that holds a list of records, each on a line that fits the buffer, holds after a deletion
-- the list without the first record that passes a test of its text; that record is returned with
-- its mark. Deleted lines and lines of bad format stand in the file and count for nothing.
pub delete-Holds :
    (p : Bytes → Bool) (db : Db) (rs : List Bytes)
    → Holds db rs
    → ((sdb_delete_record (by p) db).0 ≡ returned_of (first p rs))
      × Holds (sdb_delete_record (by p) db).1 (without_first p rs)
delete-Holds p db rs (ls, e, bodies, r) =
    let (back, file) = sdb_delete_record_lem p ls db bodies e in
    (
      back ∙ returned-find p ls ∙ ap (λ l. returned_of (first p l)) r,
      (
        marked (find true p ls) ls,
        file,
        All-marked-IsBody p ls bodies,
        records-marked p ls bodies ∙ ap (without_first p) r,
      ),
    )

-- The record that a search has found.
abbrev pub record_of : Option (Bytes × ℕ) → Option Bytes
record_of none = none
record_of (some (rec, _)) = some rec

abbrev pub line_of_found : Option Bytes → Option Bytes
line_of_found none = none
line_of_found (some b) = some (line_of b)

record_of-push :
    (before : List Bytes) (b : Bytes) (r : Split)
    → record_of (told before (push b r)) ≡ record_of (told before r)
record_of-push before b none = refl
record_of-push before b (some (pre, x, post)) = refl

record_of-find :
    (p : Bytes → Bool) (ls : List Bytes)
    → record_of (told [] (find true p ls)) ≡ line_of_found (first p (records ls))
unfolding find records
record_of-find p [] = refl
record_of-find p (b ∷ ls) =
    let later = record_of-push [] b (find true p ls) ∙ record_of-find p ls in
    elim (Bool-cases (is_skipped true (line_of b))) [
      | inl skipped ↦ rw skipped later
      | inr live ↦ elim (Bool-cases (p (line_of b))) [
        | inl hit ↦ rw (live, hit) refl
        | inr miss ↦ rw (live, miss) later
      ]
    ]

-- Searching a file that holds a list of records from its start returns the line of the first record
-- that passes a test of its text, or nothing if none does, and leaves the file as it is.
pub get-Holds :
    (p : Bytes → Bool) (db : Db) (rs : List Bytes)
    → Holds db rs
    → (record_of (sdb_get_record true (by p) 0 db).0 ≡ line_of_found (first p rs))
      × ((sdb_get_record true (by p) 0 db).1.file ≡ db.file)
get-Holds p db rs (ls, e, bodies, r) =
    let (found, file, _) = sdb_get_record-find true p [] ls db bodies e in
    (ap record_of found ∙ record_of-find p ls ∙ ap (λ l. line_of_found (first p l)) r, file)
