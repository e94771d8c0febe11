-- ===== src/SimpleDb/Parsing.antt =====
-- A line of the database as a value: what a `…ListParseRecord` function makes of it, with the mark of
-- a bad line (`sdbtMarkError` of server/Source/SimpleDBTxt.c), and the searches that the lists do by
-- such a function (server/Source/interface_devicelist.c, interface_grouplist.c,
-- interface_scenelist.c).
use lighting_gateway.Prelude.{
  if◌then◌else◌, ℕ, ◌%◌, ◌++◌, ◌+◌, ◌-◌, ◌/◌, ◌∷◌, Bool, List, Option, [], drop, false, length, ltb,
  none, some, suc, true, zero,
}
use lighting_gateway.Prelude.Reading.{Bytes, c_string}
use lighting_gateway.SimpleDb.{
  Db, Check, Found, any_record, sdb_get_record, sdb_delete_record, sdb_modify_last_accessed_record,
}
use lighting_gateway.SimpleDb.Fields.{Parser}

-- The value, or the parser that `sdbtMarkError` marks the line with.
pub data Parsed (R : Type 0) : Type 0 where
  value : R → Parsed R
  mark_error : Parser → Parsed R

-- From whether `errno` is `ERANGE` and the line; `none`: the text was read past its end.
abbrev pub ParseRecord : Type 0 → Type 0
ParseRecord R = Bool → Bytes → Option (Parsed R)

-- `%3d` of a number below 1000.
abbrev pub print_offset : ℕ → Bytes
print_offset n =
    (if ltb n 100 then 0x20 else 48 + n / 100)
    ∷ (if ltb n 10 then 0x20 else 48 + n / 10 % 10)
    ∷ (48 + n % 10)
    ∷ []

-- The new text of a line that is at least as long as the mark.
abbrev pub marked_line : Bytes → Parser → Bytes
marked_line rec p =
    0x3F ∷ (48 + p.code) ∷ 0x2C ∷ (print_offset (length rec - p.error_left) ++ (0x2C ∷ drop 7 rec))

abbrev pub or_same : Db → Option Db → Db
or_same db none = db
or_same db (some db') = db'

-- The mark has seven characters. Written over a shorter line it makes it longer, and the file is not
-- changed, as `sdb_modify_last_accessed_record` compares the sizes.
unfoldable pub sdbt_mark_error : Bytes → Parser → Db → Db
unfolding sdb_modify_last_accessed_record
sdbt_mark_error rec p db =
    if ltb (length rec) 7
    then db
    else or_same db (sdb_modify_last_accessed_record (marked_line rec p) db)

unfoldable pub outcome : {R : Type 0} → Bytes → Db → Option (Parsed R) → Option R × Db
unfolding sdbt_mark_error
outcome rec db none = (none, record db { fault = true })
outcome rec db (some (value r)) = (some r, db)
outcome rec db (some (mark_error p)) =
    (none, sdbt_mark_error rec p (record db { erange = p.erange }))

-- A test that compares by no null pointer.
abbrev pub always : {R : Type 0} → (R → Bool) → R → Option Bool
always q r = some (q r)

-- The record of a search.
abbrev pub found_line : Found → Option Bytes × Db
found_line (none, db) = (none, db)
found_line (some (rec, context), db) = (some rec, db)

abbrev pub some_found : Found → Bool × Db
some_found (none, db) = (false, db)
some_found (some r, db) = (true, db)

-- `again` goes on with the next number.
abbrev pub unused_step : ℕ → Bool × Db → (Db → Option ℕ × Db) → Option ℕ × Db
unused_step n (true, db) again = again db
unused_step n (false, db) again = (some n, db)

-- After as many rounds as there are numbers each was tried, and the loop goes on for ever.
unfoldable pub never_ends : Option ℕ × Db → ℕ × Db
never_ends (none, db) = (0, record db { fault = true })
never_ends (some n, db) = (n, db)

module _ {R : Type 0} (parse : ParseRecord R) where
  unfoldable pub parse_record : Bytes → Db → Option R × Db
  unfolding outcome
  parse_record rec db = outcome (c_string rec) db (parse db.erange (c_string rec))

  -- What a key check makes of a line; the test gives `none` where it compares by a null pointer.
  unfoldable pub tested : (R → Option Bool) → Option R × Db → Bool × Db
  tested test (none, db) = (false, db)
  tested test (some r, db) = elim (test r) [
    | none ↦ (false, record db { fault = true })
    | some b ↦ (b, db)
  ]

  unfoldable pub check_key : (R → Option Bool) → Check
  unfolding parse_record tested
  check_key test rec db = tested test (parse_record rec db)

  unfoldable pub parse_found : Option Bytes × Db → Option R × Db
  unfolding parse_record
  parse_found (none, db) = (none, db)
  parse_found (some rec, db) = parse_record rec db

  -- `SDB_GET_UNIQUE_RECORD`, and the record is parsed.
  unfoldable pub get_unique : (R → Option Bool) → Db → Option R × Db
  unfolding sdb_get_record check_key parse_found
  get_unique test db = parse_found (found_line (sdb_get_record true (check_key test) 0 db))

  -- `…ListParseRecord(sdb_delete_record(…))`
  unfoldable pub remove_unique : (R → Option Bool) → Db → Option R × Db
  unfolding sdb_delete_record check_key parse_found
  remove_unique test db = parse_found (sdb_delete_record (check_key test) db)

  unfoldable pub next_parsed :
      ℕ → Option R × Db → (ℕ → Db → Option (R × ℕ) × Db) → Option (R × ℕ) × Db
  next_parsed context (none, db) again = again context db
  next_parsed context (some r, db) again = (some (r, context), db)

  unfoldable pub next_found : Found → (ℕ → Db → Option (R × ℕ) × Db) → Option (R × ℕ) × Db
  unfolding parse_record next_parsed
  next_found (none, db) again = (none, db)
  next_found (some (rec, context), db) again = next_parsed context (parse_record rec db) again

  -- `…ListGetNext…`: lines of bad format are skipped. Every round takes a line.
  unfoldable pub next_loop : ℕ → ℕ → Db → Option (R × ℕ) × Db
  unfolding sdb_get_record next_found
  next_loop zero context db = (none, db)
  next_loop (suc fuel) context db =
      next_found (sdb_get_record true any_record context db) (next_loop fuel)

  unfoldable pub get_next : ℕ → Db → Option (R × ℕ) × Db
  unfolding next_loop
  get_next context db = next_loop (suc (length db.file)) context db

  unfoldable pub enumerated : Option (R × ℕ) × Db → (ℕ → Db → List R × Db) → List R × Db
  enumerated (none, db) more = ([], db)
  enumerated (some (r, context), db) more = let (rs, db') = more context db in (r ∷ rs, db')

  -- The calls of `…ListGetNext…` one after the other, until there is none.
  unfoldable pub enumerate : ℕ → ℕ → Db → List R × Db
  unfolding get_next enumerated
  enumerate zero context db = ([], db)
  enumerate (suc fuel) context db = enumerated (get_next context db) (enumerate fuel)

  -- `SDB_GET_UNIQUE_RECORD(…) != NULL`
  unfoldable pub has_unique : (R → Option Bool) → Db → Bool × Db
  unfolding sdb_get_record check_key
  has_unique test db = some_found (sdb_get_record true (check_key test) 0 db)

  -- The loop that looks for a number that no record has, from `n` on and around at `count`; `none`:
  -- it goes on for longer than `fuel` rounds.
  unfoldable pub unused_loop : (ℕ → R → Option Bool) → ℕ → ℕ → ℕ → Db → Option ℕ × Db
  unfolding has_unique
  unused_loop test count zero n db = (none, db)
  unused_loop test count (suc fuel) n db =
      unused_step n (has_unique (test n) db) (unused_loop test count fuel ((n + 1) % count))

  unfoldable pub get_unused : (ℕ → R → Option Bool) → ℕ → ℕ → Db → ℕ × Db
  unfolding unused_loop never_ends
  get_unused test count last db = never_ends (unused_loop test count count ((last + 1) % count) db)
