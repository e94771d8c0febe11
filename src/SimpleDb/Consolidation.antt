-- ===== src/SimpleDb/Consolidation.antt =====
-- The consolidation of a file (`sdb_consolidate_db` of server/Source/SimpleDB.c, with
-- `sdbtErrorComment` of server/Source/SimpleDBTxt.c): deleted lines are left out, and a line marked as
-- bad gets a comment on its error. The new file replaces the old one.
pub mod Kept
use Prim.Native.Char.{code}
use Prim.Native.String.{String}
use Prim.Native.String
use lighting_gateway.Prelude.{
  if◌then◌else◌, ℕ, ◌&&◌, ◌++◌, ◌+◌, ◌-◌, ◌==◌, ◌∷◌, [], false, get_or, length, ltb, none, not,
  replicate, some, suc, true, zero,
}
use lighting_gateway.Prelude.Reading.{Bytes, c_string}
use lighting_gateway.SimpleDb.{
  Db, Found, starts_with, any_record, sdb_get_record, sdb_add_record, checked,
}
use lighting_gateway.SimpleDb.Fields.{Parser, fail, sdb_txt_parser_get_numeric_field}

abbrev pub codes : String → Bytes
codes String.[] = []
codes (String.◌∷◌ c s) = code c ∷ codes s

-- `parsingErrorStrings`
abbrev pub parsing_error_string : ℕ → Bytes
parsing_error_string n =
    get_or
      (codes "SDB_TXT_PARSER_RESULT_OK"
        ∷ codes "SDB_TXT_PARSER_RESULT_REACHED_END_OF_RECORD"
        ∷ codes "SDB_TXT_PARSER_RESULT_UNEXPECTED_CHARACTER_OR_TOO_LONG"
        ∷ codes "SDB_TXT_PARSER_RESULT_FIELD_MISSING"
        ∷ codes "SDB_TXT_PARSER_RESULT_HEX_UNEXPECTED_CHARACTER_OR_TOO_SHORT"
        ∷ codes "SDB_TXT_PARSER_RESULT_VALUE_OUT_OF_RANGE"
        ∷ codes "SDB_TXT_PARSER_RESULT_MISSING_STARTING_QUOTE"
        ∷ codes "SDB_TXT_PARSER_RESULT_MISSING_ENDING_QUOTE"
        ∷ codes "SDB_TXT_PARSER_RESULT_STRING_TOO_LONG"
        ∷ [])
      n []

-- `%*s` of `^` with a width of `n - less`: a negative width puts the spaces behind it.
abbrev pub caret : ℕ → ℕ → Bytes
caret n less =
    if ltb n less
    then 0x5E ∷ replicate (less - n - 1) 0x20
    else replicate (n - less - 1) 0x20 ++ 0x5E ∷ []

-- The value of a field after the call that parses it: a local variable that no number was stored in has
-- what the stack holds.
abbrev pub stored : ℕ → Parser → ℕ × Parser → ℕ
stored unset before (v, p) = if (before.code == 0) && not (p.code == 5) then v else unset

-- `errorLocation = pBuf - 2`
abbrev pub header_error : Parser → Parser
header_error p = fail 5 (length p.rest + 2) p

unfoldable pub offset_checked : ℕ → ℕ × Parser → ℕ × Parser
offset_checked size (offset, p) = (offset, if ltb offset size then p else header_error p)

unfoldable pub code_checked : ℕ → ℕ → ℕ → ℕ × Parser → ℕ × ℕ × Parser
unfolding offset_checked
code_checked unset size code (_, p) =
    let r = sdb_txt_parser_get_numeric_field 2 p in
    let (offset, q) = offset_checked size (stored unset p r, r.1) in
    if ltb 8 code then (code, unset, header_error p) else (code, offset, q)

-- The comment on a line.
abbrev pub comment_of : Bytes → ℕ × ℕ × Parser → Bytes
comment_of rec (code, offset, p) =
    if p.code == 0
    then codes "@ERROR:" ++ (caret offset 6 ++ (0x20 ∷ (parsing_error_string code ++ 10 ∷ [])))
    else 0x40
      ∷ (caret (length rec - p.error_left) 0
          ++ (codes " BAD_ERROR_DESCRIPTION_HEADER ("
              ++ (parsing_error_string p.code ++ (0x29 ∷ 10 ∷ []))))

-- `sprintf` into `comment`, which has 500 places.
abbrev pub add_comment : Bytes → Db → Db
add_comment comment db =
    if ltb (length comment) 500 then sdb_add_record comment db else record db { fault = true }

unfoldable pub add_pending : ℕ → ℕ → Bytes → Db → Db
unfolding code_checked
add_pending unset_code unset_offset [] db = db
add_pending unset_code unset_offset (mark ∷ text) db =
    let rec = 0x40 ∷ text in
    let db' = sdb_add_record rec (sdb_add_record (codes "@-------\n") db) in
    let start : Parser = record {
      rest = text;
      code = 0;
      error_left = 0;
      field = 0;
      erange = db'.erange;
    } in
    let first = sdb_txt_parser_get_numeric_field 1 start in
    let checked = code_checked unset_offset (length rec) (stored unset_code start first) first in
    sdb_add_record (codes "@\n")
      (add_comment (comment_of rec checked) (record db' { erange = checked.2.erange }))

-- With what the stack holds in the two local variables.
unfoldable pub sdbt_error_comment : ℕ → ℕ → Bytes → Db → Db
unfolding add_pending
sdbt_error_comment unset_code unset_offset rec db =
    if starts_with 0x3F rec
    then add_pending unset_code unset_offset (c_string rec) db
    else sdb_add_record rec db

unfoldable pub consolidated : ℕ → ℕ → Found → Db → (ℕ → Db → Db → Db) → Db
unfolding sdbt_error_comment
consolidated unset_code unset_offset (none, db) temp next = temp
consolidated unset_code unset_offset (some (rec, context), db) temp next =
    next context db (sdbt_error_comment unset_code unset_offset rec temp)

-- `check_ignore` is `NULL` for the old file.
unfoldable pub consolidate_loop : ℕ → ℕ → ℕ → ℕ → Db → Db → Db
unfolding sdb_get_record consolidated
consolidate_loop unset_code unset_offset zero context db temp = temp
consolidate_loop unset_code unset_offset (suc fuel) context db temp =
    consolidated unset_code unset_offset (sdb_get_record false any_record context db) temp
      (consolidate_loop unset_code unset_offset fuel)

-- A new file.
abbrev pub new_db : Db → Db
new_db db = record {
  file = [];
  last_accessed_record_start_file_pointer = 0;
  last_accessed_record_size = 0;
  erange = db.erange;
  fault = db.fault;
}

unfoldable pub sdb_consolidate_db : ℕ → ℕ → Db → Db
unfolding consolidate_loop
sdb_consolidate_db unset_code unset_offset db =
    consolidate_loop unset_code unset_offset (suc (length db.file)) 0 db (new_db db)
