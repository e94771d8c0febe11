-- ===== src/SimpleDb/Typed/Enumeration.antt =====
-- Going through a file of values gives all of them.
use mathlib.Core.List.{map}
use lighting_gateway.Prelude.{
  ℕ, ◌∷◌, ◌≡◌, All, List, Option, [], ap, length, none, refl, some, suc, true, zero,
}
use lighting_gateway.Prelude.Reading.{Bytes}
use lighting_gateway.SimpleDb.{Db, Found, any_record, sdb_get_record, follow, next_records}
use lighting_gateway.SimpleDb.Lines.{line_of}
use lighting_gateway.SimpleDb.Walk.{walk-Holds}
use lighting_gateway.SimpleDb.Agreement.{Keeps, sdb_get_record-Keeps}
use lighting_gateway.SimpleDb.Parsing.{
  ParseRecord, next_parsed, next_found, next_loop, get_next, enumerated, enumerate,
}
use lighting_gateway.SimpleDb.Typed.{Codec, HoldsAll, parse_record-body, same_file-HoldsAll}

module _ {R : Type 0} {parse : ParseRecord R} (codec : Codec parse) where
  open codec use {Readable, body, body-IsRecord, parse-body, parse-deleted}

  -- What going through a file has given.
  abbrev pub Enumerates : Bytes → List R → List R × Db → Type 0
  Enumerates file rs r = (r.0 ≡ rs) × Keeps file r.1

  enumerated-follow :
      (file : Bytes) (fuel : ℕ) (again : ℕ → Db → Option (R × ℕ) × Db) (f : Found) (rs : List R)
      → Keeps file f.1
      → All Readable rs
      → follow f (next_records fuel) ≡ map line_of (map body rs)
      → ((rs' : List R) (context : ℕ) (db : Db)
          → Keeps file db
          → All Readable rs'
          → next_records fuel context db ≡ map line_of (map body rs')
          → Enumerates file rs' (enumerate parse fuel context db))
      → Enumerates file rs (enumerated parse (next_found parse f again) (enumerate parse fuel))
  unfolding enumerated next_found next_parsed follow
  enumerated-follow file fuel again (none, db) [] c ok e ih = (refl, c)
  enumerated-follow file fuel again (none, db) (r ∷ rs) c ok e ih = cc
  enumerated-follow file fuel again (some (rec, context), db) [] c ok e ih = cc
  enumerated-follow file fuel again (some (rec, context), db) (r ∷ rs) c ok e ih =
      let same : rec ≡ line_of (body r) = cc in
      let later : next_records fuel context db ≡ map line_of (map body rs) = cc in
      let (all, kept) = ih rs context db c ok.1 later in
      rw (same, parse_record-body codec r db ok.0 c.1) (ap (λ l. r ∷ l) all, kept)

  enumerate-records :
      (file : Bytes) (fuel : ℕ) (rs : List R) (context : ℕ) (db : Db)
      → Keeps file db
      → All Readable rs
      → next_records fuel context db ≡ map line_of (map body rs)
      → Enumerates file rs (enumerate parse fuel context db)
  unfolding enumerate get_next next_loop next_records
  enumerate-records file zero [] context db c ok e = (refl, c)
  enumerate-records file zero (r ∷ rs) context db c ok e = cc
  enumerate-records file (suc fuel) rs context db c ok e =
      enumerated-follow file fuel (next_loop parse (length db.file))
        (sdb_get_record true any_record context db) rs
        (sdb_get_record-Keeps file (λ rec. true) true context db c) ok e
        (enumerate-records file fuel)

  -- The calls that go through the file give all values in order, and leave the file as it is.
  pub enumerate-Keeps :
      (db : Db) (rs : List R)
      → HoldsAll codec db rs
      → Enumerates db.file rs (enumerate parse (suc (length db.file)) 0 db)
  enumerate-Keeps db rs (held, ok, clean) =
      enumerate-records db.file (suc (length db.file)) rs 0 db (refl, clean) ok
        (walk-Holds db (map body rs) held)

  -- The values are there afterwards.
  pub enumerate-HoldsAll :
      (db : Db) (rs : List R)
      → HoldsAll codec db rs
      → ((enumerate parse (suc (length db.file)) 0 db).0 ≡ rs)
        × HoldsAll codec (enumerate parse (suc (length db.file)) 0 db).1 rs
  enumerate-HoldsAll db rs holds =
      let (all, kept) = enumerate-Keeps db rs holds in
      (
        all,
        same_file-HoldsAll codec db (enumerate parse (suc (length db.file)) 0 db).1 rs kept.0 kept.1
            holds,
      )
