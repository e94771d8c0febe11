-- ===== src/DeviceList/Contents.antt =====
-- What the list of devices promises: it is a list, to which devices are added at the end and from
-- which the first that fits a key is removed; described without the file.
use lighting_gateway.Prelude.{
  ap₂, ℕ, ◌%◌, ◌&&◌, ◌++◌, ◌==◌, ◌^◌, ◌∙◌, ◌∷◌, ◌≡◌, ==_iff, All, Bool, Bool-cases, List, Option,
  [], ap, arith, false, first_of, inl, inr, length, refl, some, sym, true, without_first_of,
}
use lighting_gateway.Prelude.Reading.{Bytes}
use lighting_gateway.Endpoint.{EpInfo}
use lighting_gateway.SimpleDb.{Db, sdbt_get_record_count}
use lighting_gateway.SimpleDb.Lines.{line_of}
use lighting_gateway.SimpleDb.Walk.{walk-Holds, length-map}
use lighting_gateway.SimpleDb.Typed.{Codec, HoldsAll, add-HoldsAll}
use lighting_gateway.SimpleDb.Typed.Search.{get_unique-HoldsAll, remove_unique-HoldsAll}
use lighting_gateway.SimpleDb.Typed.Enumeration.{enumerate-HoldsAll}
use lighting_gateway.SimpleDb.Parsing.{always}
use lighting_gateway.DeviceList.{
  dev_list_parse_record, dev_list_add_device, dev_list_remove_device_by_na_ep,
  dev_list_remove_device_by_ieee, dev_list_get_device_by_na_ep, dev_list_get_device_by_ieee_ep,
  dev_list_devices, dev_list_num_devices, has_na_ep, has_ieee, has_ieee_ep, always,
}
use lighting_gateway.DeviceList.Line.{
  IsReadable, device_body, device_body-IsRecord, parse-device_body, compose-device_body,
}

-- A call of the list.
pub data Call : Type 0 where
  add_device : EpInfo → Call
  remove_by_na_ep : ℕ → ℕ → Call
  remove_by_ieee : Bytes → Call
  get_by_na_ep : ℕ → ℕ → Call
  get_by_ieee_ep : Bytes → ℕ → Call
  all_devices : Call
  num_devices : Call

-- What a call returns.
pub data Answer : Type 0 where
  nothing : Answer
  device : Option EpInfo → Answer
  devices : List EpInfo → Answer
  number : ℕ → Answer

-- The call made on the file.
abbrev pub made : Call → Db → Answer × Db
made (add_device e) db = (nothing, dev_list_add_device e db)
made (remove_by_na_ep nwk_addr endpoint) db =
    let (r, db') = dev_list_remove_device_by_na_ep nwk_addr endpoint db in (device r, db')
made (remove_by_ieee ieee_addr) db =
    let (r, db') = dev_list_remove_device_by_ieee ieee_addr db in (device r, db')
made (get_by_na_ep nwk_addr endpoint) db =
    let (r, db') = dev_list_get_device_by_na_ep nwk_addr endpoint db in (device r, db')
made (get_by_ieee_ep ieee_addr endpoint) db =
    let (r, db') = dev_list_get_device_by_ieee_ep ieee_addr endpoint db in (device r, db')
made all_devices db = let (es, db') = dev_list_devices db in (devices es, db')
made num_devices db = (number (dev_list_num_devices db), db)

-- What the call is to do with a list of devices.
abbrev pub asked : Call → List EpInfo → Answer × List EpInfo
asked (add_device e) es = (nothing, es ++ e ∷ [])
asked (remove_by_na_ep nwk_addr endpoint) es = (
  device (first_of (has_na_ep nwk_addr endpoint) es),
  without_first_of (has_na_ep nwk_addr endpoint) es,
)
asked (remove_by_ieee ieee_addr) es =
    (device (first_of (has_ieee ieee_addr) es), without_first_of (has_ieee ieee_addr) es)
asked (get_by_na_ep nwk_addr endpoint) es = (device (first_of (has_na_ep nwk_addr endpoint) es), es)
asked (get_by_ieee_ep ieee_addr endpoint) es =
    (device (first_of (has_ieee_ep ieee_addr endpoint) es), es)
asked all_devices es = (devices es, es)
asked num_devices es = (number (length es % 2 ^ 32), es)

-- The calls of a run, one after the other.
abbrev pub made_all : List Call → Db → List Answer × Db
made_all [] db = ([], db)
made_all (c ∷ cs) db =
    let (a, db') = made c db in let (rest, end) = made_all cs db' in (a ∷ rest, end)

abbrev pub asked_all : List Call → List EpInfo → List Answer × List EpInfo
asked_all [] es = ([], es)
asked_all (c ∷ cs) es =
    let (a, es') = asked c es in let (rest, end) = asked_all cs es' in (a ∷ rest, end)

-- Only devices that can be read back are added.
abbrev pub IsPossible : Call → Type 0
IsPossible (add_device e) = IsReadable e
IsPossible other = Unit

abbrev pub device_codec : Codec dev_list_parse_record
device_codec = record {
  Readable = IsReadable;
  body = device_body;
  body-IsRecord = device_body-IsRecord;
  parse-body = λ e h. parse-device_body e 0x20 h;
  parse-deleted = λ e h. parse-device_body e 0x3B h;
}

-- The file holds a list of devices.
abbrev pub HoldsDevices : Db → List EpInfo → Type 0
HoldsDevices = HoldsAll device_codec

every : {R : Type 0} (q : R → Bool) (rs : List R) → All (λ r. always q r ≡ some (q r)) rs
every q [] = tt
every q (r ∷ rs) = (refl, every q rs)

and-first : (a b : Bool) → (a && b) ≡ true → a ≡ true
and-first true b h = refl
and-first false b h = h

-- A device that is found by an address has it.
pub first_of-nwk_addr :
    (nwk_addr endpoint : ℕ) (es : List EpInfo) (e : EpInfo)
    → first_of (has_na_ep nwk_addr endpoint) es ≡ some e
    → e.nwk_addr ≡ nwk_addr
first_of-nwk_addr nwk_addr endpoint [] e h = cc
first_of-nwk_addr nwk_addr endpoint (x ∷ es) e h =
    elim (Bool-cases (has_na_ep nwk_addr endpoint x)) [
      | inl hit ↦
          (let first : some x ≡ some e = rw hit at h in
            let same : x ≡ e = cc in
            ap (λ y. y.nwk_addr) (sym same)
            ∙ (==_iff x.nwk_addr nwk_addr).0 (and-first (x.nwk_addr == nwk_addr) _ hit))
      | inr miss ↦ first_of-nwk_addr nwk_addr endpoint es e (rw miss at h)
    ]

pub none_at :
    (nwk_addr : ℕ) (es : List EpInfo)
    → All (λ e. has_na_ep nwk_addr 0xFF e ≡ false) es
    → All (λ e. (e.nwk_addr == nwk_addr) ≡ false) es
none_at nwk_addr [] h = tt
none_at nwk_addr (e ∷ es) h = (ground (arith, h.0), none_at nwk_addr es h.1)

pub dev_list_remove_device_by_na_ep-HoldsDevices :
    (nwk_addr endpoint : ℕ) (db : Db) (es : List EpInfo)
    → HoldsDevices db es
    → ((dev_list_remove_device_by_na_ep nwk_addr endpoint db).0
        ≡ first_of (has_na_ep nwk_addr endpoint) es)
      × HoldsDevices
          (dev_list_remove_device_by_na_ep nwk_addr endpoint db).1
          (without_first_of (has_na_ep nwk_addr endpoint) es)
unfolding dev_list_remove_device_by_na_ep
dev_list_remove_device_by_na_ep-HoldsDevices nwk_addr endpoint db es h =
    let q = has_na_ep nwk_addr endpoint in
    remove_unique-HoldsAll device_codec (always q) q db es h (every q es)

-- A call gives the answer that is asked for, and the file holds the list that is asked for.
made-asked :
    (c : Call) (db : Db) (es : List EpInfo)
    → IsPossible c
    → HoldsDevices db es
    → ((made c db).0 ≡ (asked c es).0) × HoldsDevices (made c db).1 (asked c es).1
unfolding dev_list_add_device dev_list_remove_device_by_ieee dev_list_get_device_by_na_ep
    dev_list_get_device_by_ieee_ep dev_list_devices dev_list_num_devices sdbt_get_record_count
made-asked (add_device e) db es ok h =
    rw (compose-device_body e) (refl, add-HoldsAll device_codec e db es ok h)
made-asked (remove_by_na_ep nwk_addr endpoint) db es ok h =
    let (r, held) = dev_list_remove_device_by_na_ep-HoldsDevices nwk_addr endpoint db es h in
    (ap device r, held)
made-asked (remove_by_ieee ieee_addr) db es ok h =
    let q = has_ieee ieee_addr in
    let (r, held) = remove_unique-HoldsAll device_codec (always q) q db es h (every q es) in
    (ap device r, held)
made-asked (get_by_na_ep nwk_addr endpoint) db es ok h =
    let q = has_na_ep nwk_addr endpoint in
    let (r, held) = get_unique-HoldsAll device_codec (always q) q db es h (every q es) in
    (ap device r, held)
made-asked (get_by_ieee_ep ieee_addr endpoint) db es ok h =
    let q = has_ieee_ep ieee_addr endpoint in
    let (r, held) = get_unique-HoldsAll device_codec (always q) q db es h (every q es) in
    (ap device r, held)
made-asked all_devices db es ok h =
    let (all, held) = enumerate-HoldsAll device_codec db es h in (ap devices all, held)
made-asked num_devices db es ok h = (
  ap (λ l. number (length l % 2 ^ 32)) (walk-Holds db _ h.0)
      ∙ ap (λ n. number (n % 2 ^ 32)) (length-map line_of _ ∙ length-map device_body es),
  h,
)

-- In any run of calls of the device list (adding, removing by network address or IEEE address,
-- looking up by either, going through all, counting) on a file that holds a list of devices, each
-- call returns what it returns on a plain list, and the file holds the list that the run leaves; if
-- errno is not ERANGE and every device added can be read back: an address of eight bytes, numbers
-- in their ranges with 16-bit ones of at most 0xFF00, flags 0, and no name or a name that is no
-- empty string, with at most 32 characters, no quote and no end of a line.
pub made_all-asked_all :
    (cs : List Call) (db : Db) (es : List EpInfo)
    → All IsPossible cs
    → HoldsDevices db es
    → ((made_all cs db).0 ≡ (asked_all cs es).0)
      × HoldsDevices (made_all cs db).1 (asked_all cs es).1
made_all-asked_all [] db es ok h = (refl, h)
made_all-asked_all (c ∷ cs) db es ok h =
    let (answer, held) = made-asked c db es ok.0 h in
    let (answers, end) = made_all-asked_all cs (made c db).1 (asked c es).1 ok.1 held in
    (ap₂ (λ a as'. a ∷ as') answer answers, end)
