-- ===== src/GroupList/Contents.antt =====
-- What the list of groups promises: a device that is added to a group is a member of it, and the other
-- groups stay as they are.
use lighting_gateway.Prelude.{
  if◌then◌else◌, ℕ, ◌++◌, ◌<◌, ◌∷◌, ◌≡◌, ◌≤◌, ◌⊎◌, All, All-append, Bool, Bool-cases, List, Option,
  [], ap, arith, first_of, first_of-If, inl, inr, is_some, length, length-append, none, refl, some,
  sym, true, without_first_of, without_first_of-All,
}
use lighting_gateway.Prelude.Reading.{Bytes}
use lighting_gateway.SimpleDb.{Db}
use lighting_gateway.SimpleDb.Members.{name_of}
use lighting_gateway.SimpleDb.Members.Read.{AreReadable}
use lighting_gateway.SimpleDb.Typed.{HoldsAll, add-HoldsAll}
use lighting_gateway.SimpleDb.Typed.Search.{get_unique-HoldsAll, remove_unique-HoldsAll}
use lighting_gateway.SimpleDb.Typed.Faults.{get_unique-null}
use lighting_gateway.SimpleDb.Typed.Unused.{IsFree, get_unused-IsFree}
use lighting_gateway.SceneList.{named}
use lighting_gateway.SceneList.Contents.{is_true, IsSceneName}
use lighting_gateway.GroupList.{
  GroupRecord, GroupList, has_name, group_list_get_group_by_name, group_list_get_unused_group_id,
  group_list_remove_group_by_name, group_list_add_device_to_group, new_group, is_member, join,
  joined, found_or_new,
}
use lighting_gateway.GroupList.Line.{IsStorable, group_codec, compose-group_body}

abbrev pub matches : Bytes → GroupRecord → Bool
matches name g = is_true (has_name name g)

abbrev pub IsNamed : GroupRecord → Type 0
IsNamed g = is_some g.name ≡ true

-- The file holds these groups, each with a name.
abbrev pub HoldsGroups : Db → List GroupRecord → Type 0
HoldsGroups db gs = HoldsAll group_codec db gs × All IsNamed gs

-- The group of a name, or an empty one with a number.
abbrev pub group_or_new : Bytes → ℕ → Option GroupRecord → GroupRecord
group_or_new name n none = record { id = n; name = some name; members = [] }
group_or_new name n (some g) = g

abbrev pub with_member : ℕ × ℕ → GroupRecord → GroupRecord
with_member m g = record g { members = g.members ++ m ∷ [] }

-- The groups after a device was added to the group of a name, which has the number `n` if it is new.
abbrev pub with_device : Bytes → ℕ × ℕ → ℕ → List GroupRecord → List GroupRecord
with_device name m n gs =
    let g = group_or_new name n (first_of (matches name) gs) in
    if is_member m g.members then gs else without_first_of (matches name) gs ++ with_member m g ∷ []

named_value :
    (key : Bytes) (name : Option Bytes)
    → is_some name ≡ true
    → named key name ≡ some (is_true (named key name))
named_value key none h = cc
named_value key (some name) h = refl

every_named :
    (name : Bytes) (gs : List GroupRecord)
    → All IsNamed gs
    → All (λ g. has_name name g ≡ some (matches name g)) gs
every_named name [] h = tt
every_named name (g ∷ gs) h = (named_value name g.name h.0, every_named name gs h.1)

AreReadable-append :
    (ms : List (ℕ × ℕ)) (address endpoint : ℕ)
    → AreReadable ms
    → address ≤ 0xFF00
    → endpoint < 256
    → AreReadable (ms ++ (address, endpoint) ∷ [])
AreReadable-append [] address endpoint h ha he = (ha, he, tt)
AreReadable-append ((a, e) ∷ ms) address endpoint h ha he =
    (h.0, h.1, AreReadable-append ms address endpoint h.2 ha he)

name_of_lem : (name : Bytes) → 0 < length name → name_of name ≡ some name
name_of_lem [] h = absurd (omega arith)
name_of_lem (c ∷ name) h = refl

-- A search by name.
pub get_group_by_name-HoldsGroups :
    (name : Bytes) (db : Db) (gs : List GroupRecord)
    → HoldsGroups db gs
    → ((group_list_get_group_by_name name db).0 ≡ first_of (matches name) gs)
      × HoldsGroups (group_list_get_group_by_name name db).1 gs
unfolding group_list_get_group_by_name
get_group_by_name-HoldsGroups name db gs (h, n) =
    let (r, held) =
      get_unique-HoldsAll group_codec (has_name name) (matches name) db gs h
        (every_named name gs n) in
    (r, (held, n))

-- What adding a device to a group has done.
abbrev pub IsJoined : Bytes → ℕ × ℕ → List GroupRecord → ℕ × GroupList → Type 0
IsJoined name m gs r =
    HoldsGroups r.1.db (with_device name m r.0 gs)
    × (r.0 ≡ (group_or_new name r.0 (first_of (matches name) gs)).id)
    × (is_some (first_of (matches name) gs) ≡ true ⊎ IsFree group_codec (λ g. g.id) gs r.0)

module _ (name : Bytes) (address endpoint : ℕ) (gs : List GroupRecord) (hname : IsSceneName name)
    (ha : address ≤ 0xFF00) (he : endpoint < 256) where
  with_member-IsStorable :
      (g : GroupRecord)
      → IsStorable g
      → length g.members < 20
      → IsStorable (with_member (address, endpoint) g)
  with_member-IsStorable g (hi, named, plain, short, ok, few, chars) room = (
    hi,
    named,
    plain,
    short,
    AreReadable-append g.members address endpoint ok ha he,
    omega (arith, length-append g.members ((address, endpoint) ∷ [])),
    chars,
  )

  joined-HoldsGroups :
      (g : GroupRecord) (l : GroupList)
      → HoldsGroups l.db gs
      → IsStorable (with_member (address, endpoint) g)
      → IsNamed g
      → HoldsGroups (joined name (address, endpoint) (g, l)).1.db (
          if is_member (address, endpoint) g.members
          then gs
          else without_first_of (matches name) gs ++ with_member (address, endpoint) g ∷ [])
  unfolding joined join group_list_remove_group_by_name
  joined-HoldsGroups g l (h, all_named) ok named =
      elim (Bool-cases (is_member (address, endpoint) g.members)) [
        | inl known ↦ rw known (h, all_named)
        | inr new ↦
            (let g' = with_member (address, endpoint) g in
              let (_, left) =
                remove_unique-HoldsAll group_codec (has_name name) (matches name) l.db gs h
                  (every_named name gs all_named) in
              let added =
                add-HoldsAll group_codec g' (group_list_remove_group_by_name name l.db).1
                  (without_first_of (matches name) gs) ok left in
              rw (new, compose-group_body g')
                (
                  added,
                  All-append IsNamed (without_first_of (matches name) gs) (g' ∷ [])
                      (without_first_of-All IsNamed (matches name) gs all_named) (named, tt),
                ))
      ]

  new_group-IsJoined :
      (r : ℕ × GroupList)
      → first_of (matches name) gs ≡ none
      → r.0 ≤ 0xFF00
      → IsFree group_codec (λ g. g.id) gs r.0
      → HoldsGroups r.1.db gs
      → IsJoined name (address, endpoint) gs (joined name (address, endpoint) (new_group name [] r))
  unfolding joined
  new_group-IsJoined (n, l) missing small free h =
      let g : GroupRecord = record { id = n; name = some name; members = [] } in
      let empty : IsStorable g =
        (small, name_of_lem name hname.0, hname.1, hname.2, tt, omega arith, hname.3) in
      let held = joined-HoldsGroups g l h (with_member-IsStorable g empty (omega arith)) refl in
      rw missing (held, refl, inr free)

  found_or_new-IsJoined :
      (o : Option GroupRecord) (l : GroupList) (k : ℕ)
      → o ≡ first_of (matches name) gs
      → length (group_or_new name 0 o).members < 20
      → k < 65536
      → IsFree group_codec (λ g. g.id) gs k
      → (joined name (address, endpoint) (found_or_new name o l)).0 ≤ 0xFF00
      → HoldsGroups l.db gs
      → IsJoined name
          (address, endpoint)
          gs
          (joined name (address, endpoint) (found_or_new name o l))
  unfolding found_or_new group_list_get_unused_group_id joined
  found_or_new-IsJoined (some g) l k e room hk free small h =
      let ok : IsStorable g = rw (← e) at (first_of-If IsStorable (matches name) gs h.0.1) in
      let named : IsNamed g = rw (← e) at (first_of-If IsNamed (matches name) gs h.1) in
      let held = joined-HoldsGroups g l h (with_member-IsStorable g ok room) named in
      rw (← e) (held, refl, inl refl)
  found_or_new-IsJoined none l k e room hk free small (h, all_named) =
      let (_, is_free, held) =
        get_unused-IsFree group_codec (λ g. g.id) 65536 l.last_used_group_id k l.db gs hk free h in
      new_group-IsJoined (group_list_get_unused_group_id l) (sym e) small is_free (held, all_named)

  -- Adding a device to a group by its name leaves the file as it holds the groups if the device is
  -- a member; else the group, with the device as its last member, stands behind the other groups,
  -- whose order and members stay. The call returns the group's number, and a new group gets one
  -- that no group had. Conditions: the file holds groups with names, the group has fewer than 20
  -- members, at least one 16-bit number is free, errno is not ERANGE, the returned number and the
  -- address are at most 0xFF00, the endpoint is an 8-bit number, and the name has 1 to 32
  -- characters, with no quote and no end of a line.
  pub group_list_add_device_to_group-HoldsGroups :
      (l : GroupList) (k : ℕ)
      → length (group_or_new name 0 (first_of (matches name) gs)).members < 20
      → k < 65536
      → IsFree group_codec (λ g. g.id) gs k
      → (group_list_add_device_to_group name address endpoint l).0 ≤ 0xFF00
      → HoldsGroups l.db gs
      → IsJoined name
          (address, endpoint)
          gs
          (group_list_add_device_to_group name address endpoint l)
  unfolding group_list_add_device_to_group
  group_list_add_device_to_group-HoldsGroups l k room hk free small h =
      let (found, held) = get_group_by_name-HoldsGroups name l.db gs h in
      let r = group_list_get_group_by_name name l.db in
      found_or_new-IsJoined r.0 (record l { db = r.1 }) k found (rw found room) hk free small held

-- If the first group that the file holds has no name, a search for any name compares a null
-- pointer; errno is not ERANGE before.
pub get_group_by_name-null :
    (name : Bytes) (db : Db) (g : GroupRecord) (gs : List GroupRecord)
    → HoldsAll group_codec db (g ∷ gs)
    → g.name ≡ none
    → (group_list_get_group_by_name name db).1.fault ≡ true
unfolding group_list_get_group_by_name
get_group_by_name-null name db g gs h null =
    get_unique-null group_codec (has_name name) db g gs h (ap (named name) null)
