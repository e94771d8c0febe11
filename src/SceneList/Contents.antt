-- ===== src/SceneList/Contents.antt =====
-- What the list of scenes promises: the number of a scene is found under its name and group, and no
-- other scene has it.
use lighting_gateway.Prelude.{
  if◌then◌else◌, ℕ, ◌%◌, ◌++◌, ◌+◌, ◌<◌, ◌==◌, ◌^◌, ◌∙◌, ◌∷◌, ◌≡◌, ◌≤◌, ◌⊎◌, All, All-append, Bool,
  Bool-cases, List, Option, [], ap, arith, false, first_of, inl, inr, is_some, length, none, refl,
  some, sym, true,
}
use lighting_gateway.Prelude.Reading.{Bytes}
use lighting_gateway.SimpleDb.{Db}
use lighting_gateway.SimpleDb.Lines.{Plain}
use lighting_gateway.SimpleDb.Fields.{to_quote, number}
use lighting_gateway.SimpleDb.Parsing.{always, unused_loop}
use lighting_gateway.SimpleDb.Typed.{HoldsAll, add-HoldsAll}
use lighting_gateway.SimpleDb.Typed.Search.{get_unique-HoldsAll}
use lighting_gateway.SimpleDb.Typed.Unused.{IsFree, get_unused-IsFree, unused_loop-none}
use lighting_gateway.SimpleDb.SceneRecord.{SceneRecord, scene_list_parse_record}
use lighting_gateway.SceneList.{
  SceneList, named, and_group, has_name_gid, same_bytes, scene_list_get_scene_by_name_gid,
  scene_list_add_scene, scene_id_of, scene_list_get_scene_id, has_scene_id,
  scene_list_get_unused_scene_id, new_scene, add_found,
}
use lighting_gateway.SceneList.Line.{IsStorable, scene_codec, compose-scene_body}

-- The scene has the name and the group.
abbrev pub is_true : Option Bool → Bool
is_true none = false
is_true (some b) = b

abbrev pub matches : Bytes → ℕ → SceneRecord → Bool
matches name group_id s = is_true (has_name_gid name group_id s)

-- A scene without a name stops the server at the next search.
abbrev pub IsNamed : SceneRecord → Type 0
IsNamed s = is_some s.name ≡ true

-- The file holds these scenes, each with a name.
abbrev pub HoldsScenes : Db → List SceneRecord → Type 0
HoldsScenes db ss = HoldsAll scene_codec db ss × All IsNamed ss

-- The scene that is added under a number.
abbrev pub scene_of : Bytes → ℕ → ℕ → SceneRecord
scene_of name group_id n = record {
  group_id = group_id;
  scene_id = n;
  name = some name;
  members = [];
}

-- The scenes after the call that returned a number.
abbrev pub with_scene : Bytes → ℕ → ℕ → List SceneRecord → List SceneRecord
with_scene name group_id n ss =
    if is_some (first_of (matches name group_id) ss)
    then ss
    else ss ++ scene_of name group_id n ∷ []

-- A name that a scene can be stored with.
abbrev pub IsSceneName : Bytes → Type 0
IsSceneName name = (0 < length name) × (to_quote name ≡ none) × (length name ≤ 32) × All Plain name

named_value :
    (key : Bytes) (g : Bool) (name : Option Bytes)
    → is_some name ≡ true
    → and_group g (named key name) ≡ some (is_true (and_group g (named key name)))
named_value key g none h = cc
named_value key g (some name) h = refl

every_named :
    (name : Bytes) (group_id : ℕ) (ss : List SceneRecord)
    → All IsNamed ss
    → All (λ s. has_name_gid name group_id s ≡ some (matches name group_id s)) ss
every_named name group_id [] h = tt
every_named name group_id (s ∷ ss) h =
    (named_value name (s.group_id == group_id) s.name h.0, every_named name group_id ss h.1)

-- A search by name and group.
get_by_name-HoldsScenes :
    (name : Bytes) (group_id : ℕ) (db : Db) (ss : List SceneRecord)
    → HoldsScenes db ss
    → ((scene_list_get_scene_by_name_gid name group_id db).0 ≡ first_of (matches name group_id) ss)
      × HoldsScenes (scene_list_get_scene_by_name_gid name group_id db).1 ss
unfolding scene_list_get_scene_by_name_gid
get_by_name-HoldsScenes name group_id db ss (h, n) =
    let (r, held) =
      get_unique-HoldsAll scene_codec (has_name_gid name group_id) (matches name group_id) db ss h
        (every_named name group_id ss n) in
    (r, (held, n))

same_bytes_self : (a : Bytes) → same_bytes a a ≡ true
same_bytes_self [] = refl
same_bytes_self (b ∷ a) = ground (arith, same_bytes_self a)

first_of-append :
    (q : SceneRecord → Bool) (ss : List SceneRecord) (s : SceneRecord)
    → is_some (first_of q ss) ≡ false
    → q s ≡ true
    → first_of q (ss ++ s ∷ []) ≡ some s
first_of-append q [] s h hit = rw hit refl
first_of-append q (x ∷ ss) s h hit = elim (Bool-cases (q x)) [
  | inl first ↦ (let k : true ≡ false = rw first at h in cc)
  | inr miss ↦ rw miss (first_of-append q ss s (rw miss at h) hit)
]

matches_self :
    (name : Bytes) (group_id n : ℕ) → matches name group_id (scene_of name group_id n) ≡ true
matches_self name group_id n = ground (arith, same_bytes_self name)

scene_of-IsStorable :
    (name : Bytes) (group_id n : ℕ)
    → IsSceneName name
    → group_id ≤ 0xFF00
    → n < 256
    → IsStorable (scene_of name group_id n)
scene_of-IsStorable [] group_id n (some_name, plain, short, chars) hg hn = absurd (omega arith)
scene_of-IsStorable (c ∷ name) group_id n (some_name, plain, short, chars) hg hn =
    ((hg, hn, refl, plain, short, tt, omega arith), chars)

-- What is found under a name and a group.
abbrev pub number_of : Bytes → ℕ → List SceneRecord → ℕ
number_of name group_id ss = scene_id_of (first_of (matches name group_id) ss)

pub scene_list_get_scene_id-HoldsScenes :
    (name : Bytes) (group_id : ℕ) (l : SceneList) (ss : List SceneRecord)
    → HoldsScenes l.db ss
    → ((scene_list_get_scene_id name group_id l).0 ≡ number_of name group_id ss)
      × HoldsScenes (scene_list_get_scene_id name group_id l).1.db ss
unfolding scene_list_get_scene_id
scene_list_get_scene_id-HoldsScenes name group_id l ss h =
    let (r, held) = get_by_name-HoldsScenes name group_id l.db ss h in (ap scene_id_of r, held)

-- What adding a scene has done.
abbrev pub IsRecorded : Bytes → ℕ → List SceneRecord → ℕ × SceneList → Type 0
IsRecorded name group_id ss r =
    HoldsScenes r.1.db (with_scene name group_id r.0 ss)
    × (number_of name group_id (with_scene name group_id r.0 ss) ≡ r.0)
    × (is_some (first_of (matches name group_id) ss) ≡ true
        ⊎ IsFree scene_codec (λ s. s.scene_id) ss r.0)

module _ (name : Bytes) (group_id k : ℕ) (ss : List SceneRecord) (hname : IsSceneName name)
    (hg : group_id ≤ 0xFF00) (hk : k < 256) (free : IsFree scene_codec (λ s. s.scene_id) ss k) where
  new_scene-IsRecorded :
      (r : ℕ × SceneList)
      → first_of (matches name group_id) ss ≡ none
      → r.0 < 256
      → IsFree scene_codec (λ s. s.scene_id) ss r.0
      → HoldsScenes r.1.db ss
      → IsRecorded name group_id ss (new_scene name group_id r)
  new_scene-IsRecorded (n, l) missing hn is_free (h, all_named) =
      let s = scene_of name group_id n in
      let added =
        add-HoldsAll scene_codec s l.db ss (scene_of-IsStorable name group_id n hname hg hn) h in
      rw (missing, compose-scene_body s)
        (
          (added, All-append IsNamed ss (s ∷ []) all_named (refl, tt)),
          ap scene_id_of (
              first_of-append (matches name group_id) ss s (ap is_some missing)
                (matches_self name group_id n)),
          inr is_free,
        )

  add_found-IsRecorded :
      (o : Option SceneRecord) (l : SceneList)
      → o ≡ first_of (matches name group_id) ss
      → HoldsScenes l.db ss
      → IsRecorded name group_id ss (add_found name group_id o l)
  unfolding add_found scene_list_get_unused_scene_id
  add_found-IsRecorded (some s) l e h = rw (← e) (h, ap scene_id_of (sym e), inl refl)
  add_found-IsRecorded none l e (h, all_named) =
      let (small, is_free, held) =
        get_unused-IsFree scene_codec (λ s. s.scene_id) 256 l.last_used_scene_id k l.db ss hk free
          h in
      new_scene-IsRecorded (scene_list_get_unused_scene_id l) (sym e) small is_free
        (held, all_named)

  add_scene-IsRecorded :
      (l : SceneList)
      → HoldsScenes l.db ss
      → IsRecorded name group_id ss (scene_list_add_scene name group_id l)
  unfolding scene_list_add_scene
  add_scene-IsRecorded l h =
      let (found, held) = get_by_name-HoldsScenes name group_id l.db ss h in
      let r = scene_list_get_scene_by_name_gid name group_id l.db in
      add_found-IsRecorded r.0 (record l { db = r.1 }) found held

  -- After a scene was added under a name and a group, looking up that name and group gives the
  -- number that the call returned. The file holds the scenes as before if one had the name and the
  -- group, and else them and the new scene at the end, with a number that none of them had.
  -- Conditions: the file holds scenes with names, at least one 8-bit number is free, errno is not
  -- ERANGE, the group is at most 0xFF00, and the name has 1 to 32 characters, with no quote and no
  -- end of a line.
  pub scene_list_get_scene_id-scene_list_add_scene :
      (l : SceneList)
      → HoldsScenes l.db ss
      → ((scene_list_get_scene_id name group_id (scene_list_add_scene name group_id l).1).0
          ≡ (scene_list_add_scene name group_id l).0)
        × HoldsScenes
            (scene_list_add_scene name group_id l).1.db
            (with_scene name group_id (scene_list_add_scene name group_id l).0 ss)
        × (is_some (first_of (matches name group_id) ss) ≡ true
            ⊎ IsFree scene_codec (λ s. s.scene_id) ss (scene_list_add_scene name group_id l).0)
  scene_list_get_scene_id-scene_list_add_scene l h =
      let (held, number, fresh) = add_scene-IsRecorded l h in
      let r = scene_list_add_scene name group_id l in
      let (got, _) =
        scene_list_get_scene_id-HoldsScenes name group_id r.1 (with_scene name group_id r.0 ss)
          held in
      (got ∙ number, held, fresh)

-- If the file holds scenes with names in which every 8-bit number is in use, and errno is not
-- ERANGE, the loop that looks for an unused scene number never ends, from whatever number it
-- starts: no number of rounds gives a result.
pub unused_scene_id-none :
    (fuel last : ℕ) (db : Db) (ss : List SceneRecord)
    → HoldsScenes db ss
    → ((k : ℕ) → k < 256 → ¬ IsFree scene_codec (λ s. s.scene_id) ss k)
    → (unused_loop scene_list_parse_record
        (λ n. always (has_scene_id n))
        (2 ^ 8)
        fuel
        ((last + 1) % 2 ^ 8)
        db).0
      ≡ none
unused_scene_id-none fuel last db ss h full =
    unused_loop-none scene_codec (λ s. s.scene_id) 256 fuel ((last + 1) % 256) db ss (omega arith)
      (omega arith) h.0 full
