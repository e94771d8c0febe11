-- ===== src/Tests/SceneList.antt =====
-- A scene in an empty list, and a list in which every number is in use.
use lighting_gateway.Prelude.{
  ℕ, ◌%◌, ◌++◌, ◌+◌, ◌<◌, ◌==◌, ◌^◌, ◌∷◌, ◌≡◌, ◌≤◌, ◌⊎◌, All-append, Bool-cases, List, [], arith,
  first_of, inl, inr, is_some, none, refl, suc, true, zero,
}
use lighting_gateway.Prelude.Reading.{Bytes}
use lighting_gateway.SimpleDb.{Db, sdb_add_record}
use lighting_gateway.SimpleDb.Contents.{records}
use lighting_gateway.SimpleDb.Lines.{line_of}
use lighting_gateway.SimpleDb.Fields.{to_quote}
use lighting_gateway.SimpleDb.Parsing.{always, unused_loop}
use lighting_gateway.SimpleDb.Typed.{add-HoldsAll}
use lighting_gateway.SimpleDb.Typed.Unused.{IsFree}
use lighting_gateway.SimpleDb.SceneRecord.{SceneRecord, scene_list_parse_record}
use lighting_gateway.SceneList.{
  SceneList, has_scene_id, scene_list_add_scene, scene_list_get_scene_id,
}
use lighting_gateway.SceneList.Line.{IsStorable, scene_codec, scene_body}
use lighting_gateway.SceneList.Contents.{
  HoldsScenes, IsNamed, with_scene, matches, scene_of, scene_list_get_scene_id-scene_list_add_scene,
  unused_scene_id-none,
}
use lighting_gateway.Tests.DeviceList.{empty}

abbrev no_scenes : SceneList
no_scenes = record { db = empty; last_used_scene_id = 4 }

abbrev name : Bytes
name = 0x41 ∷ []

to_quote_name : to_quote name ≡ none
unfolding to_quote
to_quote_name = refl

add_scene_example :
    ((scene_list_get_scene_id name 7 (scene_list_add_scene name 7 no_scenes).1).0
      ≡ (scene_list_add_scene name 7 no_scenes).0)
    × HoldsScenes
        (scene_list_add_scene name 7 no_scenes).1.db
        (with_scene name 7 (scene_list_add_scene name 7 no_scenes).0 [])
    × (is_some (first_of (matches name 7) []) ≡ true
        ⊎ IsFree scene_codec (λ s. s.scene_id) [] (scene_list_add_scene name 7 no_scenes).0)
unfolding records
add_scene_example =
    scene_list_get_scene_id-scene_list_add_scene name 7 0 []
      (omega arith, to_quote_name, omega arith, ((ground arith, ground arith), tt)) (omega arith)
      (omega arith) refl no_scenes ((([], refl, tt, refl), tt, (refl, refl)), tt)

-- The scenes with the numbers below `n`, and their file.
abbrev scenes : ℕ → List SceneRecord
scenes zero = []
scenes (suc n) = scenes n ++ scene_of name 7 n ∷ []

unfoldable file_of_scenes : ℕ → Db
file_of_scenes zero = empty
file_of_scenes (suc n) =
    sdb_add_record (line_of (scene_body (scene_of name 7 n))) (file_of_scenes n)

file_of_scenes-HoldsScenes : (n : ℕ) → n ≤ 256 → HoldsScenes (file_of_scenes n) (scenes n)
unfolding file_of_scenes records
file_of_scenes-HoldsScenes zero h = ((([], refl, tt, refl), tt, (refl, refl)), tt)
file_of_scenes-HoldsScenes (suc n) h =
    let (held, all_named) = file_of_scenes-HoldsScenes n (omega arith) in
    let ok : IsStorable (scene_of name 7 n) = (
      (omega arith, omega arith, refl, to_quote_name, omega arith, tt, omega arith),
      ((ground arith, ground arith), tt),
    ) in
    (
      add-HoldsAll scene_codec (scene_of name 7 n) (file_of_scenes n) (scenes n) ok held,
      All-append IsNamed (scenes n) (scene_of name 7 n ∷ []) all_named (refl, tt),
    )

first_of-append :
    (k : ℕ) (ss : List SceneRecord) (s : SceneRecord)
    → (is_some (first_of (has_scene_id k) ss) ≡ true) ⊎ (s.scene_id ≡ k)
    → is_some (first_of (has_scene_id k) (ss ++ s ∷ [])) ≡ true
first_of-append k [] s (inl h) = cc
first_of-append k [] s (inr e) = ground arith
first_of-append k (x ∷ ss) s h = elim (Bool-cases (has_scene_id k x)) [
  | inl hit ↦ rw hit refl
  | inr miss ↦ rw miss (first_of-append k ss s (rw miss at h))
]

used : (n k : ℕ) → k < n → is_some (first_of (has_scene_id k) (scenes n)) ≡ true
used zero k h = absurd (omega arith)
used (suc n) k h = elim (Bool-cases (k == n)) [
  | inl here ↦ first_of-append k (scenes n) (scene_of name 7 n) (inr (ground arith))
  | inr before ↦ first_of-append k (scenes n) (scene_of name 7 n) (inl (used n k (ground arith)))
]

full_example :
    (unused_loop scene_list_parse_record
      (λ n. always (has_scene_id n))
      (2 ^ 8)
      100000
      ((9 + 1) % 2 ^ 8)
      (file_of_scenes 256)).0
    ≡ none
full_example =
    unused_scene_id-none 100000 9 (file_of_scenes 256) (scenes 256)
      (file_of_scenes-HoldsScenes 256 (omega arith)) (λ k h free. cc (used 256 k h))
