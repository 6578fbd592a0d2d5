-- ===== src/Memory/Context/Tests.antt =====
-- A context of two types with a reflection, at a cap of four fragments.
use memento_mcp.Base.{
  ◌≡◌, refl, ℕ, String, Option, none, some, List, [], ◌∷◌, false, str_eq, if◌then◌else◌, map, ok,
}
use memento_mcp.Base.Maps
use memento_mcp.Memory.Context.{
  Fragment, Config, Loads, all_types, build, assemble, core_of, core_fragments, guaranteed,
  guarantee_all, guarantee, empty_core, count_groups, sort_by, insert_by, unseen, top_ids, see_top,
  has_id, others, fill, consider, add, add_truncated, type_key, type_max, counter, or_default,
  max_core, max_wm, wm_of, take_wm, dedup, sum_chars, anchors_of, frags_of, first_nonempty,
}
use memento_mcp.Memory.Context.Bounds.{IsWithin, build-IsWithin}

abbrev fragment : String → String → ℕ → Fragment
fragment id type chars = record {
  id = some id;
  type = some type;
  chars = chars;
  is_anchor = false;
  is_truncated = false;
}

abbrev config : Config
config = record {
  max_core_fragments = some 4;
  max_wm_fragments = none;
  type_slots = [];
  score = λ f. f.chars;
  rank_score = λ f. f.chars;
}

abbrev loads : Loads
loads = record {
  recall_type = λ type.
      if str_eq type "error"
      then fragment "e1" "error" 100 ∷ fragment "e2" "error" 50 ∷ fragment "e3" "error" 70 ∷ []
      else fragment "p1" "preference" 10 ∷ [];
  recall_reflect = fragment "r1" "fact" 20 ∷ fragment "r2" "fact" 60 ∷ [];
  working_memory = some (fragment "w1" "fact" 5 ∷ fragment "e1" "error" 100 ∷ []);
  anchors = ok (fragment "a" "fact" 8 ∷ []);
}

abbrev ids : List Fragment → List (Option String)
ids fs = map (λ f. f.id) fs

-- Of the extras only the one with the highest score fits under the cap. It is counted in the budget.
in_order :
    ids (build config ("preference" ∷ "error" ∷ []) loads).fragments
    ≡ some "a" ∷ some "p1" ∷ some "e1" ∷ some "e3" ∷ some "r1" ∷ some "w1" ∷ []
unfolding build assemble core_of core_fragments guaranteed guarantee_all guarantee empty_core
    count_groups sort_by insert_by unseen top_ids see_top has_id others fill consider add
    add_truncated type_key type_max counter or_default max_core max_wm wm_of take_wm dedup sum_chars
    anchors_of frags_of first_nonempty all_types Maps.get Maps.put
in_order = refl

-- A second fragment of the reflections has a type that was not asked for: it is charged to the
-- budget, and is not in the context.
abbrev reflections : Loads
reflections = record loads { recall_type = λ type. [] }

charged :
    (ids (build config ("error" ∷ []) reflections).fragments
      ≡ some "a" ∷ some "r1" ∷ some "e1" ∷ some "w1" ∷ [])
    × ((build config ("error" ∷ []) reflections).core_tokens ≡ 20)
unfolding build assemble core_of core_fragments guaranteed guarantee_all guarantee empty_core
    count_groups sort_by insert_by unseen top_ids see_top has_id others fill consider add
    add_truncated type_key type_max counter or_default max_core max_wm wm_of take_wm dedup sum_chars
    anchors_of frags_of first_nonempty all_types Maps.get Maps.put
charged = (refl, refl)

build-IsWithin_example :
    IsWithin config
      (all_types ("preference" ∷ "error" ∷ []) loads.recall_reflect)
      loads
      (build config ("preference" ∷ "error" ∷ []) loads)
unfolding all_types
build-IsWithin_example =
    build-IsWithin config ("preference" ∷ "error" ∷ []) loads (refl, (refl, (refl, tt)))
