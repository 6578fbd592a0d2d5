-- ===== src/Memory/Context/Bounds.antt =====
-- The budgets of a context hold, and it has no fragment twice.
use memento_mcp.Base.{
  ℕ, ◌+◌, ◌/◌, ◌≤◌, ◌≡◌, ◌≢◌, refl, String, Option, none, some, List, [], ◌∷◌, ◌++◌, Bool, true,
  false, maxb, min, if◌then◌else◌, is_text, str_eq, eq_iff, length, length-append, count_if,
  keep_if, Bool-cases, String-cases, Option-cases, inl, inr, arith,
}
use mathlib.Core.List.{reverse}
use memento_mcp.Memory.Context.{
  Fragment, Config, Loads, Context, core_char_budget, wm_char_budget, max_core, max_wm, type_max,
  Core, or_default, guaranteed, core_of, core_fragments, take_wm, wm_of, has_id, dedup, sum_chars,
  anchors_of, frags_of, all_types, assemble, build,
}
use memento_mcp.Memory.Context.Ranked.{
  has_anchor_type, structured_ranking, sum_tokens, item_tokens, structured_ranking-counted,
}
use memento_mcp.Memory.Context.Fill.{Within, core_of-Within}
use memento_mcp.Memory.Context.Held.{
  group, Distinct, core_fragments-total, Counts, sum_chars-append, sum_chars_none,
}
use memento_mcp.Memory.Context.Firsts.{top_chars, Guaranteed, guaranteed_lem, core_of-Counts}

take_wm-bounds :
    (limit taken used : ℕ) (fs : List Fragment)
    → taken ≤ limit
    → used ≤ wm_char_budget
    → (taken + length (take_wm limit taken used fs) ≤ limit)
      × (used + sum_chars (take_wm limit taken used fs) ≤ wm_char_budget)
unfolding take_wm sum_chars
take_wm-bounds limit taken used [] h k = omega (arith, h, k)
take_wm-bounds limit taken used (f ∷ fs) h k = ground (
  arith,
  h,
  k,
  take_wm-bounds limit taken used fs h k,
  take_wm-bounds limit (taken + 1) (used + f.chars) fs,
)

-- How often an identifier occurs.
pub occurrences : String → List Fragment → ℕ
occurrences id fs = count_if (λ f. is_text id f.id) fs

none_occur : (id : String) → occurrences id [] ≡ 0
unfolding occurrences
none_occur id = refl

count_front :
    (id : String) (f : Fragment) (fs : List Fragment) (known b : Bool)
    → is_text id f.id ≡ b
    → occurrences id (if known then fs else f ∷ fs) ≡ (
        if known then occurrences id fs else if b then 1 + occurrences id fs else occurrences id fs)
unfolding occurrences
count_front id f fs true b e = refl
count_front id f fs false b e = rw e (ground arith)

dedup-occurrences :
    (id : String) (seen : List (Option String)) (fs : List Fragment)
    → str_eq id "" ≡ false
    → occurrences id (dedup seen fs)
      ≡ (if has_id seen (some id) then 0 else min 1 (occurrences id fs))
unfolding dedup has_id
dedup-occurrences id seen [] n = ground (arith, none_occur id)
dedup-occurrences id seen (f ∷ fs) n = elim (Option-cases f.id) [
  | inl e ↦ ground (
    arith,
    e,
    n,
    dedup-occurrences id seen fs n,
    count_front id f (dedup seen fs) false (is_text id f.id) refl,
    count_front id f fs false (is_text id f.id) refl,
  )
  | inr (x, e) ↦ elim (Bool-cases (str_eq x "")) [
    | inl z ↦ ground (
      arith,
      e,
      n,
      z,
      eq_iff x "",
      eq_iff x id,
      dedup-occurrences id seen fs n,
      count_front id f (dedup seen fs) false (is_text id f.id) refl,
      count_front id f fs false (is_text id f.id) refl,
    )
    | inr z ↦ elim (String-cases x id) [
      | inl (p, q) ↦ ground (
        arith,
        e,
        n,
        z,
        p,
        q,
        dedup-occurrences id (f.id ∷ seen) fs n,
        count_front id f (dedup (f.id ∷ seen) fs) (has_id seen f.id) (is_text id f.id) refl,
        count_front id f fs false (is_text id f.id) refl,
      )
      | inr (m, q) ↦ ground (
        arith,
        e,
        n,
        z,
        q,
        dedup-occurrences id (f.id ∷ seen) fs n,
        count_front id f (dedup (f.id ∷ seen) fs) (has_id seen f.id) (is_text id f.id) refl,
        count_front id f fs false (is_text id f.id) refl,
      )
    ]
  ]
]

tokens_mono : (m n : ℕ) → m ≤ n → (m + 3) / 4 ≤ (n + 3) / 4
tokens_mono m n h = omega (arith, h)

-- A context within its budgets, given the core that it was built from.
pub record IsWithin (cfg : Config) (types : List String) (l : Loads) (c : Context) : Type 0 where
  -- The core: its characters, its number of fragments, and those of each type.
  pub core_chars :
      sum_chars (core_fragments (core_of cfg (frags_of l) types) types)
      ≤ maxb (top_chars (frags_of l) types) core_char_budget
  pub core_count :
      length (core_fragments (core_of cfg (frags_of l) types) types)
      ≤ maxb (length types) (max_core cfg)
  pub core_slots :
      (k : String) → length (group k (core_of cfg (frags_of l) types).groups) ≤ type_max cfg k
  -- The tokens reported for it.
  pub core_tokens_bound :
      ((sum_chars (core_fragments (core_of cfg (frags_of l) types) types) + 3) / 4 ≤ c.core_tokens)
      × (c.core_tokens ≤ (maxb (top_chars (frags_of l) types) core_char_budget + 3) / 4)
  -- The working memory.
  pub wm_bound : (c.wm_count ≤ max_wm cfg) × (c.wm_tokens ≤ 800)
  -- The ranking of a structured answer.
  pub ranked :
      (budget : ℕ)
      → let r = structured_ranking cfg budget c in
        (r.ranked_tokens ≡ item_tokens r.items)
        × (r.ranked_tokens ≤ maxb (sum_tokens (keep_if has_anchor_type c.fragments)) budget)
  -- Every identifier of the three parts occurs once.
  pub once :
      (id : String)
      → id ≢ ""
      → occurrences id c.fragments
        ≡ min 1 (
            occurrences id (
              anchors_of l.anchors
              ++ core_fragments (core_of cfg (frags_of l) types) types
              ++ wm_of cfg l.working_memory))

wm_of-bounds :
    (cfg : Config) (o : Option (List Fragment))
    → (length (wm_of cfg o) ≤ max_wm cfg) × (sum_chars (wm_of cfg o) ≤ wm_char_budget)
unfolding wm_of sum_chars
wm_of-bounds cfg none = omega arith
wm_of-bounds cfg (some items) =
    let (a, b) = take_wm-bounds (max_wm cfg) 0 0 (reverse items) (omega arith) (omega arith) in
    (omega (arith, a), omega (arith, b))

dedup_once :
    (id : String) (fs : List Fragment)
    → id ≢ ""
    → occurrences id (dedup [] fs) ≡ min 1 (occurrences id fs)
unfolding has_id
dedup_once id fs n = ground (arith, dedup-occurrences id [] fs, eq_iff id "", n)

type_max_positive : (cfg : Config) (k : String) → 1 ≤ type_max cfg k
unfolding type_max or_default
type_max_positive cfg k = ground arith

-- Whatever is loaded, a context of distinct types keeps its budgets: the fragments of the core have
-- at most 6000 characters in all, except where the first fragments of the types, which are always
-- in, have more by themselves; they are at most as many as the configured number, or as the types
-- where these are more, and at most the configured number in the group of each type; the tokens
-- reported for the core cover its fragments and keep the same bound; the working memory has at most
-- the configured number of items and 800 tokens; the ranking of a structured answer counts the
-- tokens of its items, which are within its budget unless the pinned ones have more by themselves;
-- and every identifier of the anchors, the core and the working memory occurs in the fragments once.
pub build-IsWithin :
    (cfg : Config) (types : List String) (l : Loads)
    → Distinct (all_types types l.recall_reflect)
    → IsWithin cfg (all_types types l.recall_reflect) l (build cfg types l)
unfolding build assemble
build-IsWithin cfg types l distinct =
    let all : List String = all_types types l.recall_reflect in
    let core : Core = core_of cfg (frags_of l) all in
    let h : Within cfg (guaranteed (frags_of l) all) core = core_of-Within cfg (frags_of l) all in
    let g : Guaranteed (frags_of l) all = guaranteed_lem (frags_of l) all in
    let k : Counts core = core_of-Counts cfg (frags_of l) all in
    let used : core.used_chars ≤ maxb (top_chars (frags_of l) all) core_char_budget =
      ground (arith, h.chars, g.used) in
    let held : sum_chars (core_fragments core all) ≤ core.used_chars = omega (
      arith,
      k.chars,
      core_fragments-total sum_chars all core sum_chars_none sum_chars-append distinct,
    ) in
    let (a, b) = wm_of-bounds cfg l.working_memory in
    record {
      core_chars = omega (arith, used, held);
      core_count = ground (
        arith,
        core_fragments-total length all core refl (λ xs ys. length-append xs ys) distinct,
        k.added,
        h.added,
        g.number,
      );
      core_slots = λ t. ground (arith, k.slots t, h.slots t, g.single t, type_max_positive cfg t);
      core_tokens_bound = (
        tokens_mono (sum_chars (core_fragments core all)) core.used_chars held,
        tokens_mono core.used_chars (maxb (top_chars (frags_of l) all) core_char_budget) used,
      );
      wm_bound = (a, omega (arith, b));
      ranked = λ budget. structured_ranking-counted cfg budget (build cfg types l);
      once = λ id n.
          dedup_once id
            (anchors_of l.anchors ++ core_fragments core all ++ wm_of cfg l.working_memory) n;
    }
