-- ===== src/Memory/Context.antt =====
-- lib/memory/ContextBuilder.js: which fragments `build` puts into a context, within its budgets. What
-- the recalls, the working memory and the query of anchors answer is given. The texts and the
-- identifiers stored for later recalls are left out.
pub mod Data
mod Ranked
mod Fill
mod Held
mod Firsts
mod Bounds
mod Tests
pub use Data.*
use memento_mcp.Base.{
  ℕ, suc, ◌+◌, ◌-◌, ◌*◌, ◌/◌, String, Option, none, some, List, [], ◌∷◌, ◌++◌, Bool, true, false,
  not, ◌&&◌, ltb, leb, ◌==◌, if◌then◌else◌, Dict, or_else, is_some, same_text, str_eq, drop, length,
  Outcome, ok, err, truthy,
}
use memento_mcp.Base.Maps
use mathlib.Core.List.{reverse}

-- `coreBudget * 4` and `wmBudget * 4`.
abbrev pub core_char_budget : ℕ
core_char_budget = 6000

abbrev pub wm_char_budget : ℕ
wm_char_budget = 3200

-- `n || d` on a number that may be missing.
pub or_default : Option ℕ → ℕ → ℕ
or_default none d = d
or_default (some n) d = if n == 0 then d else n

pub max_core : Config → ℕ
max_core c = or_default c.max_core_fragments 15

pub max_wm : Config → ℕ
max_wm c = or_default c.max_wm_fragments 10

pub type_key : Fragment → String
type_key f = or_else (truthy f.type) "general"

pub type_max : Config → String → ℕ
type_max c k = or_default (Maps.get k c.type_slots) 5

pub counter : String → Core → ℕ
counter k c = or_default (Maps.get k c.type_counters) 0

-- The first fragment of each type is always in.
pub guarantee : List Fragment → String → Core → Core
guarantee [] type c = c
guarantee (top ∷ rest) type c = record c {
  groups = Maps.put type (top ∷ []) c.groups;
  used_chars = c.used_chars + top.chars;
}

pub guarantee_all : (String → List Fragment) → List String → Core → Core
guarantee_all frags [] c = c
guarantee_all frags (type ∷ types) c = guarantee_all frags types (guarantee (frags type) type c)

-- `totalAdded` and `typeCounters` of the guaranteed fragments.
pub count_groups : Dict (List Fragment) → Core → Core
count_groups [] c = c
count_groups ((type, fs) ∷ gs) c = count_groups gs (record c {
  type_counters = Maps.put type (length fs) c.type_counters;
  total_added = c.total_added + length fs;
})

-- `seen.has(id)`, where an identifier may be missing.
pub has_id : List (Option String) → Option String → Bool
has_id [] id = false
has_id (x ∷ xs) id = if same_text x id then true else has_id xs id

pub see_top : List (Option String) → List Fragment → List (Option String)
see_top seen [] = seen
see_top seen (top ∷ rest) = top.id ∷ seen

pub top_ids : (String → List Fragment) → List String → List (Option String) → List (Option String)
top_ids frags [] seen = seen
top_ids frags (type ∷ types) seen = top_ids frags types (see_top seen (frags type))

pub unseen : List (Option String) → List Fragment → List Fragment
unseen seen [] = []
unseen seen (f ∷ fs) =
    let rest = unseen (if has_id seen f.id then seen else f.id ∷ seen) fs in
    if has_id seen f.id then rest else f ∷ rest

pub others : (String → List Fragment) → List String → List Fragment
others frags [] = []
others frags (type ∷ types) = drop 1 (frags type) ++ others frags types

-- `extras.sort`, by falling score; equal scores keep their order.
pub insert_by : (Fragment → ℕ) → Fragment → List Fragment → List Fragment
insert_by score f [] = f ∷ []
insert_by score f (g ∷ gs) =
    if leb (score g) (score f) then f ∷ g ∷ gs else g ∷ insert_by score f gs

pub sort_by : (Fragment → ℕ) → List Fragment → List Fragment
sort_by score [] = []
sort_by score (f ∷ fs) = insert_by score f (sort_by score fs)

pub add : Fragment → ℕ → Core → Core
add f cost c = record c {
  groups = Maps.put (type_key f) (or_else (Maps.get (type_key f) c.groups) [] ++ f ∷ []) c.groups;
  used_chars = c.used_chars + cost;
  type_counters = Maps.put (type_key f) (counter (type_key f) c + 1) c.type_counters;
  total_added = c.total_added + 1;
}

-- The last fragment may be cut to what is left, if that is more than 80 characters.
pub add_truncated : Fragment → Core → Core
add_truncated f c =
    let remaining = core_char_budget - c.used_chars in
    if ltb 80 remaining
    then add (record f { chars = remaining; is_truncated = true }) remaining c
    else c

-- One extra: whether the loop goes on, and the core then.
pub consider : Config → Fragment → Core → Bool × Core
consider cfg f c =
    if leb (max_core cfg) c.total_added
    then (false, c)
    else if leb (type_max cfg (type_key f)) (counter (type_key f) c)
    then (true, c)
    else if ltb core_char_budget (c.used_chars + f.chars)
    then (false, add_truncated f c)
    else (true, add f f.chars c)

pub fill : Config → List Fragment → Core → Core
fill cfg [] c = c
fill cfg (f ∷ fs) c = let (more, c') = consider cfg f c in if more then fill cfg fs c' else c'

pub empty_core : Core
empty_core = record { groups = []; used_chars = 0; type_counters = []; total_added = 0 }

pub guaranteed : (String → List Fragment) → List String → Core
guaranteed frags types = let c = guarantee_all frags types empty_core in count_groups c.groups c

pub core_of : Config → (String → List Fragment) → List String → Core
core_of cfg frags types =
    fill cfg (sort_by cfg.score (unseen (top_ids frags types []) (others frags types)))
      (guaranteed frags types)

pub core_fragments : Core → List String → List Fragment
core_fragments c [] = []
core_fragments c (type ∷ types) = or_else (Maps.get type c.groups) [] ++ core_fragments c types

-- The newest items come first; anchors are passed over.
pub take_wm : ℕ → ℕ → ℕ → List Fragment → List Fragment
take_wm limit taken used [] = []
take_wm limit taken used (f ∷ fs) =
    let taken' = if f.is_anchor then taken else taken + 1 in
    let used' = if f.is_anchor then used else used + f.chars in
    let rest = take_wm limit taken' used' fs in
    if f.is_anchor
    then rest
    else if leb limit taken
    then []
    else if ltb wm_char_budget (used + f.chars)
    then []
    else f ∷ rest

pub wm_of : Config → Option (List Fragment) → List Fragment
wm_of cfg none = []
wm_of cfg (some items) = take_wm (max_wm cfg) 0 0 (reverse items)

pub dedup : List (Option String) → List Fragment → List Fragment
dedup seen [] = []
dedup seen (f ∷ fs) =
    let known = is_some (truthy f.id) && has_id seen f.id in
    let rest = dedup (if is_some (truthy f.id) then f.id ∷ seen else seen) fs in
    if known then rest else f ∷ rest

pub sum_chars : List Fragment → ℕ
sum_chars [] = 0
sum_chars (f ∷ fs) = f.chars + sum_chars fs

pub anchors_of : Outcome String (List Fragment) → List Fragment
anchors_of (err message) = []
anchors_of (ok fs) = fs

pub first_nonempty : List Fragment → List Fragment → List Fragment
first_nonempty [] gs = gs
first_nonempty (f ∷ fs) gs = f ∷ fs

-- `typeFragMap.get(type)`: the reflections of the last session, if there are any, are a type.
pub frags_of : Loads → String → List Fragment
frags_of l type =
    if str_eq type "session_reflect"
    then first_nonempty l.recall_reflect (l.recall_type type)
    else l.recall_type type

pub all_types : List String → List Fragment → List String
all_types types [] = types
all_types types (f ∷ fs) = types ++ "session_reflect" ∷ []

pub assemble : List Fragment → List Fragment → List Fragment → ℕ → Context
assemble anchors core wm used =
    let fragments = dedup [] (anchors ++ core ++ wm) in
    let anchor_tokens = (sum_chars anchors + 3) / 4 in
    let core_tokens = (used + 3) / 4 in
    let wm_tokens = (sum_chars wm + 3) / 4 in
    record {
      fragments = fragments;
      total_tokens = anchor_tokens + core_tokens + wm_tokens;
      count = length fragments;
      anchor_tokens = anchor_tokens;
      core_tokens = core_tokens;
      wm_tokens = wm_tokens;
      wm_count = length wm;
      anchor_count = length anchors;
    }

pub build : Config → List String → Loads → Context
build cfg types l =
    let all = all_types types l.recall_reflect in
    let core = core_of cfg (frags_of l) all in
    assemble (anchors_of l.anchors) (core_fragments core all) (wm_of cfg l.working_memory)
      core.used_chars
