-- ===== src/Memory/Context/Held.antt =====
-- What the groups of the core hold, against the counters of the loop that fills it.
use memento_mcp.Base.{
  ℕ, ◌+◌, ◌-◌, ◌≤◌, ◌≡◌, refl, ap, String, some, List, [], ◌∷◌, ◌++◌, Bool, true, false, ltb, leb,
  if◌then◌else◌, if_either, Dict, or_else, str_eq, eq_iff, includes, length, length-append, get-put,
  get-delete, arith,
}
use memento_mcp.Base.Maps
use memento_mcp.Memory.Context.{
  Fragment, Config, Core, core_char_budget, max_core, type_key, type_max, counter, add,
  add_truncated, consider, fill, core_fragments, sum_chars,
}
use memento_mcp.Memory.Context.Fill.{counter-add}

abbrev pub group : String → Dict (List Fragment) → List Fragment
group k gs = or_else (Maps.get k gs) []

-- No type is asked for twice.
abbrev pub Distinct : List String → Type 0
Distinct [] = Unit
Distinct (t ∷ ts) = (includes ts t ≡ false) × Distinct ts

core_fragments-delete :
    (t : String) (ts : List String) (c : Core)
    → includes ts t ≡ false
    → core_fragments (record c { groups = Maps.delete t c.groups }) ts ≡ core_fragments c ts
unfolding core_fragments
core_fragments-delete t [] c h = refl
core_fragments-delete t (x ∷ ts) c h =
    let other : str_eq t x ≡ false = ground (arith, h, eq_iff t x, eq_iff x t) in
    rw (get-delete t x c.groups, other, core_fragments-delete t ts c (ground (arith, h))) refl

-- A measure of fragments that adds up, over all groups.
module _ (g : List Fragment → ℕ) where
  abbrev pub total : Dict (List Fragment) → ℕ
  total [] = 0
  total ((k, fs) ∷ gs) = g fs + total gs

  pub total-put :
      (k : String) (fs : List Fragment) (gs : Dict (List Fragment))
      → g [] ≡ 0
      → total (Maps.put k fs gs) + g (group k gs) ≡ total gs + g fs
  unfolding Maps.put Maps.get
  total-put k fs [] z = ground (arith, z)
  total-put k fs ((j, w) ∷ gs) z = ground (arith, total-put k fs gs z)

  total-delete :
      (k : String) (gs : Dict (List Fragment))
      → g [] ≡ 0
      → total (Maps.delete k gs) + g (group k gs) ≤ total gs
  unfolding Maps.delete Maps.get
  total-delete k [] z = ground (arith, z)
  total-delete k ((j, w) ∷ gs) z = ground (arith, total-delete k gs z)

  -- The groups of distinct types are among all groups.
  pub core_fragments-total :
      (ts : List String) (c : Core)
      → g [] ≡ 0
      → ((xs ys : List Fragment) → g (xs ++ ys) ≡ g xs + g ys)
      → Distinct ts
      → g (core_fragments c ts) ≤ total c.groups
  unfolding core_fragments
  core_fragments-total [] c z a u = omega (arith, z)
  core_fragments-total (t ∷ ts) c z a u =
      let c' : Core = record c { groups = Maps.delete t c.groups } in
      let rest = core_fragments-total ts c' z a u.1 in
      let same = ap g (core_fragments-delete t ts c u.0) in
      omega
        (arith, rest, same, total-delete t c.groups z, a (group t c.groups) (core_fragments c ts))

-- The counters of a core cover what its groups hold.
pub record Counts (c : Core) : Type 0 where
  pub chars : total sum_chars c.groups ≤ c.used_chars
  pub added : total length c.groups ≤ c.total_added
  pub slots : (k : String) → length (group k c.groups) ≤ counter k c

pub sum_chars-append : (xs ys : List Fragment) → sum_chars (xs ++ ys) ≡ sum_chars xs + sum_chars ys
unfolding sum_chars
sum_chars-append [] ys = omega arith
sum_chars-append (x ∷ xs) ys = omega (arith, sum_chars-append xs ys)

pub sum_chars_none : sum_chars [] ≡ 0
unfolding sum_chars
sum_chars_none = refl

pub sum_chars_one : (f : Fragment) → sum_chars (f ∷ []) ≡ f.chars
unfolding sum_chars
sum_chars_one f = omega arith

put-slots :
    (c : Core) (j k : String) (fs : List Fragment) (b : Bool)
    → length fs ≡ length (group k c.groups) + 1
    → Counts c
    → length (or_else (if b then some fs else Maps.get j c.groups) [])
      ≤ (if b then counter k c + 1 else counter j c)
put-slots c j k fs true e h = omega (arith, e, h.slots k)
put-slots c j k fs false e h = h.slots j

add-Counts :
    (f : Fragment) (cost : ℕ) (c : Core) → f.chars ≤ cost → Counts c → Counts (add f cost c)
unfolding add
add-Counts f cost c le h =
    let k = type_key f in
    let old = group k c.groups in
    record {
      chars = omega (
        arith,
        le,
        h.chars,
        total-put sum_chars k (old ++ f ∷ []) c.groups sum_chars_none,
        sum_chars-append old (f ∷ []),
        sum_chars_one f,
      );
      added = omega (
        arith,
        h.added,
        total-put length k (old ++ f ∷ []) c.groups refl,
        length-append old (f ∷ []),
      );
      slots = λ j.
          rw (counter-add f cost c j, get-put k j (old ++ f ∷ []) c.groups)
            (put-slots c j k (old ++ f ∷ []) (str_eq k j) (length-append old (f ∷ [])) h);
    }

consider-Counts : (cfg : Config) (f : Fragment) (c : Core) → Counts c → Counts (consider cfg f c).1
unfolding consider add_truncated
consider-Counts cfg f c h =
    let P : Bool × Core → Type 0 = λ p. Counts p.1 in
    let left : ℕ = core_char_budget - c.used_chars in
    let cut : Fragment = record f { chars = left; is_truncated = true } in
    if_either P (leb (max_core cfg) c.total_added) (false, c) _ (λ a. h)
      (λ a.
        if_either P (leb (type_max cfg (type_key f)) (counter (type_key f) c)) (true, c) _ (λ b. h)
          (λ b.
            if_either P (ltb core_char_budget (c.used_chars + f.chars)) (false, add_truncated f c)
              (true, add f f.chars c)
              (λ d.
                if_either Counts (ltb 80 left) (add cut left c) c
                  (λ e. add-Counts cut left c (omega arith) h) (λ e. h))
              (λ d. add-Counts f f.chars c (omega arith) h)))

pub fill-Counts : (cfg : Config) (fs : List Fragment) (c : Core) → Counts c → Counts (fill cfg fs c)
unfolding fill
fill-Counts cfg [] c h = h
fill-Counts cfg (f ∷ fs) c h =
    let c' : Core = (consider cfg f c).1 in
    let k : Counts c' = consider-Counts cfg f c h in
    if_either Counts (consider cfg f c).0 (fill cfg fs c') c' (λ e. fill-Counts cfg fs c' k)
      (λ e. k)
