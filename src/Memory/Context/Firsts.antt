-- ===== src/Memory/Context/Firsts.antt =====
-- The first fragments of the types, which are always in the core, and the core filled from them.
use memento_mcp.Base.{
  ℕ, ◌+◌, ◌≤◌, ◌≡◌, refl, String, List, [], ◌∷◌, if◌then◌else◌, Dict, eq_iff, length, get-put,
  is_some, arith, subst, Option-cases, inl, inr,
}
use memento_mcp.Base.Maps
use memento_mcp.Memory.Context.{
  Fragment, Config, Core, counter, or_default, guarantee, guarantee_all, count_groups, empty_core,
  guaranteed, core_of, sum_chars, sort_by, unseen, top_ids, others,
}
use memento_mcp.Memory.Context.Held.{
  group, total, total-put, Counts, sum_chars_none, sum_chars_one, fill-Counts,
}

-- The characters of the first fragments of the types.
abbrev pub first_chars : List Fragment → ℕ
first_chars [] = 0
first_chars (f ∷ fs) = f.chars

abbrev pub top_chars : (String → List Fragment) → List String → ℕ
top_chars frags [] = 0
top_chars frags (t ∷ ts) = first_chars (frags t) + top_chars frags ts

-- The core while the first fragments are put in, `n` of them having the given characters at most.
record Tops (n chars : ℕ) (c : Core) : Type 0 where
  used : c.used_chars ≡ chars
  held : total sum_chars c.groups ≤ c.used_chars
  number : total length c.groups ≤ n
  single : (k : String) → length (group k c.groups) ≤ 1
  unique : Maps.Unique c.groups
  fresh : (c.total_added ≡ 0) × (c.type_counters ≡ [])

guarantee-Tops :
    (fs : List Fragment) (t : String) (n chars : ℕ) (c : Core)
    → Tops n chars c
    → Tops (n + 1) (chars + first_chars fs) (guarantee fs t c)
unfolding guarantee
guarantee-Tops [] t n chars c h = record {
  used = omega (arith, h.used);
  held = h.held;
  number = omega (arith, h.number);
  single = h.single;
  unique = h.unique;
  fresh = h.fresh;
}
guarantee-Tops (f ∷ fs) t n chars c h = record {
  used = omega (arith, h.used);
  held =
      omega
        (arith, h.held, total-put sum_chars t (f ∷ []) c.groups sum_chars_none, sum_chars_one f);
  number = omega (arith, h.number, total-put length t (f ∷ []) c.groups refl);
  single = λ k. ground (arith, h.single k, get-put t k (f ∷ []) c.groups);
  unique = Maps.put-Unique t (f ∷ []) c.groups h.unique;
  fresh = h.fresh;
}

guarantee_all-Tops :
    (frags : String → List Fragment) (ts : List String) (n chars : ℕ) (c : Core)
    → Tops n chars c
    → Tops (n + length ts) (chars + top_chars frags ts) (guarantee_all frags ts c)
unfolding guarantee_all
guarantee_all-Tops frags [] n chars c h =
    subst (λ m. Tops m (chars + 0) c) (omega arith) (subst (λ m. Tops n m c) (omega arith) h)
guarantee_all-Tops frags (t ∷ ts) n chars c h =
    let one = guarantee-Tops (frags t) t n chars c h in
    let all =
      guarantee_all-Tops frags ts (n + 1) (chars + first_chars (frags t)) (guarantee (frags t) t c)
        one in
    subst
      (λ m.
        Tops m (chars + (first_chars (frags t) + top_chars frags ts))
          (guarantee_all frags ts (guarantee (frags t) t c)))
      (omega arith)
      (subst (λ m. Tops (n + 1 + length ts) m (guarantee_all frags ts (guarantee (frags t) t c)))
        (omega arith) all)

-- What the count of the groups sets, and what it leaves alone.
count_groups_lem :
    (gs : Dict (List Fragment)) (c : Core)
    → ((count_groups gs c).groups ≡ c.groups)
      × ((count_groups gs c).used_chars ≡ c.used_chars)
      × ((count_groups gs c).total_added ≡ c.total_added + total length gs)
unfolding count_groups
count_groups_lem [] c = (refl, refl, omega arith)
count_groups_lem ((t, fs) ∷ gs) c =
    let c' : Core = record c {
      type_counters = Maps.put t (length fs) c.type_counters;
      total_added = c.total_added + length fs;
    } in
    let (a, b, n) = count_groups_lem gs c' in (a, b, omega (arith, n))

counter-count_groups :
    (gs : Dict (List Fragment)) (c : Core) (k : String)
    → Maps.Unique gs
    → counter k (count_groups gs c)
      ≡ (if is_some (Maps.get k gs) then length (group k gs) else counter k c)
unfolding count_groups counter or_default Maps.get
counter-count_groups [] c k u = refl
counter-count_groups ((t, fs) ∷ gs) c k u =
    let c' : Core = record c {
      type_counters = Maps.put t (length fs) c.type_counters;
      total_added = c.total_added + length fs;
    } in
    ground (
      arith,
      counter-count_groups gs c' k u.1,
      get-put t k (length fs) c.type_counters,
      eq_iff t k,
      u.0,
    )

empty-Tops : Tops 0 0 empty_core
unfolding empty_core Maps.get
empty-Tops = record {
  used = refl;
  held = omega arith;
  number = omega arith;
  single = λ k. omega arith;
  unique = tt;
  fresh = (refl, refl);
}

-- The guaranteed fragments: counted, one for a type at most, with the characters of the firsts.
pub record Guaranteed (frags : String → List Fragment) (ts : List String) : Type 0 where
  pub counts : Counts (guaranteed frags ts)
  pub used : (guaranteed frags ts).used_chars ≡ top_chars frags ts
  pub number : (guaranteed frags ts).total_added ≤ length ts
  pub single : (k : String) → counter k (guaranteed frags ts) ≤ 1

single_le :
    (k : String) (c : Core)
    → length (group k c.groups) ≤ 1
    → c.type_counters ≡ []
    → (if is_some (Maps.get k c.groups) then length (group k c.groups) else counter k c) ≤ 1
unfolding counter or_default Maps.get
single_le k c h e = elim (Option-cases (Maps.get k c.groups)) [
  | inl n ↦ rw (n, e) (omega arith)
  | inr (fs, n) ↦ let le : length fs ≤ 1 = rw n at h in rw n le
]

pub guaranteed_lem : (frags : String → List Fragment) (ts : List String) → Guaranteed frags ts
unfolding guaranteed Maps.get counter
guaranteed_lem frags ts =
    let c : Core = guarantee_all frags ts empty_core in
    let h : Tops (0 + length ts) (0 + top_chars frags ts) c =
      guarantee_all-Tops frags ts 0 0 empty_core empty-Tops in
    let (same, used, number) = count_groups_lem c.groups c in
    let counted : (k : String)
        → counter k (count_groups c.groups c)
          ≡ (if is_some (Maps.get k c.groups) then length (group k c.groups) else counter k c) =
      λ k. counter-count_groups c.groups c k h.unique in
    record {
      counts = record {
        chars = rw (same, used) h.held;
        added = rw (same, number) (omega arith);
        slots = λ k. rw (same, counted k) (ground arith);
      };
      used = omega (arith, used, h.used);
      number = omega (arith, number, h.number, h.fresh.0);
      single = λ k. rw (counted k) (single_le k c (h.single k) h.fresh.1);
    }

pub core_of-Counts :
    (cfg : Config) (frags : String → List Fragment) (ts : List String)
    → Counts (core_of cfg frags ts)
unfolding core_of
core_of-Counts cfg frags ts =
    fill-Counts cfg (sort_by cfg.score (unseen (top_ids frags ts []) (others frags ts)))
      (guaranteed frags ts) (guaranteed_lem frags ts).counts
