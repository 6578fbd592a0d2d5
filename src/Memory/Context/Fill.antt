-- ===== src/Memory/Context/Fill.antt =====
-- Filling the core stays within its budget, its cap and the slots of the types.
use memento_mcp.Base.{
  ℕ, ◌+◌, ◌-◌, ◌≤◌, ◌≡◌, ap, String, List, [], ◌∷◌, Bool, true, false, ltb, leb, maxb,
  if◌then◌else◌, str_eq, eq_iff, get-put, if_either, arith,
}
use memento_mcp.Memory.Context.{
  Fragment, Config, Core, core_char_budget, or_default, max_core, type_key, type_max, counter, add,
  add_truncated, consider, fill, guaranteed, core_of, sort_by, unseen, others, top_ids,
}

-- Filling never goes past the budget or the cap, unless the guaranteed fragments did.
pub record Within (cfg : Config) (before after : Core) : Type 0 where
  pub chars : after.used_chars ≤ maxb before.used_chars core_char_budget
  pub added : after.total_added ≤ maxb before.total_added (max_core cfg)
  pub slots : (k : String) → counter k after ≤ maxb (counter k before) (type_max cfg k)

pub counter-add :
    (f : Fragment) (cost : ℕ) (c : Core) (k : String)
    → counter k (add f cost c)
      ≡ (if str_eq (type_key f) k then counter (type_key f) c + 1 else counter k c)
unfolding counter add or_default
counter-add f cost c k =
    ground (arith, get-put (type_key f) k (counter (type_key f) c + 1) c.type_counters)

same-Within : (cfg : Config) (c : Core) → Within cfg c c
same-Within cfg c = record { chars = ground arith; added = ground arith; slots = λ k. ground arith }

add-Within :
    (cfg : Config) (f : Fragment) (cost : ℕ) (c : Core)
    → leb (max_core cfg) c.total_added ≡ false
    → leb (type_max cfg (type_key f)) (counter (type_key f) c) ≡ false
    → c.used_chars + cost ≤ core_char_budget
    → Within cfg c (add f cost c)
unfolding add
add-Within cfg f cost c a b le = record {
  chars = ground (arith, le);
  added = ground (arith, a);
  slots = λ k. ground (
    arith,
    counter-add f cost c k,
    eq_iff (type_key f) k,
    b,
    ap (λ j. counter j c),
    ap (type_max cfg),
  );
}

truncated-Within :
    (cfg : Config) (f : Fragment) (c : Core)
    → leb (max_core cfg) c.total_added ≡ false
    → leb (type_max cfg (type_key f)) (counter (type_key f) c) ≡ false
    → Within cfg c (add_truncated f c)
unfolding add_truncated type_key
truncated-Within cfg f c a b =
    let remaining : ℕ = core_char_budget - c.used_chars in
    if_either (Within cfg c) (ltb 80 remaining)
      (add (record f { chars = remaining; is_truncated = true }) remaining c) c
      (λ h.
        add-Within cfg (record f { chars = remaining; is_truncated = true }) remaining c a b
          (ground (arith, h)))
      (λ h. same-Within cfg c)

consider-Within : (cfg : Config) (f : Fragment) (c : Core) → Within cfg c (consider cfg f c).1
unfolding consider
consider-Within cfg f c =
    let P : Bool × Core → Type 0 = λ p. Within cfg c p.1 in
    if_either P (leb (max_core cfg) c.total_added) (false, c) _ (λ a. same-Within cfg c)
      (λ a.
        if_either P (leb (type_max cfg (type_key f)) (counter (type_key f) c)) (true, c) _
          (λ b. same-Within cfg c)
          (λ b.
            if_either P (ltb core_char_budget (c.used_chars + f.chars)) (false, add_truncated f c)
              (true, add f f.chars c) (λ d. truncated-Within cfg f c a b)
              (λ d. add-Within cfg f f.chars c a b (ground (arith, d)))))

trans-Within : (cfg : Config) (a b c : Core) → Within cfg a b → Within cfg b c → Within cfg a c
trans-Within cfg a b c h k = record {
  chars = ground (arith, h.chars, k.chars);
  added = ground (arith, h.added, k.added);
  slots = λ key. ground (arith, h.slots key, k.slots key);
}

fill-Within : (cfg : Config) (fs : List Fragment) (c : Core) → Within cfg c (fill cfg fs c)
unfolding fill
fill-Within cfg [] c = same-Within cfg c
fill-Within cfg (f ∷ fs) c =
    let first : Within cfg c (consider cfg f c).1 = consider-Within cfg f c in
    if_either (Within cfg c) (consider cfg f c).0 (fill cfg fs (consider cfg f c).1)
      (consider cfg f c).1
      (λ h.
        trans-Within cfg c (consider cfg f c).1 (fill cfg fs (consider cfg f c).1) first
          (fill-Within cfg fs (consider cfg f c).1))
      (λ h. first)

pub core_of-Within :
    (cfg : Config) (frags : String → List Fragment) (types : List String)
    → Within cfg (guaranteed frags types) (core_of cfg frags types)
unfolding core_of
core_of-Within cfg frags types =
    fill-Within cfg (sort_by cfg.score (unseen (top_ids frags types []) (others frags types)))
      (guaranteed frags types)
