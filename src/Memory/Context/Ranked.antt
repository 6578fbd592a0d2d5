-- ===== src/Memory/Context/Ranked.antt =====
-- lib/memory/ContextBuilder.js: the ranking of a structured answer (`buildRankedInjection`) and the
-- hint (`buildContextHint`). The texts of the hint are left out.
use memento_mcp.Base.{
  ℕ, zero, suc, ◌+◌, ◌/◌, ◌≤◌, ◌≡◌, refl, Option, none, some, List, [], ◌∷◌, ◌++◌, Bool, true,
  false, not, ltb, maxb, if◌then◌else◌, is_text, keep_if, count_if, length, if_either, arith,
}
use memento_mcp.Memory.Context.{Fragment, Config, Context, sort_by}

pub data Hint : Type 0 where
  active_errors : ℕ → Hint
  empty_context : Hint

pub hint_of : ℕ → List Fragment → Option Hint
hint_of zero [] = some empty_context
hint_of zero (f ∷ fs) = none
hint_of (suc n) fs = some (active_errors (suc n))

pub build_context_hint : List Fragment → Option Hint
build_context_hint fs = hint_of (count_if (λ f. is_text "error" f.type) fs) fs

pub record RankedItem : Type 0 where
  pub rank : ℕ
  pub ranked_fragment : Fragment
  pub pinned : Bool

pub record Ranked : Type 0 where
  pub items : List RankedItem
  pub ranked_tokens : ℕ

pub tokens_of : Fragment → ℕ
tokens_of f = (f.chars + 3) / 4

pub append_item : Bool → Fragment → Ranked → Ranked
append_item pinned f r = record {
  items =
      r.items ++ record { rank = length r.items + 1; ranked_fragment = f; pinned = pinned } ∷ [];
  ranked_tokens = r.ranked_tokens + tokens_of f;
}

pub rank_anchors : List Fragment → Ranked → Ranked
rank_anchors [] r = r
rank_anchors (f ∷ fs) r = rank_anchors fs (append_item true f r)

-- The first fragment that does not fit ends the ranking.
pub rank_others : ℕ → List Fragment → Ranked → Ranked
rank_others budget [] r = r
rank_others budget (f ∷ fs) r =
    if ltb budget (r.ranked_tokens + tokens_of f)
    then r
    else rank_others budget fs (append_item false f r)

pub no_items : Ranked
no_items = record { items = []; ranked_tokens = 0 }

pub build_ranked_injection : (Fragment → ℕ) → ℕ → List Fragment → List Fragment → Ranked
build_ranked_injection score budget anchors others =
    rank_others budget (sort_by score others) (rank_anchors anchors no_items)

pub has_anchor_type : Fragment → Bool
has_anchor_type f = is_text "anchor" f.type

-- `rankedInjection` of a structured answer.
pub structured_ranking : Config → ℕ → Context → Ranked
structured_ranking cfg budget c =
    build_ranked_injection cfg.rank_score budget (keep_if has_anchor_type c.fragments)
      (keep_if (λ f. not (has_anchor_type f)) c.fragments)

pub sum_tokens : List Fragment → ℕ
sum_tokens [] = 0
sum_tokens (f ∷ fs) = tokens_of f + sum_tokens fs

pub item_tokens : List RankedItem → ℕ
item_tokens [] = 0
item_tokens (i ∷ is) = tokens_of i.ranked_fragment + item_tokens is

item_tokens-append :
    (is js : List RankedItem) → item_tokens (is ++ js) ≡ item_tokens is + item_tokens js
unfolding item_tokens
item_tokens-append [] js = omega arith
item_tokens-append (i ∷ is) js = omega (arith, item_tokens-append is js)

-- The tokens that are counted are those of the items.
append-counted :
    (pinned : Bool) (f : Fragment) (r : Ranked)
    → r.ranked_tokens ≡ item_tokens r.items
    → (append_item pinned f r).ranked_tokens ≡ item_tokens (append_item pinned f r).items
unfolding append_item item_tokens
append-counted pinned f r h = omega (
  arith,
  h,
  item_tokens-append r.items
      (record { rank = length r.items + 1; ranked_fragment = f; pinned = pinned } ∷ []),
)

anchors-counted :
    (fs : List Fragment) (r : Ranked)
    → r.ranked_tokens ≡ item_tokens r.items
    → ((rank_anchors fs r).ranked_tokens ≡ item_tokens (rank_anchors fs r).items)
      × ((rank_anchors fs r).ranked_tokens ≡ r.ranked_tokens + sum_tokens fs)
unfolding rank_anchors sum_tokens append_item
anchors-counted [] r h = (h, omega arith)
anchors-counted (f ∷ fs) r h =
    let (a, b) = anchors-counted fs (append_item true f r) (append-counted true f r h) in
    (a, omega (arith, b))

others-counted :
    (budget : ℕ) (fs : List Fragment) (r : Ranked)
    → r.ranked_tokens ≡ item_tokens r.items
    → ((rank_others budget fs r).ranked_tokens ≡ item_tokens (rank_others budget fs r).items)
      × ((rank_others budget fs r).ranked_tokens ≤ maxb r.ranked_tokens budget)
unfolding rank_others append_item
others-counted budget [] r h = (h, ground arith)
others-counted budget (f ∷ fs) r h =
    let P : Ranked → Type 0 = λ s.
      (s.ranked_tokens ≡ item_tokens s.items) × (s.ranked_tokens ≤ maxb r.ranked_tokens budget) in
    if_either P (ltb budget (r.ranked_tokens + tokens_of f)) r
      (rank_others budget fs (append_item false f r)) (λ e. (h, ground arith))
      (λ e.
        let (a, b) =
          others-counted budget fs (append_item false f r) (append-counted false f r h) in
        (a, ground (arith, b, e)))

pub structured_ranking-counted :
    (cfg : Config) (budget : ℕ) (c : Context)
    → let r = structured_ranking cfg budget c in
      (r.ranked_tokens ≡ item_tokens r.items)
      × (r.ranked_tokens ≤ maxb (sum_tokens (keep_if has_anchor_type c.fragments)) budget)
unfolding structured_ranking build_ranked_injection no_items item_tokens
structured_ranking-counted cfg budget c =
    let (a, b) = anchors-counted (keep_if has_anchor_type c.fragments) no_items refl in
    let (d, e) =
      others-counted budget
        (sort_by cfg.rank_score (keep_if (λ f. not (has_anchor_type f)) c.fragments))
        (rank_anchors (keep_if has_anchor_type c.fragments) no_items) a in
    (d, ground (arith, e, b))
