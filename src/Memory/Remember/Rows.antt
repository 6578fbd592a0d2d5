-- ===== src/Memory/Remember/Rows.antt =====
-- The rows that the effects of `remember` leave stored, and what follows the insert of one.
use memento_mcp.Base.{
  ◌≡◌, refl, sym, ap, subst, ◌∙◌, ◌≤◌, String, List, [], ◌∷◌, ◌++◌, Bool, true, false,
  if◌then◌else◌, truthy, is_some, not, ◌&&◌, map, length, arith, Outcome, ok, err,
}
use memento_mcp.Memory.Remember.{
  Params, Fragment, Config, World, Effect, remembered_in_session, inserted, written, committed,
  rolled_back, released, indexed, post_processed, auto_linked, case_filled, superseded, ttl_lowered,
  case_recorded, Error, Answer, in_session, existing, simulated, stored, Run, after, ask,
  supersede_all, is_low, settle, finalize,
}

-- The rows that stay stored.
abbrev pub kept : List Effect → List String
kept [] = []
kept (inserted id ∷ es) = id ∷ kept es
kept (committed id ∷ es) = id ∷ kept es
kept (_ ∷ es) = kept es

-- One row at most; the one of the answer if a fragment was stored, none for the other answers.
abbrev pub Stores : List String → Outcome Error Answer → Type 0
Stores rows (err e) = length rows ≤ 1
Stores rows (ok (in_session id)) = rows ≡ []
Stores rows (ok (existing id)) = rows ≡ []
Stores rows (ok (simulated warnings)) = rows ≡ []
Stores rows (ok (stored s)) = rows ≡ s.id ∷ []

pub kept-append : (xs ys : List Effect) → kept (xs ++ ys) ≡ kept xs ++ kept ys
kept-append [] ys = refl
kept-append (inserted id ∷ xs) ys = ap (λ k. id ∷ k) (kept-append xs ys)
kept-append (committed id ∷ xs) ys = ap (λ k. id ∷ k) (kept-append xs ys)
kept-append (remembered_in_session id ∷ xs) ys = kept-append xs ys
kept-append (written id ∷ xs) ys = kept-append xs ys
kept-append (rolled_back ∷ xs) ys = kept-append xs ys
kept-append (released ∷ xs) ys = kept-append xs ys
kept-append (indexed ∷ xs) ys = kept-append xs ys
kept-append (post_processed ∷ xs) ys = kept-append xs ys
kept-append (auto_linked ∷ xs) ys = kept-append xs ys
kept-append (case_filled id ∷ xs) ys = kept-append xs ys
kept-append (superseded id ∷ xs) ys = kept-append xs ys
kept-append (ttl_lowered id ∷ xs) ys = kept-append xs ys
kept-append (case_recorded id ∷ xs) ys = kept-append xs ys

supersede_all-kept : (id : String) (olds : List String) → kept (supersede_all id olds) ≡ []
unfolding supersede_all
supersede_all-kept id [] = refl
supersede_all-kept id (old ∷ olds) = ground (arith, supersede_all-kept id olds)

pub case_filled-kept : (ids : List String) → kept (map case_filled ids) ≡ []
case_filled-kept [] = refl
case_filled-kept (id ∷ ids) = case_filled-kept ids

abbrev pub RunStores : Run Answer → Type 0
RunStores r = Stores (kept r.effects) r.outcome

pub if_RunStores :
    (b : Bool) (x y : Run Answer) → RunStores x → RunStores y → RunStores (if b then x else y)
if_RunStores true x y h k = h
if_RunStores false x y h k = k

pub ask-RunStores :
    {A : Type 0} (o : Outcome String A) (next : A → Run Answer)
    → ((a : A) → RunStores (next a))
    → RunStores (ask o next)
ask-RunStores (err message) next h = omega arith
ask-RunStores (ok a) next h = h a

pub after-RunStores :
    (es : List Effect) (r : Run Answer) → kept es ≡ [] → RunStores r → RunStores (after es r)
after-RunStores es r e h =
    let same : kept (es ++ r.effects) ≡ kept r.effects =
      kept-append es r.effects ∙ ap (λ k. k ++ kept r.effects) e in
    subst (λ k. Stores k r.outcome) (sym same) h

-- After the insert: no other row, and the answer is for that one.
abbrev Finishes : String → List String → Outcome Error Answer → Type 0
Finishes id rows (err e) = rows ≡ []
Finishes id rows (ok (in_session i)) = ⊥
Finishes id rows (ok (existing i)) = ⊥
Finishes id rows (ok (simulated ws)) = ⊥
Finishes id rows (ok (stored s)) = (rows ≡ []) × (s.id ≡ id)

if_kept : (b : Bool) (e : Effect) → kept (e ∷ []) ≡ [] → kept (if b then e ∷ [] else []) ≡ []
if_kept true e h = h
if_kept false e h = refl

append_kept : (xs ys : List Effect) → kept xs ≡ [] → kept ys ≡ [] → kept (xs ++ ys) ≡ []
append_kept xs ys h k = kept-append xs ys ∙ ap (λ z. z ++ kept ys) h ∙ k

settle-kept :
    (config : Config) (params : Params) (f : Fragment) (id scope : String)
    (warnings conflicts : List String)
    → kept (settle config params f id scope warnings conflicts).effects ≡ []
unfolding settle
settle-kept config params f id scope warnings conflicts =
    let lowered = is_low f && not (is_some (truthy params.ttl_tier)) in
    let event = is_some (truthy f.case_id) && config.case_events in
    append_kept (supersede_all id params.supersedes)
      ((if lowered then ttl_lowered id ∷ [] else [])
        ++ (if event then case_recorded id ∷ [] else []))
      (supersede_all-kept id params.supersedes)
      (append_kept (if lowered then ttl_lowered id ∷ [] else [])
        (if event then case_recorded id ∷ [] else []) (if_kept lowered (ttl_lowered id) refl)
        (if_kept event (case_recorded id) refl))

settle_lem :
    (config : Config) (params : Params) (f : Fragment) (id scope : String)
    (warnings conflicts : List String)
    → let r = settle config params f id scope warnings conflicts in
      Finishes id (kept r.effects) r.outcome
unfolding settle
settle_lem config params f id scope warnings conflicts =
    (settle-kept config params f id scope warnings conflicts, refl)

ask-Finishes :
    {A : Type 0} (id : String) (o : Outcome String A) (next : A → Run Answer)
    → ((a : A) → Finishes id (kept (next a).effects) (next a).outcome)
    → Finishes id (kept (ask o next).effects) (ask o next).outcome
ask-Finishes id (err message) next h = refl
ask-Finishes id (ok a) next h = h a

pub finalize-Finishes :
    (config : Config) (w : World) (params : Params) (f : Fragment) (scope : String)
    (warnings : List String) (id : String)
    → Finishes id
        (kept (finalize config w params f scope warnings id).effects)
        (finalize config w params f scope warnings id).outcome
unfolding finalize
finalize-Finishes config w params f scope warnings id = ask-Finishes id w.index _ (λ u.
    ask-Finishes id w.post_process _ (λ v.
      ask-Finishes id w.detect_conflicts _
        (λ conflicts. settle_lem config params f id scope warnings conflicts)))

-- A row kept and what follows its insert.
pub Finishes-Stores :
    (id : String) (rows : List String) (o : Outcome Error Answer)
    → Finishes id rows o
    → Stores (id ∷ rows) o
Finishes-Stores id rows (err e) h = subst (λ k. length (id ∷ k) ≤ 1) (sym h) (omega arith)
Finishes-Stores id rows (ok (in_session i)) h = elim h [ ]
Finishes-Stores id rows (ok (existing i)) h = elim h [ ]
Finishes-Stores id rows (ok (simulated ws)) h = elim h [ ]
Finishes-Stores id rows (ok (stored s)) h = rw (h.0, h.1)
