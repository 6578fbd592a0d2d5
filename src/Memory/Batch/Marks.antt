-- ===== src/Memory/Batch/Marks.antt =====
-- The results of a batch against the rows that are left to store: rejecting rows keeps them in step.
use memento_mcp.Base.{
  ℕ, zero, suc, ◌-◌, ◌≡◌, refl, ◌≤◌, String, Option, some, List, [], ◌∷◌, true, false, length, take,
  drop, count_if, All, arith, Outcome, ok, err, sym, subst, ◌∙◌, truthy, or_else,
}
use memento_mcp.Memory.Batch.{
  Item, Fragment, Result, Valid, Params, Factory, make_fragment, PhaseA, add_made, failed_result,
  phase_a, change_at, reject, reject_all, set_ids,
}

-- From the index i on, the results that are successes are those of the rows that are left to store.
pub data Marks : ℕ → List Result → List Valid → Type 0 where
  done : {i : ℕ} → Marks i [] []
  failure :
      {i : ℕ} {r : Result} {rs : List Result} {vs : List Valid}
      → r.success ≡ false
      → Marks (suc i) rs vs
      → Marks i (r ∷ rs) vs
  success :
      {i : ℕ} {r : Result} {rs : List Result} {v : Valid} {vs : List Valid}
      → r.success ≡ true
      → v.index ≡ i
      → Marks (suc i) rs vs
      → Marks i (r ∷ rs) (v ∷ vs)

-- The number of results that are successes.
abbrev pub successes : List Result → ℕ
successes rs = count_if (λ r. r.success) rs

pub Marks-successes :
    (i : ℕ) (rs : List Result) (vs : List Valid) → Marks i rs vs → successes rs ≡ length vs
Marks-successes i [] [] done = refl
Marks-successes i [] (v ∷ vs) m = elim m [ ]
Marks-successes i (r ∷ rs) vs (failure h m) = ground (arith, Marks-successes (suc i) rs vs m, h)
Marks-successes i (r ∷ rs) (v ∷ vs) (success h e m) =
    ground (arith, Marks-successes (suc i) rs vs m, h)

add_made-Marks :
    (params : Params) (item : Item) (i : ℕ) (o : Outcome String Fragment) (a : PhaseA)
    → Marks (suc i) a.results a.valid
    → Marks i (add_made params item i o a).results (add_made params item i o a).valid
unfolding add_made failed_result
add_made-Marks params item i (err m) a h = failure refl h
add_made-Marks params item i (ok f) a h = success refl refl h

pub phase_a-Marks :
    (factory : Factory) (params : Params) (i : ℕ) (items : List Item)
    → Marks i (phase_a factory params i items).results (phase_a factory params i items).valid
unfolding phase_a
phase_a-Marks factory params i [] = done
phase_a-Marks factory params i (item ∷ items) =
    add_made-Marks params item i (make_fragment factory item) (phase_a factory params (suc i) items)
      (phase_a-Marks factory params (suc i) items)

-- `reject_all` with the indices counted from i.
abbrev reject_from : ℕ → List Valid → List Result → List Result
reject_from i [] rs = rs
reject_from i (v ∷ vs) rs = reject_from i vs (change_at (v.index - i) reject rs)

change_at-suc :
    (k i : ℕ) (f : Result → Result) (r : Result) (rs : List Result)
    → suc i ≤ k
    → change_at (k - i) f (r ∷ rs) ≡ r ∷ change_at (k - suc i) f rs
unfolding change_at
change_at-suc k i f r rs h = let e : k - i ≡ suc (k - suc i) = omega (arith, h) in rw (e)

reject_from-suc :
    (i : ℕ) (vs : List Valid) (r : Result) (rs : List Result)
    → All (λ v. suc i ≤ v.index) vs
    → reject_from i vs (r ∷ rs) ≡ r ∷ reject_from (suc i) vs rs
reject_from-suc i [] r rs h = refl
reject_from-suc i (v ∷ vs) r rs h = rw (
  change_at-suc v.index i reject r rs h.0,
  reject_from-suc i vs r (change_at (v.index - suc i) reject rs) h.1,
)

reject_from-zero : (vs : List Valid) (rs : List Result) → reject_from 0 vs rs ≡ reject_all vs rs
unfolding reject_all
reject_from-zero [] rs = refl
reject_from-zero (v ∷ vs) rs =
    let e : v.index - 0 ≡ v.index = omega arith in
    rw (e, reject_from-zero vs (change_at v.index reject rs))

indices_weaken :
    (i : ℕ) (vs : List Valid) → All (λ v. suc i ≤ v.index) vs → All (λ v. i ≤ v.index) vs
indices_weaken i [] h = tt
indices_weaken i (v ∷ vs) h = (omega (arith, h.0), indices_weaken i vs h.1)

Marks-indices :
    (i : ℕ) (rs : List Result) (vs : List Valid) → Marks i rs vs → All (λ v. i ≤ v.index) vs
Marks-indices i rs [] m = tt
Marks-indices i [] (v ∷ vs) m = elim m [ ]
Marks-indices i (r ∷ rs) (v ∷ vs) (failure h m) =
    indices_weaken i (v ∷ vs) (Marks-indices (suc i) rs (v ∷ vs) m)
Marks-indices i (r ∷ rs) (v ∷ vs) (success h e m) =
    (omega (arith, e), indices_weaken i vs (Marks-indices (suc i) rs vs m))

pub All-drop : (P : Valid → Type 0) (n : ℕ) (vs : List Valid) → All P vs → All P (drop n vs)
All-drop P zero vs h = h
All-drop P (suc n) [] h = tt
All-drop P (suc n) (v ∷ vs) h = All-drop P n vs h.1

reject_from-here :
    (i : ℕ) (v : Valid) (vs : List Valid) (r : Result) (rs : List Result)
    → v.index ≡ i
    → All (λ w. suc i ≤ w.index) vs
    → reject_from i (v ∷ vs) (r ∷ rs) ≡ reject r ∷ reject_from (suc i) vs rs
unfolding change_at
reject_from-here i v vs r rs e later =
    let here : v.index - i ≡ 0 = omega (arith, e) in
    rw (here, reject_from-suc i vs (reject r) rs later)

-- Rejecting the rows after the first n leaves the first n.
reject_from-Marks :
    (i n : ℕ) (rs : List Result) (vs : List Valid)
    → Marks i rs vs
    → Marks i (reject_from i (drop n vs) rs) (take n vs)
unfolding reject change_at
reject_from-Marks i zero [] [] m = done
reject_from-Marks i (suc n) [] [] m = done
reject_from-Marks i n [] (v ∷ vs) m = elim m [ ]
reject_from-Marks i n (r ∷ rs) vs (failure h m) =
    let later = All-drop (λ v. suc i ≤ v.index) n vs (Marks-indices (suc i) rs vs m) in
    rw (reject_from-suc i (drop n vs) r rs later) (failure h (reject_from-Marks (suc i) n rs vs m))
reject_from-Marks i zero (r ∷ rs) (v ∷ vs) (success h e m) =
    let later = Marks-indices (suc i) rs vs m in
    subst (λ k. Marks i k []) (sym (reject_from-here i v vs r rs e later))
      (failure refl (reject_from-Marks (suc i) 0 rs vs m))
reject_from-Marks i (suc n) (r ∷ rs) (v ∷ vs) (success h e m) =
    let later = All-drop (λ v. suc i ≤ v.index) n vs (Marks-indices (suc i) rs vs m) in
    rw (reject_from-suc i (drop n vs) r rs later)
      (success h e (reject_from-Marks (suc i) n rs vs m))

pub reject_all-Marks :
    (n : ℕ) (rs : List Result) (vs : List Valid)
    → Marks 0 rs vs
    → Marks 0 (reject_all (drop n vs) rs) (take n vs)
reject_all-Marks n rs vs m =
    subst (λ k. Marks 0 k (take n vs)) (reject_from-zero (drop n vs) rs)
      (reject_from-Marks 0 n rs vs m)

pub change_at-length :
    (i : ℕ) (f : Result → Result) (rs : List Result) → length (change_at i f rs) ≡ length rs
unfolding change_at
change_at-length i f [] = refl
change_at-length zero f (r ∷ rs) = refl
change_at-length (suc i) f (r ∷ rs) = omega (arith, change_at-length i f rs)

pub reject_all-length : (vs : List Valid) (rs : List Result) → length (reject_all vs rs) ≡ length rs
unfolding reject_all
reject_all-length [] rs = refl
reject_all-length (v ∷ vs) rs =
    omega (
      arith,
      reject_all-length vs (change_at v.index reject rs),
      change_at-length v.index reject rs,
    )

change_at-successes :
    (i : ℕ) (f : Result → Result) (rs : List Result)
    → ((r : Result) → (f r).success ≡ r.success)
    → successes (change_at i f rs) ≡ successes rs
unfolding change_at
change_at-successes i f [] h = refl
change_at-successes zero f (r ∷ rs) h = ground (arith, h r)
change_at-successes (suc i) f (r ∷ rs) h = ground (arith, change_at-successes i f rs h)

-- Writing the identifiers keeps the number of results and of successes.
pub set_ids-successes :
    (vs : List Valid) (ids : List (Option String)) (rs : List Result)
    → (successes (set_ids vs ids rs) ≡ successes rs) × (length (set_ids vs ids rs) ≡ length rs)
unfolding set_ids
set_ids-successes [] ids rs = (refl, refl)
set_ids-successes (v ∷ vs) [] rs =
    let f : Result → Result = λ r. record r { id = some v.fragment.id } in
    let h = set_ids-successes vs [] (change_at v.index f rs) in
    (h.0 ∙ change_at-successes v.index f rs (λ r. refl), h.1 ∙ change_at-length v.index f rs)
set_ids-successes (v ∷ vs) (id ∷ ids) rs =
    let f : Result → Result = λ r. record r { id = some (or_else (truthy id) v.fragment.id) } in
    let h = set_ids-successes vs ids (change_at v.index f rs) in
    (h.0 ∙ change_at-successes v.index f rs (λ r. refl), h.1 ∙ change_at-length v.index f rs)
