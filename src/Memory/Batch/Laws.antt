-- ===== src/Memory/Batch/Laws.antt =====
-- The counts a batch reports, its quota, whose fragments it stores, and how its transactions end.
use memento_mcp.Base.{
  ℕ, suc, ◌-◌, ◌≡◌, refl, inl, inr, String, some, List, [], ◌∷◌, ltb, ◌==◌, length, All, arith,
  Bool-cases, Outcome, ok, err, truthy, or_else,
}
use memento_mcp.Memory.Batch.{
  Item, Fragment, Result, Valid, Params, Factory, Database, make_fragment, PhaseA, own, add_made,
  phase_a, after_phase_a, process, max_batch,
}
use memento_mcp.Memory.Batch.Marks.{Marks-successes, phase_a-Marks}
use memento_mcp.Memory.Batch.Sound.{Sound, acknowledged, Ready, RunSound, NextSound}
use memento_mcp.Memory.Batch.Checks.{check_b-limited, check_a-RunSound}

-- The row is the caller's.
abbrev pub Owned : Params → Valid → Type 0
Owned params v =
    (v.fragment.key_id ≡ params.key_id)
    × (v.fragment.agent_id ≡ or_else (truthy params.agent_id) "default")

add_made-Owned :
    (params : Params) (item : Item) (i : ℕ) (o : Outcome String Fragment) (a : PhaseA)
    → All (Owned params) a.valid
    → All (Owned params) (add_made params item i o a).valid
unfolding add_made own
add_made-Owned params item i (err m) a h = h
add_made-Owned params item i (ok f) a h = ((refl, refl), h)

add_made-length :
    (params : Params) (item : Item) (i : ℕ) (o : Outcome String Fragment) (a : PhaseA)
    → length (add_made params item i o a).results ≡ suc (length a.results)
unfolding add_made
add_made-length params item i (err m) a = refl
add_made-length params item i (ok f) a = refl

phase_a-Owned :
    (factory : Factory) (params : Params) (i : ℕ) (items : List Item)
    → All (Owned params) (phase_a factory params i items).valid
      × (length (phase_a factory params i items).results ≡ length items)
unfolding phase_a
phase_a-Owned factory params i [] = (tt, refl)
phase_a-Owned factory params i (item ∷ items) =
    let a = phase_a factory params (suc i) items in
    let o = make_fragment factory item in
    let h = phase_a-Owned factory params (suc i) items in
    (add_made-Owned params item i o a h.0, omega (arith, add_made-length params item i o a, h.1))

after_phase_a-Sound :
    (params : Params) (m : ℕ) (db : Database) (total : ℕ) (rs : List Result) (vs : List Valid)
    → NextSound total (Owned params) m db params.key_id
    → Ready total (Owned params) m (record { results = rs; valid = vs })
    → RunSound total
        (Owned params)
        m
        (after_phase_a db params.key_id total (record { results = rs; valid = vs }))
unfolding after_phase_a
after_phase_a-Sound params m db total rs [] next h =
    (h.1, omega arith, Marks-successes 0 rs [] h.0, refl, omega arith, tt)
after_phase_a-Sound params m db total rs (v ∷ vs) next h =
    check_a-RunSound total (Owned params) m db params.key_id
      (record { results = rs; valid = v ∷ vs }) next h

process-RunSound :
    (factory : Factory) (db : Database) (params : Params) (m : ℕ)
    → NextSound (length params.fragments) (Owned params) m db params.key_id
    → RunSound (length params.fragments) (Owned params) m (process factory db params)
unfolding process
process-RunSound factory db params m next =
    let total = length params.fragments in
    let a = phase_a factory params 0 params.fragments in
    let o = phase_a-Owned factory params 0 params.fragments in
    elim (Bool-cases (total == 0)) [
      | inl e ↦ rw e refl
      | inr e ↦ elim (Bool-cases (ltb max_batch total)) [
        | inl f ↦ rw (e, f) refl
        | inr f ↦
            rw (e, f)
              (after_phase_a-Sound params m db total a.results a.valid next
                (phase_a-Marks factory params 0 params.fragments, o.1, o.0))
      ]
    ]

-- When the key has a limit and the count of its fragments is read in the transaction, a batch that
-- succeeds inserts, and submits in a transaction whose COMMIT was answered, no more rows than the
-- limit leaves room for, whatever the first check of the quota saw.
pub process-quota :
    (factory : Factory) (db : Database) (params : Params) (k : String) (limit count : ℕ)
    → truthy params.key_id ≡ some k
    → db.limit_row_b ≡ ok (some (some limit))
    → db.count_b ≡ ok count
    → let r = process factory db params in
      Sound
        (length params.fragments)
        (Owned params)
        (limit - count)
        (acknowledged r.statements)
        r.outcome
process-quota factory db params k limit count t r c =
    let total = length params.fragments in
    let next =
      check_b-limited total (Owned params) (limit - count) db params.key_id k limit count t r c
        (omega arith) in
    process-RunSound factory db params (limit - count) next
