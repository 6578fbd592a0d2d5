-- ===== src/Memory/Batch/Sound.antt =====
-- What a run of the batch may come to, carried through the transactions and the checks of the quota.
use memento_mcp.Base.{
  ℕ, zero, suc, ◌+◌, ◌≡◌, refl, inl, inr, ◌≤◌, String, Option, List, [], ◌∷◌, ◌++◌, length,
  length-append, take, count_if-le, All, arith, Bool-cases, Outcome, ok, err, ap, sym, subst, ◌∙◌,
}
use memento_mcp.Memory.Batch.{
  Valid, Output, Error, Statement, begin, commit, failed_commit, rollback, release, insert_rows,
  Database, PhaseA, Checked, refused, passed, chunks_of, set_ids, Inserted, Run, insert_chunks,
  after_insert, finish, after_check_b, check_b, phase_b, after_check_a,
}
use memento_mcp.Memory.Batch.Chunks.{concat, chunks_of-IsChunk}
use memento_mcp.Memory.Batch.Marks.{Marks, successes, Marks-successes, set_ids-successes}
use mathlib.Core.List.{append_assoc, append-nil}

-- The rows submitted in transactions whose COMMIT was answered. What such an insert leaves in the
-- database is the row, or, on a conflict, the row there with its importance, anchor and time updated.
-- A COMMIT that throws is not counted, though the database may have committed before.
abbrev pub acknowledged_from : List Valid → List Statement → List Valid
acknowledged_from pending [] = []
acknowledged_from pending (begin ∷ ss) = acknowledged_from [] ss
acknowledged_from pending (insert_rows vs ∷ ss) = acknowledged_from (pending ++ vs) ss
acknowledged_from pending (commit ∷ ss) = pending ++ acknowledged_from [] ss
acknowledged_from pending (failed_commit ∷ ss) = acknowledged_from [] ss
acknowledged_from pending (rollback ∷ ss) = acknowledged_from [] ss
acknowledged_from pending (release ∷ ss) = acknowledged_from [] ss

abbrev pub acknowledged : List Statement → List Valid
acknowledged ss = acknowledged_from [] ss

-- What a batch of `total` fragments may come to: an error has no rows; a result has an entry for
-- each fragment, counts the rows, which all satisfy P and are m at most, as the successes and
-- the others as skipped.
abbrev pub Sound : ℕ → (Valid → Type 0) → ℕ → List Valid → Outcome Error Output → Type 0
Sound total P m rows (err e) = rows ≡ []
Sound total P m rows (ok out) =
    (length out.results ≡ total)
    × (out.inserted + out.skipped ≡ total)
    × (successes out.results ≡ out.inserted)
    × (length rows ≡ out.inserted)
    × (out.inserted ≤ m)
    × All P rows

module _ (total : ℕ) (P : Valid → Type 0) (m : ℕ) where
  -- The state between the phases.
  abbrev pub Ready : PhaseA → Type 0
  Ready a = Marks 0 a.results a.valid × (length a.results ≡ total) × All P a.valid

  -- After a check: a refusal is sound, and what passes is ready and small enough.
  abbrev pub CheckSound : Outcome String Checked → Type 0
  CheckSound (err message) = Unit
  CheckSound (ok (refused out)) = Sound total P m [] (ok out)
  CheckSound (ok (passed a)) = Ready a × (length a.valid ≤ m)

  abbrev pub RunSound : Run Output → Type 0
  RunSound r = Sound total P m (acknowledged r.statements) r.outcome

  All-append : (xs ys : List Valid) → All P xs → All P ys → All P (xs ++ ys)
  All-append [] ys h k = k
  All-append (x ∷ xs) ys h k = (h.0, All-append xs ys h.1 k)

  pub All-take : (n : ℕ) (vs : List Valid) → All P vs → All P (take n vs)
  All-take zero vs h = tt
  All-take (suc n) [] h = tt
  All-take (suc n) (v ∷ vs) h = (h.0, All-take n vs h.1)

  -- What the inserts add up to.
  abbrev Adds : List (List Valid) → Inserted → List Statement → Outcome Error Inserted → Type 0
  Adds cs s ss (err e) =
      (pending : List Valid) → acknowledged_from pending (ss ++ rollback ∷ release ∷ []) ≡ []
  Adds cs s ss (ok s') =
      (s'.count ≡ s.count + length (concat cs))
      × (successes s'.results ≡ successes s.results)
      × (length s'.results ≡ length s.results)
      × ((pending : List Valid) (rest : List Statement)
          → acknowledged_from pending (ss ++ rest) ≡ acknowledged_from (pending ++ concat cs) rest)

  Adds-cons :
      (c : List Valid) (cs : List (List Valid)) (s s₀ : Inserted) (ss : List Statement)
      (o : Outcome Error Inserted)
      → s₀.count ≡ s.count + length c
      → successes s₀.results ≡ successes s.results
      → length s₀.results ≡ length s.results
      → Adds cs s₀ ss o
      → Adds (c ∷ cs) s (insert_rows c ∷ ss) o
  Adds-cons c cs s s₀ ss (err e) n g l h = λ pending. h (pending ++ c)
  Adds-cons c cs s s₀ ss (ok s') n g l h = (
    omega (arith, h.0, n, length-append c (concat cs)),
    h.1 ∙ g,
    h.2 ∙ l,
    λ pending rest.
        h.3 (pending ++ c) rest
        ∙ ap (λ p. acknowledged_from p rest) (append_assoc pending c (concat cs)),
  )

  after_insert-Adds :
      (c : List Valid) (cs : List (List Valid)) (o : Outcome String (List (Option String)))
      (s : Inserted) (next : Inserted → Run Inserted)
      → ((s₀ : Inserted) → Adds cs s₀ (next s₀).statements (next s₀).outcome)
      → Adds (c ∷ cs) s (after_insert c o s next).statements (after_insert c o s next).outcome
  unfolding after_insert
  after_insert-Adds c cs (err message) s next h = λ pending. refl
  after_insert-Adds c cs (ok ids) s next h =
      let s₀ : Inserted = record {
        results = set_ids c ids s.results;
        count = s.count + length c;
      } in
      let k = set_ids-successes c ids s.results in
      Adds-cons c cs s s₀ (next s₀).statements (next s₀).outcome refl k.0 k.1 (h s₀)

  insert_chunks-Adds :
      (db : Database) (i : ℕ) (cs : List (List Valid)) (s : Inserted)
      → Adds cs s (insert_chunks db i cs s).statements (insert_chunks db i cs s).outcome
  unfolding insert_chunks
  insert_chunks-Adds db i [] s = (
    omega arith,
    refl,
    refl,
    λ pending rest. ap (λ p. acknowledged_from p rest) (sym (append-nil pending)),
  )
  insert_chunks-Adds db i (c ∷ cs) s =
      after_insert-Adds c cs (db.insert i c) s (λ s'. insert_chunks db (suc i) cs s')
        (λ s₀. insert_chunks-Adds db (suc i) cs s₀)

  committed :
      (a : PhaseA) (ss : List Statement)
      → ((pending : List Valid) (rest : List Statement)
          → acknowledged_from pending (ss ++ rest)
            ≡ acknowledged_from (pending ++ concat (chunks_of a.valid)) rest)
      → acknowledged (ss ++ commit ∷ release ∷ []) ≡ a.valid
  committed a ss h =
      h [] (commit ∷ release ∷ [])
      ∙ append-nil (concat (chunks_of a.valid))
      ∙ (chunks_of-IsChunk a.valid).0

  finish-Sound :
      (commits : Outcome String (Unit {0})) (a : PhaseA) (ss : List Statement)
      (o : Outcome Error Inserted)
      → Ready a
      → length a.valid ≤ m
      → Adds (chunks_of a.valid) (record { results = a.results; count = 0 }) ss o
      → RunSound (finish commits total (record { statements = ss; outcome = o }))
  unfolding finish
  finish-Sound commits a ss (err e) h n k = k []
  finish-Sound (err message) a ss (ok s) h n k = k.3 [] (failed_commit ∷ rollback ∷ release ∷ [])
  finish-Sound (ok u) a ss (ok s) h n k =
      let all = committed a ss k.3 in
      let rows = ap length ((chunks_of-IsChunk a.valid).0) in
      let marks = Marks-successes 0 a.results a.valid h.0 in
      let most = count_if-le (λ r. r.success) a.results in
      (
        k.2 ∙ h.1,
        omega (arith, k.0, rows, marks, most, h.1),
        omega (arith, k.0, rows, marks, k.1),
        omega (arith, k.0, rows, ap length all),
        omega (arith, k.0, rows, n),
        subst (All P) (sym all) h.2,
      )

  after_check_b-RunSound :
      (db : Database) (c : Outcome String Checked)
      → CheckSound c
      → RunSound (after_check_b db total c)
  unfolding after_check_b
  after_check_b-RunSound db (err message) h = refl
  after_check_b-RunSound db (ok (refused out)) h = h
  after_check_b-RunSound db (ok (passed a)) h =
      let s : Inserted = record { results = a.results; count = 0 } in
      let r = insert_chunks db 0 (chunks_of a.valid) s in
      finish-Sound db.commits a r.statements r.outcome h.0 h.1
        (insert_chunks-Adds db 0 (chunks_of a.valid) s)

  -- The transaction, when its check is sound.
  pub phase_b-RunSound :
      (db : Database) (key_id : Option String) (a : PhaseA)
      → CheckSound (check_b db key_id total a)
      → RunSound (phase_b db key_id total a)
  unfolding phase_b
  phase_b-RunSound db key_id a h = elim (Bool-cases db.connected) [
    | inl e ↦ rw e (after_check_b-RunSound db (check_b db key_id total a) h)
    | inr e ↦ rw e refl
  ]

  -- After the first check: as sound, with no bound on what passes.
  abbrev pub CheckReady : Outcome String Checked → Type 0
  CheckReady (err message) = Unit
  CheckReady (ok (refused out)) = Sound total P m [] (ok out)
  CheckReady (ok (passed a)) = Ready a

  -- The second check is sound whatever is ready.
  abbrev pub NextSound : Database → Option String → Type 0
  NextSound db key_id = (a : PhaseA) → Ready a → CheckSound (check_b db key_id total a)

  pub after_check_a-RunSound :
      (db : Database) (key_id : Option String) (c : Outcome String Checked)
      → NextSound db key_id
      → CheckReady c
      → RunSound (after_check_a db key_id total c)
  unfolding after_check_a
  after_check_a-RunSound db key_id (err message) next h = refl
  after_check_a-RunSound db key_id (ok (refused out)) next h = h
  after_check_a-RunSound db key_id (ok (passed a)) next h = phase_b-RunSound db key_id a (next a h)
