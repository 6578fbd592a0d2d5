-- ===== src/Memory/Batch/Checks.antt =====
-- The two checks of the quota: what they refuse is counted right, and what they pass on is ready.
use memento_mcp.Base.{
  ℕ, ◌-◌, ◌≡◌, refl, ◌⊎◌, inl, inr, ◌≤◌, String, Option, none, some, [], leb, ltb, ◌&&◌, length,
  take, drop, length-take-le, count_if-le, arith, Bool-cases, Outcome, Outcome-cases, ok, err, ◌∙◌,
  is_some, truthy,
}
use memento_mcp.Memory.Batch.{
  Valid, Refusal, Database, PhaseA, reject_all, check_limit, check_row, check_b, check_a,
}
use memento_mcp.Memory.Batch.Marks.{Marks-successes, reject_all-Marks, reject_all-length}
use memento_mcp.Memory.Batch.Sound.{
  Sound, Ready, CheckReady, CheckSound, NextSound, RunSound, All-take, phase_b-RunSound,
  after_check_a-RunSound,
}

module _ (total : ℕ) (P : Valid → Type 0) (m : ℕ) where
  refused-Sound :
      (a : PhaseA) (refusal : Option Refusal)
      → Ready total P m a
      → Sound total P m [] (
          ok (record {
            results = reject_all a.valid a.results;
            inserted = 0;
            skipped = total;
            refusal = refusal;
          }))
  refused-Sound a refusal h =
      let marks =
        Marks-successes 0 (reject_all a.valid a.results) []
          (reject_all-Marks 0 a.results a.valid h.0) in
      (reject_all-length a.valid a.results ∙ h.1, omega arith, marks, refl, omega arith, tt)

  -- The first n rows go on.
  abbrev pub cut_at : ℕ → PhaseA → PhaseA
  cut_at n a = record { results = reject_all (drop n a.valid) a.results; valid = take n a.valid }

  cut-Ready : (n : ℕ) (a : PhaseA) → Ready total P m a → Ready total P m (cut_at n a)
  cut-Ready n a h = (
    reject_all-Marks n a.results a.valid h.0,
    reject_all-length (drop n a.valid) a.results ∙ h.1,
    All-take total P m n a.valid h.2,
  )

  pub check_limit-CheckReady :
      (limit count : ℕ) (a : PhaseA)
      → Ready total P m a
      → CheckReady total P m (ok (check_limit total limit count a))
  unfolding check_limit
  check_limit-CheckReady limit count a h =
      let refusal : Refusal = record {
        fragment_limit = limit;
        current_count = count;
        rejected_by_quota = length a.valid;
      } in
      elim (Bool-cases (leb limit count)) [
        | inl e ↦ rw e (refused-Sound a (some refusal) h)
        | inr e ↦ elim (Bool-cases (ltb (limit - count) (length a.valid))) [
          | inl f ↦ rw (e, f) (cut-Ready (limit - count) a h)
          | inr f ↦ rw (e, f) h
        ]
      ]

  pub check_limit-CheckSound :
      (limit count : ℕ) (a : PhaseA)
      → Ready total P m a
      → (length a.valid ≤ m) ⊎ (limit - count ≤ m)
      → CheckSound total P m (ok (check_limit total limit count a))
  unfolding check_limit
  check_limit-CheckSound limit count a h b =
      let refusal : Refusal = record {
        fragment_limit = limit;
        current_count = count;
        rejected_by_quota = length a.valid;
      } in
      let cut = length-take-le (limit - count) a.valid in
      elim (Bool-cases (leb limit count)) [
        | inl e ↦ rw e (refused-Sound a (some refusal) h)
        | inr e ↦ elim (Bool-cases (ltb (limit - count) (length a.valid))) [
          | inl f ↦
              let few : Ready total P m (cut_at (limit - count) a)
                  × (length (take (limit - count) a.valid) ≤ m) =
                (cut-Ready (limit - count) a h, ground (arith, cut, b)) in
              rw (e, f) few
          | inr f ↦
              let few : Ready total P m a × (length a.valid ≤ m) = (h, ground (arith, b)) in
              rw (e, f) few
        ]
      ]

  check_row-CheckReady :
      (row : Outcome String (Option (Option ℕ))) (count : Outcome String ℕ) (a : PhaseA)
      → Ready total P m a
      → CheckReady total P m (check_row total row count a)
  unfolding check_row
  check_row-CheckReady (err message) count a h = tt
  check_row-CheckReady (ok none) count a h = h
  check_row-CheckReady (ok (some none)) count a h = h
  check_row-CheckReady (ok (some (some limit))) (err message) a h = tt
  check_row-CheckReady (ok (some (some limit))) (ok count) a h =
      check_limit-CheckReady limit count a h

  check_row-CheckSound :
      (row : Outcome String (Option (Option ℕ))) (count : Outcome String ℕ) (a : PhaseA)
      → Ready total P m a
      → length a.valid ≤ m
      → CheckSound total P m (check_row total row count a)
  unfolding check_row
  check_row-CheckSound (err message) count a h b = tt
  check_row-CheckSound (ok none) count a h b = (h, b)
  check_row-CheckSound (ok (some none)) count a h b = (h, b)
  check_row-CheckSound (ok (some (some limit))) (err message) a h b = tt
  check_row-CheckSound (ok (some (some limit))) (ok count) a h b =
      check_limit-CheckSound limit count a h (inl b)

  -- The second check is sound when the bound is the size of the batch.
  pub check_b-all :
      (db : Database) (key_id : Option String) → total ≤ m → NextSound total P m db key_id
  unfolding check_b
  check_b-all db key_id b a h =
      let marks = Marks-successes 0 a.results a.valid h.0 in
      let few : length a.valid ≤ m =
        omega (arith, marks, count_if-le (λ r. r.success) a.results, h.1, b) in
      let free : Ready total P m a × (length a.valid ≤ m) = (h, few) in
      elim (Outcome-cases db.set_up) [
        | inr e ↦ rw e.1 tt
        | inl e ↦ elim (Bool-cases (is_some (truthy key_id))) [
          | inl f ↦ rw (e.1, f) (check_row-CheckSound db.limit_row_b db.count_b a h few)
          | inr f ↦ rw (e.1, f) free
        ]
      ]

  -- The second check is sound when the bound is what the key may still store.
  pub check_b-limited :
      (db : Database) (key_id : Option String) (k : String) (limit count : ℕ)
      → truthy key_id ≡ some k
      → db.limit_row_b ≡ ok (some (some limit))
      → db.count_b ≡ ok count
      → limit - count ≤ m
      → NextSound total P m db key_id
  unfolding check_b check_row
  check_b-limited db key_id k limit count t r c b a h = elim (Outcome-cases db.set_up) [
    | inr e ↦ rw e.1 tt
    | inl e ↦ rw (e.1, t, r, c) (check_limit-CheckSound limit count a h (inr b))
  ]

  pub check_a-RunSound :
      (db : Database) (key_id : Option String) (a : PhaseA)
      → NextSound total P m db key_id
      → Ready total P m a
      → RunSound total P m (check_a db key_id total a)
  unfolding check_a
  check_a-RunSound db key_id a next h =
      elim (Bool-cases (is_some (truthy key_id) && db.connected)) [
        | inl e ↦ rw e (
            after_check_a-RunSound total P m db key_id (check_row total db.limit_row_a db.count_a a)
              next (check_row-CheckReady db.limit_row_a db.count_a a h))
        | inr e ↦ rw e (phase_b-RunSound total P m db key_id a (next a h))
      ]
