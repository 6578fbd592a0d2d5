-- ===== src/Memory/Batch.antt =====
-- lib/memory/BatchRememberProcessor.js: storing up to 200 fragments in one transaction. The content
-- check and the factory of lib/memory/FragmentFactory.js and the database's answers are parameters;
-- the progress events and the work queued after the commit are left out.
pub mod Data
pub mod Chunks
mod Marks
pub mod Sound
mod Checks
pub mod Laws
mod Tests
pub use Data.*
use memento_mcp.Base.{
  ℕ, zero, suc, ◌+◌, ◌-◌, String, Option, none, some, List, [], ◌∷◌, ◌++◌, Bool, true, false,
  if◌then◌else◌, ltb, leb, truthy, is_some, or_else, first_some, not, ◌&&◌, ◌||◌, ◌==◌, length,
  take, drop, map, Outcome, ok, err,
}

pub failed_result : String → Result
failed_result message = record { id = none; success = false; error = some message }

-- Phase A for one item: the fragment, or the error of its result.
pub make_fragment : Factory → Item → Outcome String Fragment
make_fragment factory item = elim item.content [
  | none ↦ err "content is required"
  | some content ↦ elim (truthy item.kind) [
    | none ↦ err "type is required"
    | some kind ↦ elim (factory.validate content item.kind item.topic) [
      | some reason ↦ err reason
      | none ↦ factory.create item
    ]
  ]
]

pub record PhaseA : Type 0 where
  pub results : List Result
  pub valid : List Valid

pub own : Params → Item → Fragment → Fragment
own params item f = record f {
  agent_id = or_else (truthy params.agent_id) "default";
  key_id = params.key_id;
  workspace = first_some item.workspace (first_some params.workspace params.default_workspace);
}

pub add_made : Params → Item → ℕ → Outcome String Fragment → PhaseA → PhaseA
unfolding failed_result own
add_made params item i (err message) rest = record rest {
  results = failed_result message ∷ rest.results;
}
add_made params item i (ok f) rest = record {
  results = record { id = some f.id; success = true; error = none } ∷ rest.results;
  valid = record { index = i; fragment = own params item f } ∷ rest.valid;
}

-- Phase A, from the item at index i.
pub phase_a : Factory → Params → ℕ → List Item → PhaseA
phase_a factory params i [] = record { results = []; valid = [] }
phase_a factory params i (item ∷ items) =
    add_made params item i (make_fragment factory item) (phase_a factory params (suc i) items)

-- `results[index] = f(results[index])`.
pub change_at : ℕ → (Result → Result) → List Result → List Result
change_at i f [] = []
change_at zero f (r ∷ rs) = f r ∷ rs
change_at (suc i) f (r ∷ rs) = r ∷ change_at i f rs

pub reject : Result → Result
reject r = record { id = none; success = false; error = some "fragment_limit_exceeded" }

pub reject_all : List Valid → List Result → List Result
unfolding reject
reject_all [] results = results
reject_all (v ∷ vs) results = reject_all vs (change_at v.index reject results)

-- After a check of the quota: all are refused, or those within the quota go on.
pub data Checked : Type 0 where
  refused : Output → Checked
  passed : PhaseA → Checked

-- The limit against the count, in either check; the total is that of the batch.
pub check_limit : ℕ → ℕ → ℕ → PhaseA → Checked
check_limit total limit count a =
    if leb limit count
    then refused (record {
      results = reject_all a.valid a.results;
      inserted = 0;
      skipped = total;
      refusal = some (record {
        fragment_limit = limit;
        current_count = count;
        rejected_by_quota = length a.valid;
      });
    })
    else if ltb (limit - count) (length a.valid)
    then passed (record {
      results = reject_all (drop (limit - count) a.valid) a.results;
      valid = take (limit - count) a.valid;
    })
    else passed a

-- The key's row: without one, or without a limit, nothing is counted.
pub check_row :
    ℕ → Outcome String (Option (Option ℕ)) → Outcome String ℕ → PhaseA → Outcome String Checked
check_row total (err message) count a = err message
check_row total (ok none) count a = ok (passed a)
check_row total (ok (some none)) count a = ok (passed a)
check_row total (ok (some (some limit))) (err message) a = err message
check_row total (ok (some (some limit))) (ok count) a = ok (check_limit total limit count a)

-- The chunks of Phase B: the loop's state is the chunk being filled and its bytes.
pub would_exceed : List Valid → ℕ → ℕ → Bool
would_exceed current bytes item_bytes =
    (not (length current == 0) && ltb max_bytes_chunk (bytes + item_bytes))
    || leb max_rows_chunk (length current)

pub chunks_from : List Valid → ℕ → List Valid → List (List Valid)
chunks_from current bytes [] = if length current == 0 then [] else current ∷ []
chunks_from current bytes (v ∷ vs) =
    let n = v.fragment.content_bytes in
    let split = chunks_from (v ∷ []) n vs in
    let joined = chunks_from (current ++ v ∷ []) (bytes + n) vs in
    if would_exceed current bytes n then current ∷ split else joined

pub chunks_of : List Valid → List (List Valid)
chunks_of vs = chunks_from [] 0 vs

-- The identifiers the insert returned go into the results, in the chunk's order.
pub set_ids : List Valid → List (Option String) → List Result → List Result
set_ids [] ids results = results
set_ids (v ∷ vs) [] results =
    set_ids vs [] (change_at v.index (λ r. record r { id = some v.fragment.id }) results)
set_ids (v ∷ vs) (id ∷ ids) results =
    set_ids vs ids
      (change_at v.index (λ r. record r { id = some (or_else (truthy id) v.fragment.id) }) results)

pub record Inserted : Type 0 where
  pub results : List Result
  pub count : ℕ

-- A call that reports what it did to the database.
pub record Run (A : Type 0) : Type 0 where
  pub statements : List Statement
  pub outcome : Outcome Error A

-- After the insert of a chunk: the loop goes on with its results, or its error leaves it.
pub after_insert :
    List Valid
    → Outcome String (List (Option String))
    → Inserted
    → (Inserted → Run Inserted)
    → Run Inserted
unfolding set_ids
after_insert chunk (err message) s next = record {
  statements = insert_rows chunk ∷ [];
  outcome = err (database message);
}
after_insert chunk (ok ids) s next =
    let rest =
      next (record { results = set_ids chunk ids s.results; count = s.count + length chunk }) in
    record rest { statements = insert_rows chunk ∷ rest.statements }

pub insert_chunks : Database → ℕ → List (List Valid) → Inserted → Run Inserted
insert_chunks db i [] s = record { statements = []; outcome = ok s }
insert_chunks db i (chunk ∷ chunks) s =
    after_insert chunk (db.insert i chunk) s (λ s'. insert_chunks db (suc i) chunks s')

-- The end of the transaction: `COMMIT`, or `ROLLBACK` when a statement threw; the connection is
-- released either way.
pub finish : Outcome String (Unit {0}) → ℕ → Run Inserted → Run Output
finish commits total r = elim r.outcome [
  | err e ↦ record { statements = r.statements ++ rollback ∷ release ∷ []; outcome = err e }
  | ok s ↦ elim commits [
    | err message ↦ record {
      statements = r.statements ++ failed_commit ∷ rollback ∷ release ∷ [];
      outcome = err (database message);
    }
    | ok u ↦ record {
      statements = r.statements ++ commit ∷ release ∷ [];
      outcome = ok (record {
        results = s.results;
        inserted = s.count;
        skipped = total - s.count;
        refusal = none;
      });
    }
  ]
]

-- The transaction after its second check of the quota.
pub after_check_b : Database → ℕ → Outcome String Checked → Run Output
unfolding insert_chunks finish
after_check_b db total (err message) = record {
  statements = rollback ∷ release ∷ [];
  outcome = err (database message);
}
after_check_b db total (ok (refused output)) = record {
  statements = rollback ∷ release ∷ [];
  outcome = ok output;
}
after_check_b db total (ok (passed a)) =
    finish db.commits total
      (insert_chunks db 0 (chunks_of a.valid) (record { results = a.results; count = 0 }))

-- `if (keyId)`.
pub check_b : Database → Option String → ℕ → PhaseA → Outcome String Checked
unfolding check_row
check_b db key_id total a = elim db.set_up [
  | err message ↦ err message
  | ok u ↦
      if is_some (truthy key_id) then check_row total db.limit_row_b db.count_b a else ok (passed a)
]

-- Phase B.
pub phase_b : Database → Option String → ℕ → PhaseA → Run Output
unfolding after_check_b check_b
phase_b db key_id total a =
    if db.connected
    then (let r = after_check_b db total (check_b db key_id total a) in
        record r { statements = begin ∷ r.statements })
    else record { statements = []; outcome = err pool_unavailable }

-- `_checkQuotaPhaseA`, in a transaction of its own, and what follows it.
pub after_check_a : Database → Option String → ℕ → Outcome String Checked → Run Output
unfolding phase_b
after_check_a db key_id total (err message) = record {
  statements = begin ∷ rollback ∷ release ∷ [];
  outcome = err (database message);
}
after_check_a db key_id total (ok (refused output)) = record {
  statements = begin ∷ commit ∷ release ∷ [];
  outcome = ok output;
}
after_check_a db key_id total (ok (passed a)) =
    let r = phase_b db key_id total a in
    record r { statements = begin ∷ commit ∷ release ∷ r.statements }

-- Without a pool the first check is passed over.
pub check_a : Database → Option String → ℕ → PhaseA → Run Output
unfolding after_check_a
check_a db key_id total a =
    if is_some (truthy key_id) && db.connected
    then after_check_a db key_id total (check_row total db.limit_row_a db.count_a a)
    else phase_b db key_id total a

pub after_phase_a : Database → Option String → ℕ → PhaseA → Run Output
unfolding check_a
after_phase_a db key_id total a = elim a.valid [
  | [] ↦ record {
    statements = [];
    outcome = ok (record { results = a.results; inserted = 0; skipped = total; refusal = none });
  }
  | v ∷ vs ↦ check_a db key_id total a
]

-- `process(params)`.
pub process : Factory → Database → Params → Run Output
unfolding after_phase_a phase_a
process factory db params =
    let total = length params.fragments in
    if total == 0
    then record { statements = []; outcome = err empty_batch }
    else if ltb max_batch total
    then record { statements = []; outcome = err batch_too_large }
    else after_phase_a db params.key_id total (phase_a factory params 0 params.fragments)
