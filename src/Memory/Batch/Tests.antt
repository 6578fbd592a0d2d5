-- ===== src/Memory/Batch/Tests.antt =====
-- A batch of four fragments, one without content, by a key that may store two more.
use memento_mcp.Base.{
  ℕ, ◌≡◌, refl, String, Option, none, some, [], ◌∷◌, true, false, All, Outcome, ok, or_else,
}
use memento_mcp.Memory.Batch.{
  Item, Result, Params, Factory, Database, process, after_phase_a, check_a, after_check_a, phase_b,
  check_b, after_check_b, finish, insert_chunks, after_insert, set_ids, change_at, chunks_of,
  chunks_from, would_exceed, check_row, check_limit, reject_all, reject, phase_a, add_made, own,
  make_fragment, failed_result,
}
use memento_mcp.Memory.Batch.Chunks.{concat, IsChunk, chunks_of-IsChunk}
use memento_mcp.Memory.Batch.Sound.{Sound, acknowledged}
use memento_mcp.Memory.Batch.Laws.{Owned, process-quota}

abbrev item_with : Option String → Item
item_with content = record { content = content; kind = some "fact"; topic = none; workspace = none }

abbrev factory : Factory
factory = record {
  validate = λ content kind topic. none;
  create = λ item. ok (record {
    id = or_else item.content "";
    content_bytes = 200000;
    agent_id = "";
    key_id = none;
    workspace = none;
  });
}

abbrev database_with : ℕ → Outcome String (Unit {0}) → Database
database_with count commits = record {
  connected = true;
  limit_row_a = ok (some (some 5));
  count_a = ok 0;
  set_up = ok tt;
  limit_row_b = ok (some (some 5));
  count_b = ok count;
  commits = commits;
  insert = λ i chunk. ok [];
}

abbrev params : Params
params = record {
  fragments =
      item_with (some "a") ∷ item_with none ∷ item_with (some "b") ∷ item_with (some "c") ∷ [];
  agent_id = none;
  key_id = some "k";
  workspace = none;
  default_workspace = none;
}

abbrev result_of : Option String → Option String → Result
result_of (some id) error = record { id = some id; success = true; error = error }
result_of none error = record { id = none; success = false; error = error }

process-params :
    (process factory (database_with 3 (ok tt)) params).outcome
    ≡ ok (record {
      results =
          result_of (some "a") none
          ∷ result_of none (some "content is required")
          ∷ result_of (some "b") none
          ∷ result_of none (some "fragment_limit_exceeded")
          ∷ [];
      inserted = 2;
      skipped = 2;
      refusal = none;
    })
unfolding process after_phase_a check_a after_check_a phase_b check_b after_check_b finish
    insert_chunks after_insert set_ids change_at chunks_of chunks_from would_exceed check_row
    check_limit reject_all reject phase_a add_made own make_fragment failed_result
process-params = refl

chunks_of-IsChunk_example :
    (concat (chunks_of (phase_a factory params 0 params.fragments).valid)
      ≡ (phase_a factory params 0 params.fragments).valid)
    × All IsChunk (chunks_of (phase_a factory params 0 params.fragments).valid)
chunks_of-IsChunk_example = chunks_of-IsChunk (phase_a factory params 0 params.fragments).valid

process-quota_example :
    Sound 4
      (Owned params)
      2
      (acknowledged (process factory (database_with 3 (ok tt)) params).statements)
      (process factory (database_with 3 (ok tt)) params).outcome
process-quota_example =
    process-quota factory (database_with 3 (ok tt)) params "k" 5 3 refl refl refl
