-- ===== src/Sessions/Spec/Tests.antt =====
-- Sessions at concrete times, with a Redis that keeps a value until its deadline.
use memento_mcp.Base.{
  false, ℕ, ◌+◌, ◌*◌, ◌≤◌, ◌≡◌, ◌≢◌, refl, sym, ap, ◌∙◌, or_else, String, Option, none, some, [],
  ◌∷◌, true, ltb, if◌then◌else◌, Dict, List, lt→ltb, eq_iff, eq_refl, arith, get-put, get-delete,
}
use memento_mcp.Base.Maps
use memento_mcp.Sessions.{
  Rotated, Session, Context, Config, Redis, Store, valid, saved, save_session, get_session,
  delete_session, session_of, context_of, touch, existing, rotate_session, rotate_found, replace,
  expiry_of, end_old, close, restore, validate_found, validate_streamable_session,
  create_streamable_session_with_id,
}
use memento_mcp.Sessions.Ends.{shut_down}
use memento_mcp.Sessions.Spec.{
  RedisLaws, view, run, spec_run, spec_put, spec_remove, create_session, call_session,
  delete_session_request, sweep_sessions, Request, Answer, done, serves, status, InOrder, time_of,
  spec_step, spec_status, spec_delete_named, spec_delete_found, spec_found, spec_answer, served,
  forget,
}
use memento_mcp.Limits.Rotate.{check_rotate_rate_limit, current}
use memento_mcp.Sessions.RotateHandler.{
  RotateRequest, rotated, is_rotate_origin_allowed, reply, rotate_named, rotate_limited,
  handle_session_rotate,
}
use memento_mcp.Sessions.Spec.Runs.{run-spec_run}
use memento_mcp.Sessions.Spec.Restart.{RedisKeeps, restarted, restart-validate}

-- A value with the time it ends.
abbrev Kept : Type 0
Kept = Dict (Session × ℕ)

abbrev alive : ℕ → Option (Session × ℕ) → Option Session
alive now none = none
alive now (some (s, deadline)) = if ltb now deadline then some s else none

abbrev memory_redis : Redis Kept
memory_redis = record {
  setex = λ now id ttl s r. some (Maps.put id (s, now + ttl * 1000) r);
  lookup = λ now id r. some (alive now (Maps.get id r));
  del = λ now id r. some (Maps.delete id r);
}

get_kept : (t : ℕ) (j : String) (r : Kept) → get_session memory_redis t j r ≡ alive t (Maps.get j r)
unfolding get_session
get_kept t j r = refl

still_away :
    (now t : ℕ) (o : Option (Session × ℕ)) → now ≤ t → alive now o ≡ none → alive t o ≡ none
still_away now t none le h = refl
still_away now t (some (s, deadline)) le h = ground (arith, h)

get-put_other :
    (k j : String) (v : Session × ℕ) (r : Kept) → k ≢ j → Maps.get j (Maps.put k v r) ≡ Maps.get j r
get-put_other k j v r n = ground (arith, get-put k j v r, eq_iff k j)

get-delete_other : (k j : String) (r : Kept) → k ≢ j → Maps.get j (Maps.delete k r) ≡ Maps.get j r
get-delete_other k j r n = ground (arith, get-delete k j r, eq_iff k j)

memory_redis-Laws : RedisLaws memory_redis
unfolding get_session delete_session saved
memory_redis-Laws = record {
  setex_other = λ now id ttl s r r' t j e n.
      ap (λ o. alive t (Maps.get j (or_else o []))) (sym e)
      ∙ ap (alive t) (get-put_other id j (s, now + ttl * 1000) r n);
  del_other = λ now id r r' t j e n.
      ap (λ o. alive t (Maps.get j (or_else o []))) (sym e)
      ∙ ap (alive t) (get-delete_other id j r n);
  del_same = λ now id r t. rw (get-delete id id r, eq_refl id) refl;
  stays_away = λ now id r t le h. still_away now t (Maps.get id r) le h;
}

memory_redis-Keeps : RedisKeeps memory_redis
unfolding get_session save_session saved
memory_redis-Keeps = record {
  setex_same = λ now id ttl s r t lt.
      rw (get-put id id (s, now + ttl * 1000) r, eq_refl id, lt→ltb t (now + ttl * 1000) lt) refl;
}

abbrev settings : Config
settings = record {
  session_ttl_ms = 100000;
  cache_session_ttl = 100;
  redis_enabled = true;
  idle_reflect_hours = 1;
}

abbrev of_key : Context
of_key = record {
  ctx_authenticated = true;
  ctx_key_id = some "k";
  ctx_group_key_ids = none;
  ctx_permissions = some ("read" ∷ []);
  ctx_default_workspace = some "w";
  ctx_mode = none;
}

abbrev nobody : Store Kept
nobody = record { streamable = []; legacy = []; redis_state = [] }

abbrev one : Store Kept
one = create_streamable_session_with_id memory_redis settings 1000 "old" of_key nobody

-- Two sessions; another key cannot delete the first, its own key can; the second expires.
abbrev requests : List Request
requests =
    create_session 1000 "a" of_key
    ∷ create_session 2000 "b" of_key
    ∷ call_session 50000 "a"
    ∷ delete_session_request 60000 true (some "a") (some (some "x"))
    ∷ delete_session_request 70000 true (some "a") (some (some "k"))
    ∷ call_session 80000 "a"
    ∷ sweep_sessions 200000 (λ id. true)
    ∷ call_session 200001 "b"
    ∷ []

requests-InOrder : InOrder 0 requests
unfolding InOrder time_of
requests-InOrder = (
  omega arith,
  (
    omega arith,
    (omega arith, (omega arith, (omega arith, (omega arith, (omega arith, (omega arith, tt)))))),
  ),
)

run-spec_run_example :
    run memory_redis settings requests nobody
    ≡ spec_run settings requests (view memory_redis settings nobody)
run-spec_run_example =
    run-spec_run memory_redis settings memory_redis-Laws 0 requests nobody requests-InOrder tt

-- The statuses that the two DELETE requests answer.
abbrev statuses : List Answer → List ℕ
statuses [] = []
statuses (status n ∷ rest) = n ∷ statuses rest
statuses (done ∷ rest) = statuses rest
statuses (serves o ∷ rest) = statuses rest

run_statuses :
    statuses (spec_run settings requests (view memory_redis settings nobody)) ≡ 403 ∷ 200 ∷ []
unfolding spec_run spec_step spec_status spec_delete_named spec_delete_found spec_put spec_found
    spec_answer spec_remove served session_of touch forget
run_statuses = refl

abbrev old_session : Session
old_session = session_of settings 1000 "old" of_key

restart-validate_example :
    (validate_streamable_session memory_redis settings 60000 "old" (
      restarted (
        shut_down memory_redis settings 50000
          (validate_streamable_session memory_redis settings 40000 "old" one).0))).1
    ≡ valid (touch settings 60000 (touch settings 40000 old_session))
unfolding validate_streamable_session restore validate_found create_streamable_session_with_id
    session_of Maps.get Maps.put
restart-validate_example =
    restart-validate memory_redis settings memory_redis-Keeps 40000 50000 60000 "old" one
      (touch settings 40000 old_session) refl refl (omega arith)

abbrev rotate_request : RotateRequest
rotate_request = record {
  origin = some "http://localhost";
  remote_address = "10.0.0.1";
  ip = "10.0.0.1";
  authorized = true;
  session_header = some "old";
  body_reason = none;
}

abbrev replaced_by : Rotated
replaced_by = record {
  old_session_id = "old";
  new_session_id = "new";
  rotated_expires_at = 105000;
  rotated_key_id = some "k";
  rotated_workspace = some "w";
}

-- The request is answered with a new session.
rotate_request-rotated :
    (handle_session_rotate memory_redis settings
      (λ t. false)
      []
      5
      5000
      rotate_request
      "new"
      ([], one)).1
    ≡ rotated replaced_by "explicit_rotate"
unfolding handle_session_rotate rotate_limited rotate_named reply rotate_session rotate_found
    replace expiry_of existing end_old close create_streamable_session_with_id session_of context_of
    Maps.get Maps.put Maps.delete is_rotate_origin_allowed check_rotate_rate_limit current
rotate_request-rotated = refl
