-- ===== src/Sessions/Spec/Runs.antt =====
-- A run of requests on the store and a run on the view give the same answers.
use memento_mcp.Base.{
  ℕ, ◌≤◌, ◌≡◌, refl, ◌∙◌, ap, ap₂, String, Option, none, some, List, [], ◌∷◌, Bool, true, false,
  not, ◌&&◌, is_some, same_text, truthy, if◌then◌else◌, arith,
}
use memento_mcp.Base.Maps.{Unique, put-Unique, delete-Unique}
use memento_mcp.Base.Maps
use memento_mcp.Sessions.{
  Session, Context, Config, Redis, Store, Validation, valid, invalid, touch, session_of, close,
  close_streamable_session, create_streamable_session_with_id, validate_streamable_session,
}
use memento_mcp.Sessions.Ends.{
  delete_validated, delete_named, handle_mcp_delete, cleanup_expired_sessions,
}
use memento_mcp.Sessions.Spec.{
  RedisLaws, View, forget, spec_put, spec_remove, spec_found, spec_answer, spec_delete_found,
  spec_delete_named, spec_status, spec_step, spec_run, view, answered, with_status, step, run,
  served_with, InOrder, Request, create_session, call_session, delete_session_request,
  sweep_sessions, time_of, serves, status,
}
use memento_mcp.Sessions.Spec.Steps.{view-close, view-create}
use memento_mcp.Sessions.Spec.Validate.{There}
use memento_mcp.Sessions.Spec.Sweep.{view-cleanup, Unique-cleanup}
use memento_mcp.Sessions.Spec.Looks.{Looks, same_put, Looks-validate}

abbrev key_of : Option Session → Option String
key_of none = none
key_of (some s) = s.key_id

module _ {S : Type 0} (redis : Redis S) (cfg : Config) (laws : RedisLaws redis) where
  -- A result with its status is what the view asks for.
  Agrees : ℕ → Store S × ℕ → View × ℕ → Type 0
  Agrees now (st, code) (v, code') = Looks redis cfg laws now st v × (code ≡ code')

  removed_put :
      (id : String) (s : Session) (w v : View) (t : ℕ) (j : String)
      → w t j ≡ spec_put cfg id s v t j
      → spec_remove cfg id w t j ≡ spec_remove cfg id v t j
  unfolding spec_remove spec_put
  removed_put id s w v t j h = ground (arith, h)

  closed-Unique :
      (now : ℕ) (id : String) (st : Store S)
      → Unique st.streamable
      → Unique (close redis cfg now false id st).streamable
  unfolding close
  closed-Unique now id st u = delete-Unique id st.streamable u

  Looks-close :
      (now : ℕ) (id : String) (s s' : Session) (st : Store S) (v : View)
      → Maps.get id st.streamable ≡ some s
      → Looks redis cfg laws now st (spec_put cfg id s' v)
      → Looks redis cfg laws now
          (close_streamable_session redis cfg now false id st)
          (spec_remove cfg id v)
  unfolding Looks close_streamable_session
  Looks-close now id s s' st v k (h, u) = rw k (
    (λ t j le.
        view-close redis cfg laws now id st t j
        ∙ removed_put id s' (view redis cfg st) v t j (h t j le)),
    closed-Unique now id st u,
  )

  refused_or_closed :
      (now : ℕ) (st st' : Store S) (v v' : View) (b b' : Bool)
      → b ≡ b'
      → Looks redis cfg laws now st v
      → Looks redis cfg laws now st' v'
      → Agrees now (if b then (st, 403) else (st', 200)) (if b' then (v, 403) else (v', 200))
  unfolding Agrees
  refused_or_closed now st st' v v' true true e k k' = (k, refl)
  refused_or_closed now st st' v v' false false e k k' = (k', refl)
  refused_or_closed now st st' v v' true false e k k' = ground (arith, e)
  refused_or_closed now st st' v v' false true e k k' = ground (arith, e)

  same_key :
      (now : ℕ) (s s' : Session)
      → served_with (valid s) ≡ spec_answer cfg now (some s')
      → s.key_id ≡ s'.key_id
  unfolding served_with spec_answer forget touch
  same_key now s s' e = ap key_of e

  -- The outcomes of a DELETE: the session's copy in the answer has the key of the view's session.
  deletes :
      (now : ℕ) (id : String) (auth : Option (Option String)) (o : Option Session) (v : View)
      (st : Store S) (a : Validation Session)
      → Looks redis cfg laws now st (spec_found cfg now id o v)
      → served_with a ≡ spec_answer cfg now o
      → There redis cfg laws id st a
      → Agrees now
          (delete_validated redis cfg now id auth (st, a))
          (spec_delete_found cfg now id auth o v)
  unfolding Agrees delete_validated spec_delete_found spec_answer served_with There spec_found
      forget touch
  deletes now id auth none v st (invalid reason) looks e there = (looks, refl)
  deletes now id auth none v st (valid s) looks e there = ground (arith, e)
  deletes now id auth (some s') v st (invalid reason) looks e there = ground (arith, e)
  deletes now id none (some s') v st (valid s) looks e there = (looks, refl)
  deletes now id (some requester) (some s') v st (valid s) looks e there =
      refused_or_closed now st (close_streamable_session redis cfg now false id st)
        (spec_put cfg id (touch cfg now s') v) (spec_remove cfg id v)
        (is_some requester && not (same_text requester s.key_id))
        (is_some requester && not (same_text requester s'.key_id))
        (ap (λ k. is_some requester && not (same_text requester k)) (same_key now s s' e)) looks
        (Looks-close now id s (touch cfg now s') st v there looks)

  Looks-delete_named :
      (now : ℕ) (id : Option String) (auth : Option (Option String)) (st : Store S) (v : View)
      → Looks redis cfg laws now st v
      → Agrees now (delete_named redis cfg now id auth st) (spec_delete_named cfg now id auth v)
  unfolding delete_named spec_delete_named Agrees
  Looks-delete_named now none auth st v looks = (looks, refl)
  Looks-delete_named now (some id) auth st v looks =
      let (after, answer, there) = Looks-validate redis cfg laws now id st v looks in
      deletes now id auth (v now id) v (validate_streamable_session redis cfg now id st).0
        (validate_streamable_session redis cfg now id st).1 after answer there

  later :
      (now t : ℕ) (st : Store S) (v : View)
      → now ≤ t
      → Looks redis cfg laws now st v
      → Looks redis cfg laws t st v
  unfolding Looks
  later now t st v le (h, u) = ((λ t' j le'. h t' j (omega arith)), u)

  created-Unique :
      (now : ℕ) (id : String) (ctx : Context) (st : Store S)
      → Unique st.streamable
      → Unique (create_streamable_session_with_id redis cfg now id ctx st).streamable
  unfolding create_streamable_session_with_id
  created-Unique now id ctx st u = put-Unique id (session_of cfg now id ctx) st.streamable u

  created :
      (now : ℕ) (id : String) (ctx : Context) (st : Store S) (v : View)
      → Looks redis cfg laws now st v
      → Looks redis cfg laws now
          (create_streamable_session_with_id redis cfg now id ctx st)
          (spec_put cfg id (session_of cfg now id ctx) v)
  unfolding Looks
  created now id ctx st v (h, u) = (
    (λ t j le.
        view-create redis cfg laws now id ctx st t j
        ∙ same_put redis cfg laws id (session_of cfg now id ctx) (view redis cfg st) v t j
            (h t j le)),
    created-Unique now id ctx st u,
  )

  swept :
      (now : ℕ) (reflects : String → Bool) (st : Store S) (v : View)
      → Looks redis cfg laws now st v
      → Looks redis cfg laws now (cleanup_expired_sessions redis cfg now reflects st) v
  unfolding Looks
  swept now reflects st v (h, u) = (
    (λ t j le. view-cleanup redis cfg laws now reflects st u t j le ∙ h t j le),
    Unique-cleanup redis cfg laws now reflects st u,
  )

  -- One request.
  Looks-step :
      (q : Request) (st : Store S) (v : View)
      → Looks redis cfg laws (time_of q) st v
      → Looks redis cfg laws (time_of q) (step redis cfg q st).0 (spec_step cfg q v).0
        × ((step redis cfg q st).1 ≡ (spec_step cfg q v).1)
  unfolding step spec_step time_of answered with_status spec_status handle_mcp_delete Agrees
  Looks-step (create_session now id ctx) st v k = (created now id ctx st v k, refl)
  Looks-step (call_session now id) st v k =
      let (after, answer, there) = Looks-validate redis cfg laws now id st v k in
      (after, ap serves answer)
  Looks-step (delete_session_request now true id auth) st v k =
      let (after, code) = Looks-delete_named now (truthy id) auth st v k in (after, ap status code)
  Looks-step (delete_session_request now false id auth) st v k = (k, refl)
  Looks-step (sweep_sessions now reflects) st v k = (swept now reflects st v k, refl)

  Looks-run :
      (now : ℕ) (qs : List Request) (st : Store S) (v : View)
      → InOrder now qs
      → Looks redis cfg laws now st v
      → run redis cfg qs st ≡ spec_run cfg qs v
  unfolding run spec_run InOrder
  Looks-run now [] st v k looks = refl
  Looks-run now (q ∷ qs) st v (le, k) looks =
      let (after, answer) = Looks-step q st v (later now (time_of q) st v le looks) in
      ap₂ ◌∷◌ answer
        (Looks-run (time_of q) qs (step redis cfg q st).0 (spec_step cfg q v).0 k after)

  -- If an operation of Redis leaves the other keys, its deletes succeed, and a key that is absent does
  -- not come back by itself; and if no identifier has two entries in memory: whatever the requests
  -- are, in the order of their times, the answers of the store with its two copies of each session are
  -- those of the abstract view, which starts as the view of the store.
  pub run-spec_run :
      (now : ℕ) (qs : List Request) (st : Store S)
      → InOrder now qs
      → Unique st.streamable
      → run redis cfg qs st ≡ spec_run cfg qs (view redis cfg st)
  unfolding Looks
  run-spec_run now qs st k u = Looks-run now qs st (view redis cfg st) k ((λ t j le. refl), u)
