-- ===== src/Symbolic/Orchestrator/Laws.antt =====
-- What a caller may rely on whatever the rules do: degraded answers, and what the loader throws.
use memento_mcp.Base.{
  String, Option, none, some, List, [], Bool, true, false, includes, Outcome, ok, err, ◌≡◌, refl,
  ◌⊎◌, ◌≢◌, inl, inr, ◌↔◌, arith, sym, ◌∙◌, Bool-cases,
}
use memento_mcp.Symbolic.Orchestrator.{
  timeout, eval_error, unsupported_mode, Explained, supported_modes, RulePack, Config, Input,
  Evaluation, noop_result, error_result, race, version_of, evaluate_loaded, evaluate_input,
  evaluate,
}

abbrev pub Loader : Type 0
Loader = String → Outcome String (Option RulePack)

-- The layer is enabled and the input has a supported mode, so that the loader is called.
pub record Asks (config : Config) (input : Option Input) : Type 0 where
  pub enabled : config.enabled ≡ true
  pub asked : Input
  pub given : input ≡ some asked
  pub mode : includes supported_modes asked.mode ≡ true

-- The evaluation is begun, and it is late or throws.
pub record Breaks (config : Config) (load : Loader) (timed_out : Bool) (input : Option Input)
    : Type 0 where
  pub asks : Asks config input
  pub pack : RulePack
  pub loaded : load (version_of config input) ≡ ok (some pack)
  pub broken :
      (timed_out ≡ true)
      ⊎ ((m : String) × (pack asks.asked.mode asks.asked.candidates asks.asked.ctx ≡ err m))

-- An answer in good order: without an error it is not degraded, with one it has no results, and a
-- degraded one is late or its evaluation threw.
pub record IsCoherent (e : Evaluation) : Type 0 where
  pub fine : e.error_code ≡ none → e.degraded ≡ false
  pub failed : e.error_code ≢ none → e.results ≡ []
  pub degraded_code :
      e.degraded ≡ true → (e.error_code ≡ some timeout) ⊎ (e.error_code ≡ some eval_error)

-- An answer that is degraded, and one that is in good order or thrown.
abbrev pub IsDegraded : Outcome String Evaluation → Type 0
IsDegraded (err message) = ⊥
IsDegraded (ok e) = e.degraded ≡ true

abbrev pub Coherent : Outcome String Evaluation → Type 0
Coherent (err message) = Unit
Coherent (ok e) = IsCoherent e

race-degraded :
    (t : Bool) (o : Outcome String (List Explained)) (v : String)
    → (race t o v).degraded ≡ true
    → (t ≡ true) ⊎ ((m : String) × (o ≡ err m))
unfolding race error_result
race-degraded true o v h = inl refl
race-degraded false (ok r) v h = cc
race-degraded false (err m) v h = inr (m, refl)

degraded-race :
    (t : Bool) (o : Outcome String (List Explained)) (v : String)
    → (t ≡ true) ⊎ ((m : String) × (o ≡ err m))
    → (race t o v).degraded ≡ true
unfolding race error_result
degraded-race true o v h = refl
degraded-race false (ok r) v (inl h) = cc
degraded-race false (ok r) v (inr h) = cc
degraded-race false (err m) v h = ground arith

race-IsCoherent :
    (t : Bool) (o : Outcome String (List Explained)) (v : String) → IsCoherent (race t o v)
unfolding race error_result
race-IsCoherent t o v = record {
  fine = λ h. ground arith;
  failed = λ h. ground arith;
  degraded_code = λ h. ground arith;
}

loaded-Coherent :
    (t : Bool) (v : String) (i : Input) (o : Outcome String (Option RulePack))
    → Coherent (evaluate_loaded t v i o)
unfolding evaluate_loaded error_result
loaded-Coherent t v i (err m) = tt
loaded-Coherent t v i (ok none) = record {
  fine = λ h. cc;
  failed = λ h. refl;
  degraded_code = λ h. cc;
}
loaded-Coherent t v i (ok (some pack)) = race-IsCoherent t (pack i.mode i.candidates i.ctx) v

loaded-IsDegraded :
    (t : Bool) (v : String) (i : Input) (o : Outcome String (Option RulePack))
    → IsDegraded (evaluate_loaded t v i o)
    → (pack : RulePack) × (o ≡ ok (some pack))
      × ((t ≡ true) ⊎ ((m : String) × (pack i.mode i.candidates i.ctx ≡ err m)))
unfolding evaluate_loaded error_result
loaded-IsDegraded t v i (err m) h = absurd h
loaded-IsDegraded t v i (ok none) h = cc
loaded-IsDegraded t v i (ok (some pack)) h =
    (pack, refl, race-degraded t (pack i.mode i.candidates i.ctx) v h)

loaded_thrown :
    (t : Bool) (v : String) (i : Input) (o : Outcome String (Option RulePack)) (m : String)
    → evaluate_loaded t v i o ≡ err m
    → o ≡ err m
unfolding evaluate_loaded
loaded_thrown t v i (err x) m h = ground (arith, h)
loaded_thrown t v i (ok none) m h = cc
loaded_thrown t v i (ok (some pack)) m h = cc

module _ (config : Config) (load : Loader) (timed_out : Bool) where
  -- The input that the loader is called for, or an answer of the guards.
  abbrev Guarded : Option Input → Type 0
  Guarded input =
      ((a : Asks config input) × (evaluate config load timed_out input
          ≡ evaluate_loaded timed_out (version_of config input) a.asked
              (load (version_of config input))))
      ⊎ ((e : Evaluation) × (evaluate config load timed_out input ≡ ok e)
          × (e.degraded ≡ false)
          × IsCoherent e
          × (Asks config input → ⊥))

  refused-IsCoherent : (v : String) → IsCoherent (error_result unsupported_mode false v)
  unfolding error_result
  refused-IsCoherent v = record { fine = λ h. refl; failed = λ h. refl; degraded_code = λ h. cc }

  guarded : config.enabled ≡ true → (input : Option Input) → Guarded input
  unfolding evaluate evaluate_input error_result
  guarded on none = inr (
    error_result unsupported_mode false (version_of config none),
    rw on refl,
    refl,
    refused-IsCoherent (version_of config none),
    λ a. ground (arith, a.given),
  )
  guarded on (some i) = elim (Bool-cases (includes supported_modes i.mode)) [
    | inl y ↦ inl (record { enabled = on; asked = i; given = refl; mode = y }, rw (on, y) refl)
    | inr n ↦ inr (
      error_result unsupported_mode false (version_of config (some i)),
      rw (on, n) refl,
      refl,
      refused-IsCoherent (version_of config (some i)),
      λ a. ground (arith, a.given, a.mode, n),
    )
  ]

  evaluate-cases : (input : Option Input) → Guarded input
  unfolding evaluate evaluate_input noop_result error_result
  evaluate-cases input = elim (Bool-cases config.enabled) [
    | inl on ↦ guarded on input
    | inr off ↦ inr (
      noop_result (version_of config input),
      rw off refl,
      refl,
      record { fine = λ h. refl; failed = λ h. refl; degraded_code = λ h. cc },
      λ a. ground (arith, a.enabled, off),
    )
  ]

  asked_thrown :
      (input : Option Input) (m : String)
      → (evaluate config load timed_out input ≡ err m)
        ↔ (Asks config input × (load (version_of config input) ≡ err m))
  unfolding evaluate_loaded
  asked_thrown input m = (
    λ h. elim (evaluate-cases input) [
      | inl (a, e) ↦ (
        a,
        loaded_thrown timed_out (version_of config input) a.asked (load (version_of config input)) m
            (sym e ∙ h),
      )
      | inr (x, e, d, c, n) ↦ ground (arith, sym e ∙ h)
    ],
    λ (a, l). elim (evaluate-cases input) [
      | inl (b, e) ↦ e ∙ rw l refl
      | inr (x, e, d, c, n) ↦ absurd (n a)
    ],
  )

  evaluate-Coherent : (input : Option Input) → Coherent (evaluate config load timed_out input)
  evaluate-Coherent input = elim (evaluate-cases input) [
    | inl (a, e) ↦ rw e (
        loaded-Coherent timed_out (version_of config input) a.asked
          (load (version_of config input)))
    | inr (x, e, d, c, n) ↦ rw e c
  ]

  IsDegraded-Breaks :
      (input : Option Input)
      → IsDegraded (evaluate config load timed_out input)
      → Breaks config load timed_out input
  IsDegraded-Breaks input h = elim (evaluate-cases input) [
    | inl (a, e) ↦
        let (pack, loaded, broken) =
          loaded-IsDegraded timed_out (version_of config input) a.asked
            (load (version_of config input)) (rw e at h) in
        record { asks = a; pack = pack; loaded = loaded; broken = broken }
    | inr (x, e, d, c, n) ↦ let k : x.degraded ≡ true = rw e at h in ground (arith, k, d)
  ]

  Breaks-IsDegraded :
      (input : Option Input)
      → Breaks config load timed_out input
      → IsDegraded (evaluate config load timed_out input)
  unfolding evaluate_loaded
  Breaks-IsDegraded input h = elim (evaluate-cases input) [
    | inl (a, e) ↦
        let i = h.asks.asked in
        let v = version_of config input in
        let same : a.asked ≡ i = ground (arith, a.given, h.asks.given) in
        rw (e, h.loaded, same)
          (degraded-race timed_out (h.pack i.mode i.candidates i.ctx) v h.broken)
    | inr (x, e, d, c, n) ↦ absurd (n h.asks)
  ]

-- An evaluation throws exactly when the layer is enabled, the mode is supported and the loader of the
-- rule packs throws; it is degraded exactly when it was begun (the layer is enabled, the mode is
-- supported, the version has a pack) and came late or threw. A degraded answer has the code for a
-- timeout or for an error; an answer with an error code has no results, and one without is not
-- degraded.
pub evaluate-Breaks :
    (config : Config) (load : Loader) (timed_out : Bool) (input : Option Input)
    → ((m : String)
        → (evaluate config load timed_out input ≡ err m)
          ↔ (Asks config input × (load (version_of config input) ≡ err m)))
      × (IsDegraded (evaluate config load timed_out input) ↔ Breaks config load timed_out input)
      × Coherent (evaluate config load timed_out input)
evaluate-Breaks config load timed_out input = (
  asked_thrown config load timed_out input,
  (IsDegraded-Breaks config load timed_out input, Breaks-IsDegraded config load timed_out input),
  evaluate-Coherent config load timed_out input,
)
