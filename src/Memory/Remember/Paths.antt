-- ===== src/Memory/Remember/Paths.antt =====
-- The gates that stand right before an insert, on either path of `remember`.
use memento_mcp.Base.{
  ℕ, ◌≡◌, refl, sym, ap, ◌∙◌, ◌⊎◌, inl, inr, ◌<◌, String, Option, none, some, List, [], ◌∷◌, ◌++◌,
  Bool, true, false, if◌then◌else◌, leb, truthy, is_text, map, arith, Bool-cases, Outcome, ok, err,
}
use memento_mcp.Memory.Remember.{
  Params, Fragment, Config, World, Transaction, Effect, rolled_back, released, case_filled, Error,
  thrown, Answer, Run, after, throw, ask, policy_gate, gated_insert, limited_write, write_row,
  remember_atomic, is_atomic, create_and_store, with_case, fill_case, find_case, needs_case,
  assign_case,
}
use memento_mcp.Memory.Remember.Rows.{kept, kept-append, case_filled-kept}

-- The key is unknown to the transaction or has no limit, or its count is below the limit.
abbrev pub RowAllows : Transaction → Type 0
RowAllows tx =
    (tx.limit_row ≡ ok none)
    ⊎ (tx.limit_row ≡ ok (some none))
    ⊎ ((limit : ℕ) × (count : ℕ) × (tx.limit_row ≡ ok (some (some limit)))
        × (tx.count ≡ ok count)
        × (count < limit))

-- The gate that stands right before the insert, on either path.
abbrev pub GatePassed : Config → World → Transaction → Params → Type 0
GatePassed config w tx params =
    (is_atomic config params ≡ false)
      × ((ws : List String) × (policy_gate config w params.key_id ≡ ok ws))
    ⊎ (is_atomic config params ≡ true)
      × ((tx.pool ≡ false) × (w.check_quota ≡ ok tt) ⊎ (tx.pool ≡ true) × RowAllows tx)

-- Nothing is kept, unless G.
abbrev pub Guarded : Type 0 → Run Answer → Type 0
Guarded G r = (kept r.effects ≡ []) ⊎ G

pub if_Guarded :
    (G : Type 0) (b : Bool) (x y : Run Answer)
    → (b ≡ true → Guarded G x)
    → (b ≡ false → Guarded G y)
    → Guarded G (if b then x else y)
if_Guarded G true x y h k = h refl
if_Guarded G false x y h k = k refl

pub weaken : {K G H : Type 0} → (G → H) → K ⊎ G → K ⊎ H
weaken m (inl h) = inl h
weaken m (inr g) = inr (m g)

pub ask-Guarded :
    {A : Type 0} (G : Type 0) (o : Outcome String A) (next : A → Run Answer)
    → ((a : A) → o ≡ ok a → Guarded G (next a))
    → Guarded G (ask o next)
ask-Guarded G (err message) next h = inl refl
ask-Guarded G (ok a) next h = h a refl

after-Guarded :
    (G : Type 0) (es : List Effect) (r : Run Answer)
    → kept es ≡ []
    → Guarded G r
    → Guarded G (after es r)
after-Guarded G es r e (inl h) =
    inl (kept-append es r.effects ∙ ap (λ k. k ++ kept r.effects) e ∙ h)
after-Guarded G es r e (inr h) = inr h

gated_insert-Guarded :
    (config : Config) (w : World) (params : Params) (f : Fragment) (o : Outcome Error (List String))
    → Guarded ((ws : List String) × (o ≡ ok ws)) (gated_insert config w params f o)
unfolding gated_insert
gated_insert-Guarded config w params f (err e) = inl refl
gated_insert-Guarded config w params f (ok ws) = inr (ws, refl)

limited_write-Guarded :
    (config : Config) (w : World) (tx : Transaction) (params : Params) (f : Fragment) (limit : ℕ)
    (o : Outcome String ℕ)
    → Guarded
        ((count : ℕ) × (o ≡ ok count) × (count < limit))
        (limited_write config w tx params f limit o)
unfolding limited_write
limited_write-Guarded config w tx params f limit (err message) = inl refl
limited_write-Guarded config w tx params f limit (ok count) = elim (Bool-cases (leb limit count)) [
  | inl b ↦ rw b (inl refl)
  | inr b ↦ inr (count, refl, ground (arith, b))
]

write_row-Guarded :
    (config : Config) (w : World) (tx : Transaction) (params : Params) (f : Fragment)
    (row : Outcome String (Option (Option ℕ)))
    → row ≡ tx.limit_row
    → Guarded (RowAllows tx) (write_row config w tx params f row)
unfolding write_row
write_row-Guarded config w tx params f (err message) e = inl refl
write_row-Guarded config w tx params f (ok none) e = inr (inl (sym e))
write_row-Guarded config w tx params f (ok (some none)) e = inr (inr (inl (sym e)))
write_row-Guarded config w tx params f (ok (some (some limit))) e =
    elim (limited_write-Guarded config w tx params f limit tx.count) [
      | inl h ↦ inl h
      | inr h ↦ inr (inr (inr (limit, h.0, sym e, h.1, h.2)))
    ]

-- What the atomic path asks.
abbrev AtomicAllows : World → Transaction → Type 0
AtomicAllows w tx = (tx.pool ≡ false) × (w.check_quota ≡ ok tt) ⊎ (tx.pool ≡ true) × RowAllows tx

begun-Guarded :
    (config : Config) (w : World) (tx : Transaction) (params : Params) (f : Fragment)
    (o : Outcome String (Unit {0}))
    → Guarded (RowAllows tx) (elim o [
      | err message ↦ throw (rolled_back ∷ released ∷ []) (thrown message)
      | ok u ↦ write_row config w tx params f tx.limit_row
    ])
begun-Guarded config w tx params f (err message) = inl refl
begun-Guarded config w tx params f (ok u) = write_row-Guarded config w tx params f tx.limit_row refl

remember_atomic-Guarded :
    (config : Config) (w : World) (tx : Transaction) (params : Params) (f : Fragment)
    → Guarded (AtomicAllows w tx) (remember_atomic config w tx params f)
unfolding remember_atomic
remember_atomic-Guarded config w tx params f =
    if_Guarded (AtomicAllows w tx) tx.pool _ _
      (λ p. weaken (λ h. inr (p, h)) (begun-Guarded config w tx params f tx.set_up))
      (λ p. ask-Guarded (AtomicAllows w tx) w.check_quota _ (λ u e. inr (inl (p, e))))

create_and_store-Guarded :
    (config : Config) (w : World) (tx : Transaction) (params : Params)
    → Guarded (GatePassed config w tx params) (create_and_store config w tx params)
unfolding create_and_store
create_and_store-Guarded config w tx params =
    let G = GatePassed config w tx params in
    ask-Guarded G (w.create params) _ (λ f e.
      if_Guarded G (is_atomic config params) _ _
        (λ b. weaken (λ h. inr (b, h)) (remember_atomic-Guarded config w tx params f))
        (λ b.
          weaken (λ h. inl (b, h))
            (gated_insert-Guarded config w params f (policy_gate config w params.key_id))))

fill_case-Guarded :
    (config : Config) (w : World) (tx : Transaction) (params : Params) (ids : List String)
    → Guarded (GatePassed config w tx params) (fill_case config w tx params ids)
unfolding fill_case is_atomic
fill_case-Guarded config w tx params [] = create_and_store-Guarded config w tx params
fill_case-Guarded config w tx params (e ∷ es) =
    after-Guarded (GatePassed config w tx params) (map case_filled (e ∷ es))
      (create_and_store config w tx (with_case params w.random_uuid)) (case_filled-kept (e ∷ es))
      (create_and_store-Guarded config w tx (with_case params w.random_uuid))

found-Guarded :
    (config : Config) (w : World) (tx : Transaction) (params : Params) (o : Option String)
    → Guarded (GatePassed config w tx params) (elim o [
      | some c ↦ create_and_store config w tx (with_case params c)
      | none ↦
          if is_text "error" params.kind
          then create_and_store config w tx (with_case params w.random_uuid)
          else ask w.find_error_fragments (λ ids. fill_case config w tx params ids)
    ])
unfolding is_atomic
found-Guarded config w tx params (some c) =
    create_and_store-Guarded config w tx (with_case params c)
found-Guarded config w tx params none =
    let G = GatePassed config w tx params in
    if_Guarded G (is_text "error" params.kind) _ _
      (λ b. create_and_store-Guarded config w tx (with_case params w.random_uuid))
      (λ b.
        ask-Guarded G w.find_error_fragments _ (λ ids e. fill_case-Guarded config w tx params ids))

pub assign_case-Guarded :
    (config : Config) (w : World) (tx : Transaction) (params : Params)
    → Guarded (GatePassed config w tx params) (assign_case config w tx params)
unfolding assign_case find_case
assign_case-Guarded config w tx params =
    let G = GatePassed config w tx params in
    if_Guarded G (needs_case params) _ _
      (λ n.
        ask-Guarded G w.find_case_id _ (λ found e. found-Guarded config w tx params (truthy found)))
      (λ n. create_and_store-Guarded config w tx params)
