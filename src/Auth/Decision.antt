-- ===== src/Auth/Decision.antt =====
-- The decision of `validateAuthentication` on every path.
use memento_mcp.Base.{
  if_either, ℕ, ◌≡◌, ◌≢◌, refl, sym, ◌∙◌, ap, String, Option, none, some, true, false, str_eq,
  eq_iff, eq_refl, if◌then◌else◌, Outcome, ok, err, truthy, ◌⊎◌, inl, inr, arith,
}
use memento_mcp.OAuth.{Store, TokenInfo, Result}
use memento_mcp.OAuth.Handlers.{validate_access_token}
use memento_mcp.Auth.{
  World, KeyCheck, key_valid, key_invalid, AuthResult, master, oauth_client, keyed, denied,
  nonapikey_oauth_denied, invalid_key, AuthRequest, safe_compare, is_access_key,
  validate_api_key_from_db, oauth_result, init_result, db_result, token_result, bearer_result,
  validate_authentication,
}
use memento_mcp.Auth.Justified.{FromText, TokenGives, text-FromText, oauth-TokenGives}

module _ (w : World) (q : AuthRequest) (now : ℕ) (s : Store) where
  -- The access key stands in the request.
  pub InHeader : Type 0
  InHeader = truthy q.legacy_key ≡ some w.access_key

  pub AsBearer : Type 0
  AsBearer = q.bearer ≡ some w.access_key

  pub InInitialize : Type 0
  InInitialize = truthy q.init_access_key ≡ some w.access_key

  -- The bearer token is a valid access token that gives this result.
  pub ByToken : AuthResult → Type 0
  ByToken r =
      (token : String) × (info : TokenInfo) × (q.bearer ≡ some token)
      × ((validate_access_token s (some token) now).1 ≡ ok info)
      × TokenGives w info r

  -- What a decision says of the request, the settings and the rows.
  pub Decision : AuthResult → Type 0
  Decision master = (w.access_key ≡ "") ⊎ (InHeader ⊎ (AsBearer ⊎ InInitialize))
  Decision (oauth_client c) = ByToken (oauth_client c)
  Decision (keyed true k) = ByToken (keyed true k)
  Decision (keyed false k) = (raw : String) × (q.bearer ≡ some raw) × FromText w raw k
  Decision (denied nonapikey_oauth_denied) =
      ByToken (denied nonapikey_oauth_denied) × (w.access_key ≢ "") × (¬ InHeader) × (¬ AsBearer)
  Decision (denied invalid_key) =
      (w.access_key ≢ "") × (¬ InHeader) × (¬ AsBearer) × (¬ InInitialize)

  module _ (collision_free : (a b : String) → w.digest a ≡ w.digest b → a ≡ b) where
    safe_compare_lem : (a b : String) → safe_compare w a b ≡ true → a ≡ b
    unfolding safe_compare
    safe_compare_lem a b h = collision_free a b ((eq_iff (w.digest a) (w.digest b)).0 h)

    access_lem : (o : Option String) → is_access_key w o ≡ true → o ≡ some w.access_key
    unfolding is_access_key
    access_lem none h = ground (arith, h)
    access_lem (some k) h = ap some (safe_compare_lem k w.access_key h)

    no_access : (o : Option String) → is_access_key w o ≡ false → o ≢ some w.access_key
    unfolding is_access_key safe_compare
    no_access o h e =
        let same : is_access_key w o ≡ is_access_key w (some w.access_key) =
          ap (is_access_key w) e in
        ground (arith, h, same, eq_refl (w.digest w.access_key))

    init-Decision : (w.access_key ≢ "") → (¬ InHeader) → (¬ AsBearer) → Decision (init_result w q)
    unfolding init_result Decision InInitialize
    init-Decision a b c =
        if_either Decision (is_access_key w (truthy q.init_access_key)) master (denied invalid_key)
          (λ h. inr (inr (inr (access_lem (truthy q.init_access_key) h))))
          (λ h. (a, b, c, no_access (truthy q.init_access_key) h))

    db-Decision :
        (raw : String)
        → q.bearer ≡ some raw
        → (w.access_key ≢ "")
        → (¬ InHeader)
        → (¬ AsBearer)
        → (c : Outcome String KeyCheck) → validate_api_key_from_db w raw ≡ c
        → Decision (db_result w q c)
    unfolding db_result Decision validate_api_key_from_db
    db-Decision raw e a b d (ok (key_valid k)) h =
        (raw, e, text-FromText w raw (w.row_by_hash (w.digest raw)) k refl h)
    db-Decision raw e a b d (ok (key_invalid r)) h = init-Decision a b d
    db-Decision raw e a b d (err m) h = init-Decision a b d

    given :
        (r : AuthResult)
        → ByToken r
        → (w.access_key ≢ "")
        → (¬ InHeader)
        → (¬ AsBearer)
        → Decision r
    unfolding Decision ByToken TokenGives
    given master (token, info, e, v, g) a b c = elim g [ ]
    given (oauth_client i) t a b c = t
    given (keyed true k) t a b c = t
    given (keyed false k) (token, info, e, v, g) a b c = ground (arith, g.0)
    given (denied nonapikey_oauth_denied) t a b c = (t, a, b, c)
    given (denied invalid_key) (token, info, e, v, g) a b c =
        let wrong : invalid_key ≡ nonapikey_oauth_denied = g in ground (arith, wrong)

    token-Decision :
        (token : String)
        → q.bearer ≡ some token
        → (w.access_key ≢ "")
        → (¬ InHeader)
        → (¬ AsBearer)
        → (v : Store × Result TokenInfo) → validate_access_token s (some token) now ≡ v
        → Decision (token_result w q token v).1
    unfolding token_result ByToken
    token-Decision token e a b c (s', ok info) h =
        given (oauth_result w info) (token, info, e, ap (λ p. p.1) h, oauth-TokenGives w info) a b c
    token-Decision token e a b c (s', err x) h =
        db-Decision token e a b c (validate_api_key_from_db w token) refl

    bearer-Decision :
        (o : Option String)
        → q.bearer ≡ o
        → (w.access_key ≢ "")
        → (¬ InHeader)
        → Decision (bearer_result w q o now s).1
    unfolding bearer_result Decision AsBearer is_access_key
    bearer-Decision none e a b = init-Decision a b (λ k. ground (arith, sym e ∙ k))
    bearer-Decision (some token) e a b =
        if_either (λ (p : Store × AuthResult). Decision p.1) (safe_compare w token w.access_key)
          (s, master) (token_result w q token (validate_access_token s (some token) now))
          (λ h. inr (inr (inl (e ∙ ap some (safe_compare_lem token w.access_key h)))))
          (λ h.
            token-Decision token e a b (λ k. no_access (some token) h (sym e ∙ k))
              (validate_access_token s (some token) now) refl)

    -- If no two texts have the same digest: a request is the master's only if no access key is set or
    -- the request presents it; a key is let in only with an active row of its identifier and
    -- permissions, found by its text within the daily limit, or bound by its identifier to a valid
    -- access token; an OAuth client without a key only with a valid token, when such clients are not
    -- rejected. A request that is denied as invalid presents the access key nowhere; one denied as an
    -- OAuth client has a valid token, and the access key neither in its own header nor as the token.
    pub validate_authentication-Decision : Decision (validate_authentication w q now s).1
    unfolding validate_authentication Decision InHeader
    validate_authentication-Decision =
        if_either (λ (p : Store × AuthResult). Decision p.1) (str_eq w.access_key "") (s, master)
          (if is_access_key w (truthy q.legacy_key)
            then (s, master)
            else bearer_result w q q.bearer now s)
          (λ h. inl ((eq_iff w.access_key "").0 h))
          (λ h.
            if_either (λ (p : Store × AuthResult). Decision p.1)
              (is_access_key w (truthy q.legacy_key)) (s, master) (bearer_result w q q.bearer now s)
              (λ k. inr (inl (access_lem (truthy q.legacy_key) k)))
              (λ k.
                bearer-Decision q.bearer refl (λ e. ground (arith, h, eq_iff w.access_key "", e))
                  (no_access (truthy q.legacy_key) k)))
