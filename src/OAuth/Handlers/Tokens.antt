-- ===== src/OAuth/Handlers/Tokens.antt =====
-- Access and refresh tokens: how long they are valid, and what a refresh replaces.
use memento_mcp.Base.{
  ok, err, ◌∙◌, ℕ, ◌+◌, ◌≤◌, ◌≡◌, refl, String, Option, none, some, false, ltb, leb, first_some,
  if◌then◌else◌, truthy, str_eq, not, ◌↔◌, arith, eq_refl, get-put, get-delete, get-retain,
  Option-cases, inl, inr,
}
use memento_mcp.Base.Maps
use memento_mcp.OAuth.{
  CodeData, TokenData, access, refresh, Store, Env, Result, TokenParams, Grant, TokenInfo,
  invalid_refresh_token, token_expired,
}
use memento_mcp.OAuth.Handlers.{
  secret_key, token_data, code_checks, issue, redeem, rotate, refresh_found, refresh_grant,
  handle_token, validate_access_token, cleanup_expired_oauth_data,
}
use memento_mcp.OAuth.Handlers.Codes.{Redeems, redeems_lem, redeem_ok}

-- What validation answers for a stored access token.
answer : TokenData → ℕ → Result TokenInfo
answer d now =
    if leb now d.expires_at
    then ok (record {
      client_id = d.client_id;
      scope = d.scope;
      is_api_key = d.is_api_key;
      bound_key_id = truthy d.bound_key_id;
    })
    else err token_expired

validate_stored :
    (s : Store) (t : String) (d : TokenData) (now : ℕ)
    → truthy (some t) ≡ some t
    → Maps.get t s.access_tokens ≡ some d
    → d.type ≡ access
    → (validate_access_token s (some t) now).1 ≡ answer d now
unfolding validate_access_token answer
validate_stored s t d now h g k = ground arith

-- The access token that a code buys.
bought : Env → TokenParams → CodeData → ℕ → TokenData
bought env p d now =
    token_data access d.client_id d.scope d.is_api_key
      (first_some (truthy (secret_key env p.client_secret)) (truthy d.bound_key_id))
      (first_some (truthy p.resource) (truthy d.resource)) now env.token_ttl_ms

redeem_stores :
    (env : Env) (s : Store) (p : TokenParams) (code v a r : String) (d : CodeData) (now : ℕ)
    → code_checks env p v d now ≡ ok tt
    → str_eq r a ≡ false
    → Maps.get a (redeem env s p code v (some d) a r now).0.access_tokens
      ≡ some (bought env p d now)
unfolding redeem issue bought
redeem_stores env s p code v a r d now checks other =
    rw (checks, redeem) (rw (get-put r a _ _) (rw other (rw (get-put a a _ _) (rw (eq_refl a)))))

-- The access token that a code buys is valid, for the client and with the scope of the code, until
-- its lifetime is over, and is refused as expired afterwards, if its text is not empty and differs
-- from the refresh token's.
pub redeem_validate :
    (env : Env) (s : Store) (p : TokenParams) (code v a r : String) (now later : ℕ) (g : Grant)
    → Redeems p code v
    → (handle_token env s p a r now).1 ≡ ok g
    → truthy (some a) ≡ some a
    → str_eq r a ≡ false
    → (d : CodeData) × (info : TokenInfo) × (Maps.get code s.auth_codes ≡ some d)
      × (info.client_id ≡ d.client_id)
      × (info.scope ≡ d.scope)
      × ((validate_access_token (handle_token env s p a r now).0 (some a) later).1
          ≡ (if leb later (now + env.token_ttl_ms) then ok info else err token_expired))
redeem_validate env s p code v a r now later g h e full other =
    let (d, stored, checks) =
      redeem_ok env s p code v a r (Maps.get code s.auth_codes) now g
        (rw (redeems_lem env s p code v a r now h) at e) in
    let t = bought env p d now in
    (
      d,
      record {
        client_id = t.client_id;
        scope = t.scope;
        is_api_key = t.is_api_key;
        bound_key_id = truthy t.bound_key_id;
      },
      stored,
      unfold bought token_data in refl,
      unfold bought token_data in refl,
      rw (redeems_lem env s p code v a r now h) (
          rw stored (
            validate_stored (redeem env s p code v (some d) a r now).0 a t later full
              (redeem_stores env s p code v a r d now checks other)
              (unfold bought token_data in refl)
            ∙ (unfold answer bought token_data in refl))),
    )

-- A request of `/token` that brings a refresh token.
pub record Refreshes (p : TokenParams) (old : String) : Type 0 where
  pub grant_type : p.grant_type ≡ some "refresh_token"
  pub the_token : truthy p.refresh_token ≡ some old

refreshes_lem :
    (env : Env) (s : Store) (p : TokenParams) (old a r : String) (now : ℕ)
    → Refreshes p old
    → handle_token env s p a r now ≡ elim (Maps.get old s.access_tokens) [
      | none ↦ (s, err invalid_refresh_token)
      | some d ↦ refresh_found env s p old d.type d a r now
    ]
unfolding handle_token refresh_grant
refreshes_lem env s p old a r now h = ground arith

refresh_ok :
    (env : Env) (s : Store) (p : TokenParams) (old a r : String) (d : TokenData) (now : ℕ)
    (g : Grant)
    → (refresh_found env s p old d.type d a r now).1 ≡ ok g
    → (d.type ≡ refresh)
      × (now ≤ d.expires_at)
      × (refresh_found env s p old d.type d a r now ≡ rotate env s p old d a r now)
unfolding refresh_found
refresh_ok env s p old a r d now g h = ground arith

rotate_forgets :
    (env : Env) (s : Store) (p : TokenParams) (old a r : String) (d : TokenData) (now : ℕ)
    → Maps.get old (rotate env s p old d a r now).0.access_tokens ≡ none
unfolding rotate
rotate_forgets env s p old a r d now = rw (get-delete old old _) (rw (eq_refl old))

refresh_success :
    (env : Env) (s : Store) (p : TokenParams) (old a r : String) (now : ℕ) (g : Grant)
    → Refreshes p old
    → (handle_token env s p a r now).1 ≡ ok g
    → (d : TokenData) × (Maps.get old s.access_tokens ≡ some d)
      × (d.type ≡ refresh)
      × (now ≤ d.expires_at)
      × (handle_token env s p a r now ≡ rotate env s p old d a r now)
refresh_success env s p old a r now g h e = elim (Option-cases (Maps.get old s.access_tokens)) [
  | inl n ↦ absurd (ground (arith, refreshes_lem env s p old a r now h))
  | inr (d, n) ↦
      let found = refreshes_lem env s p old a r now h ∙ rw n in
      let (kind, fresh, same) = refresh_ok env s p old a r d now g (rw found at e) in
      (d, n, kind, fresh, found ∙ same)
]

-- The access token of a refresh.
replacement : Env → TokenParams → TokenData → ℕ → TokenData
replacement env p d now =
    token_data access d.client_id d.scope d.is_api_key
      (first_some (truthy (secret_key env p.client_secret)) (truthy d.bound_key_id))
      (first_some (truthy p.resource) (truthy d.resource)) now env.token_ttl_ms

rotate_stores :
    (env : Env) (s : Store) (p : TokenParams) (old a r : String) (d : TokenData) (now : ℕ)
    → str_eq r a ≡ false
    → str_eq old a ≡ false
    → Maps.get a (rotate env s p old d a r now).0.access_tokens ≡ some (replacement env p d now)
unfolding rotate replacement
rotate_stores env s p old a r d now other fresh =
    rw (get-delete old a _)
      (rw fresh (rw (get-put r a _ _) (rw other (rw (get-put a a _ _) (rw (eq_refl a))))))

-- A refresh token is good for one refresh: after a successful one, a second request with the same
-- token is refused, at whatever time it comes.
pub refresh_twice :
    (env : Env) (s : Store) (p q : TokenParams) (old a r b t : String) (now later : ℕ) (g : Grant)
    → Refreshes p old
    → Refreshes q old
    → (handle_token env s p a r now).1 ≡ ok g
    → (handle_token env (handle_token env s p a r now).0 q b t later).1 ≡ err invalid_refresh_token
refresh_twice env s p q old a r b t now later g h k e =
    let (d, stored, kind, fresh, same) = refresh_success env s p old a r now g h e in
    rw same (
      rw (refreshes_lem env (rotate env s p old d a r now).0 q old b t later k)
        (rw (rotate_forgets env s p old a r d now)))

-- A successful refresh, whose drawn access token is neither the drawn refresh token nor the old
-- one, presents a stored refresh token that has not expired. The new access token has the client
-- and the scope of the old token, and its key unless the request's secret names another one.
pub refresh_sound :
    (env : Env) (s : Store) (p : TokenParams) (old a r : String) (now : ℕ) (g : Grant)
    → Refreshes p old
    → (handle_token env s p a r now).1 ≡ ok g
    → str_eq r a ≡ false
    → str_eq old a ≡ false
    → (d t : TokenData) × (Maps.get old s.access_tokens ≡ some d)
      × (d.type ≡ refresh)
      × (now ≤ d.expires_at)
      × (Maps.get a (handle_token env s p a r now).0.access_tokens ≡ some t)
      × (t.type ≡ access)
      × (t.client_id ≡ d.client_id)
      × (t.scope ≡ d.scope)
      × (t.bound_key_id
          ≡ first_some (truthy (secret_key env p.client_secret)) (truthy d.bound_key_id))
refresh_sound env s p old a r now g h e other fresh =
    let (d, stored, kind, unexpired, same) = refresh_success env s p old a r now g h e in
    (
      d,
      replacement env p d now,
      stored,
      kind,
      unexpired,
      rw same (rotate_stores env s p old a r d now other fresh),
      unfold replacement token_data in refl,
      unfold replacement token_data in refl,
      unfold replacement token_data in refl,
      unfold replacement token_data in refl,
    )

-- The sweep of expired codes and tokens never changes which tokens are valid from then on.
pub validate-cleanup :
    (s : Store) (t : Option String) (now later : ℕ) (info : TokenInfo)
    → Maps.Unique s.access_tokens
    → now ≤ later
    → ((validate_access_token (cleanup_expired_oauth_data s now) t later).1 ≡ ok info)
      ↔ ((validate_access_token s t later).1 ≡ ok info)
unfolding validate_access_token cleanup_expired_oauth_data
validate-cleanup s none now later info u order = (λ h. h, λ h. h)
validate-cleanup s (some t) now later info u order = (
  λ h. ground (arith, get-retain (λ d. not (ltb d.expires_at now)) t s.access_tokens u),
  λ h. ground (arith, get-retain (λ d. not (ltb d.expires_at now)) t s.access_tokens u),
)
