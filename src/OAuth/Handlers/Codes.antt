-- ===== src/OAuth/Handlers/Codes.antt =====
-- Authorization codes: what a code is good for, and how often.
use memento_mcp.Base.{
  ok, err, Outcome-cases, sym, ap, ℕ, ◌+◌, ◌/◌, ◌≤◌, ◌≡◌, refl, String, Option, none, some, true,
  false, Bool, is_text, ◌≢◌, Bool-cases, Option-cases, or_else, truthy, same_text, arith, eq_iff,
  eq_refl, get-put, get-delete, inl, inr,
}
use memento_mcp.Base.Maps
use memento_mcp.OAuth.{
  CodeData, Store, Env, AuthorizeParams, TokenParams, Grant, code_ttl_ms, invalid_code,
}
use memento_mcp.OAuth.Handlers.{
  verify_code_challenge, code_checks, issue, redeem, code_grant, handle_token,
}
use memento_mcp.OAuth.Authorize.{authorize_checks, handle_authorize}

-- A request of `/token` that brings a code and a verifier.
pub record Redeems (p : TokenParams) (code verifier : String) : Type 0 where
  pub grant_type : p.grant_type ≡ some "authorization_code"
  pub the_code : truthy p.code ≡ some code
  pub the_verifier : truthy p.code_verifier ≡ some verifier

pub redeems_lem :
    (env : Env) (s : Store) (p : TokenParams) (code verifier a r : String) (now : ℕ)
    → Redeems p code verifier
    → handle_token env s p a r now
      ≡ redeem env s p code verifier (Maps.get code s.auth_codes) a r now
unfolding handle_token code_grant
redeems_lem env s p code verifier a r now h = ground arith

-- A code that was read is no longer stored.
redeem_spent :
    (env : Env) (s : Store) (p : TokenParams) (code v a r : String) (o : Option CodeData) (now : ℕ)
    → Maps.get code s.auth_codes ≡ o
    → Maps.get code (redeem env s p code v o a r now).0.auth_codes ≡ none
unfolding redeem issue
redeem_spent env s p code v a r none now e = e
redeem_spent env s p code v a r (some d) now e =
    ground (arith, get-delete code code s.auth_codes, eq_refl code)

-- A code is good for one request that brings a verifier: after a request for the grant
-- `authorization_code` with a code and a verifier, whatever its outcome, a second such request with
-- the same code is refused as an invalid code.
pub redeem_twice :
    (env : Env) (s : Store) (p q : TokenParams) (code v w a r b t : String) (now later : ℕ)
    → Redeems p code v
    → Redeems q code w
    → (handle_token env (handle_token env s p a r now).0 q b t later).1 ≡ err invalid_code
unfolding redeem
redeem_twice env s p q code v w a r b t now later h k = ground (
  arith,
  redeems_lem env (handle_token env s p a r now).0 q code w b t later k,
  redeems_lem env s p code v a r now h,
  redeem_spent env s p code v a r (Maps.get code s.auth_codes) now refl,
)

same_text-eq : (t : String) (o : Option String) → same_text (some t) o ≡ true → o ≡ some t
same_text-eq t none h = cc
same_text-eq t (some u) h = ap some (sym ((eq_iff t u).0 h))

code_checks_sound :
    (env : Env) (p : TokenParams) (v : String) (d : CodeData) (now : ℕ)
    → code_checks env p v d now ≡ ok tt
    → (now ≤ d.expires_at)
      × (p.redirect_uri ≡ some d.redirect_uri)
      × (env.challenge_of v ≡ d.code_challenge)
unfolding code_checks verify_code_challenge
code_checks_sound env p v d now h = ground (
  arith,
  same_text-eq d.redirect_uri p.redirect_uri,
  eq_iff (env.challenge_of v) d.code_challenge,
)

pub redeem_ok :
    (env : Env) (s : Store) (p : TokenParams) (code v a r : String) (o : Option CodeData) (now : ℕ)
    (g : Grant)
    → (redeem env s p code v o a r now).1 ≡ ok g
    → (d : CodeData) × (o ≡ some d) × (code_checks env p v d now ≡ ok tt)
unfolding redeem
redeem_ok env s p code v a r none now g e = cc
redeem_ok env s p code v a r (some d) now g e = (d, refl, ground arith)

is_text-eq : (t : String) (o : Option String) → is_text t o ≡ true → o ≡ some t
is_text-eq t none h = cc
is_text-eq t (some u) h = ap some ((eq_iff u t).0 h)

Bool-cases-false : (b : Bool) → b ≢ true → b ≡ false
Bool-cases-false true h = absurd (h refl)
Bool-cases-false false h = refl

coded :
    (env : Env) (s : Store) (p : TokenParams) (a r : String) (now : ℕ) (g : Grant)
    → (code_grant env s p a r now).1 ≡ ok g
    → (code : String) × (truthy p.code ≡ some code)
      × ((verifier : String) × (truthy p.code_verifier ≡ some verifier))
unfolding code_grant
coded env s p a r now g h = elim (Option-cases (truthy p.code)) [
  | inl c ↦ ground (arith, c, h)
  | inr (code, c) ↦ elim (Option-cases (truthy p.code_verifier)) [
    | inl v ↦ ground (arith, c, v, h)
    | inr (verifier, v) ↦ (code, c, (verifier, v))
  ]
]

granted-Redeems :
    (env : Env) (s : Store) (p : TokenParams) (a r : String) (now : ℕ) (g : Grant)
    → p.grant_type ≢ some "refresh_token"
    → (handle_token env s p a r now).1 ≡ ok g
    → (code : String) × ((verifier : String) × Redeems p code verifier)
unfolding handle_token
granted-Redeems env s p a r now g other h =
    let no_refresh : is_text "refresh_token" p.grant_type ≡ false =
      Bool-cases-false (is_text "refresh_token" p.grant_type)
        (λ e. other (is_text-eq "refresh_token" p.grant_type e)) in
    elim (Bool-cases (is_text "authorization_code" p.grant_type)) [
      | inl e ↦
          let (code, c, (verifier, v)) =
            coded env s p a r now g (ground (arith, h, no_refresh, e)) in
          (
            code,
            (
              verifier,
              record {
                grant_type = is_text-eq "authorization_code" p.grant_type e;
                the_code = c;
                the_verifier = v;
              },
            ),
          )
      | inr e ↦ ground (arith, h, no_refresh, e)
    ]

-- But for the grant `refresh_token`, tokens are issued only to a request for the grant
-- `authorization_code` that brings a stored code that has not expired, names the address of the
-- authorization, and brings a verifier that has the challenge of the authorization.
pub redeem_sound :
    (env : Env) (s : Store) (p : TokenParams) (a r : String) (now : ℕ) (g : Grant)
    → p.grant_type ≢ some "refresh_token"
    → (handle_token env s p a r now).1 ≡ ok g
    → (code : String) × (v : String) × Redeems p code v
      × ((d : CodeData) × (Maps.get code s.auth_codes ≡ some d)
          × (now ≤ d.expires_at)
          × (p.redirect_uri ≡ some d.redirect_uri)
          × (env.challenge_of v ≡ d.code_challenge))
redeem_sound env s p a r now g other e =
    let (code, (v, h)) = granted-Redeems env s p a r now g other e in
    let (d, stored, checks) =
      redeem_ok env s p code v a r (Maps.get code s.auth_codes) now g
        (rw (redeems_lem env s p code v a r now h) at e) in
    let (fresh, uri, challenge) = code_checks_sound env p v d now checks in
    (code, v, h, (d, stored, fresh, uri, challenge))

authorize_ok :
    (env : Env) (s : Store) (q : AuthorizeParams) (code uri : String) (now : ℕ)
    → (handle_authorize env s q code now).1 ≡ ok (code, uri)
    → (d : CodeData) × (handle_authorize env s q code now
        ≡ (record s { auth_codes = Maps.put code d s.auth_codes }, ok (code, d.redirect_uri)))
      × (authorize_checks env q now ≡ ok d)
      × (d.redirect_uri ≡ uri)
unfolding handle_authorize
authorize_ok env s q code uri now h = elim (Outcome-cases (authorize_checks env q now)) [
  | inl (d, e) ↦ elim (Option-cases (env.parse_url d.redirect_uri)) [
    | inl u ↦ absurd (ground (arith, e, u))
    | inr (parts, u) ↦ (d, rw (e, handle_authorize, u) refl, e, ground (arith, e, u))
  ]
  | inr (x, e) ↦ absurd (ground arith)
]

authorize_checks_data :
    (env : Env) (q : AuthorizeParams) (d : CodeData) (challenge : String) (now : ℕ)
    → q.code_challenge ≡ some challenge
    → authorize_checks env q now ≡ ok d
    → (d.code_challenge ≡ challenge)
      × (d.scope ≡ or_else (truthy q.scope) "mcp")
      × (d.expires_at ≡ now + code_ttl_ms)
unfolding authorize_checks
authorize_checks_data env q d challenge now c h = ground arith

code_checks_pass :
    (env : Env) (p : TokenParams) (v : String) (d : CodeData) (now : ℕ)
    → now ≤ d.expires_at
    → p.redirect_uri ≡ some d.redirect_uri
    → env.challenge_of v ≡ d.code_challenge
    → code_checks env p v d now ≡ ok tt
unfolding code_checks verify_code_challenge
code_checks_pass env p v d now fresh uri challenge =
    ground (arith, eq_refl d.redirect_uri, eq_iff (env.challenge_of v) d.code_challenge)

redeem_grants :
    (env : Env) (s : Store) (p : TokenParams) (code v a r : String) (d : CodeData) (now : ℕ)
    (scope : String)
    → code_checks env p v d now ≡ ok tt
    → d.scope ≡ scope
    → (redeem env s p code v (some d) a r now).1
      ≡ ok (record {
        access_token = a;
        refresh_token = r;
        expires_in = env.token_ttl_ms / 1000;
        scope = scope;
      })
unfolding redeem issue
redeem_grants env s p code v a r d now scope checks same = ground arith

-- A granted authorization can be redeemed, at any time until its code expires, by a request with
-- the code, the same address and a verifier that has the challenge; the tokens then have the scope
-- that was asked for, or `mcp` where none was.
pub authorize_redeem :
    (env : Env) (s : Store) (q : AuthorizeParams) (p : TokenParams) (code uri v a r : String)
    (now later : ℕ)
    → (handle_authorize env s q code now).1 ≡ ok (code, uri)
    → Redeems p code v
    → p.redirect_uri ≡ some uri
    → q.code_challenge ≡ some (env.challenge_of v)
    → later ≤ now + code_ttl_ms
    → (handle_token env (handle_authorize env s q code now).0 p a r later).1
      ≡ ok (record {
        access_token = a;
        refresh_token = r;
        expires_in = env.token_ttl_ms / 1000;
        scope = or_else (truthy q.scope) "mcp";
      })
authorize_redeem env s q p code uri v a r now later granted h same challenge fresh =
    let (d, stored, checks, d_uri) = authorize_ok env s q code uri now granted in
    let (d_challenge, d_scope, d_expires) =
      authorize_checks_data env q d (env.challenge_of v) now challenge checks in
    rw stored (
      rw
        (redeems_lem env (record s { auth_codes = Maps.put code d s.auth_codes }) p code v a r later
          h)
        (rw (get-put code code d s.auth_codes, eq_refl code)
          (redeem_grants env (record s { auth_codes = Maps.put code d s.auth_codes }) p code v a r d
            later (or_else (truthy q.scope) "mcp")
            (code_checks_pass env p v d later (omega arith) (rw d_uri same) (sym d_challenge))
            d_scope)))
