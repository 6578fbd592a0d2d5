-- ===== src/Auth/Justified.antt =====
-- Why a request is let in, and why not.
use memento_mcp.Base.{
  ◌<◌, ◌≡◌, refl, ap, String, Option, none, some, List, Bool, true, false, not, ◌&&◌, str_eq,
  eq_iff, leb, if◌then◌else◌, Outcome, ok, err, truthy, is_some, ◌⊎◌, inl, inr, Bool-cases,
  if_either, arith,
}
use memento_mcp.OAuth.{TokenInfo}
use memento_mcp.Auth.{
  World, KeyRow, KeyInfo, KeyCheck, key_valid, key_invalid, AuthResult, master, oauth_client, keyed,
  denied, nonapikey_oauth_denied, key_info, check_row, check_queried, validate_api_key_from_db,
  or_invalid, check_row_by_id, found_by_id, validate_api_key_by_id, plain_oauth, client_key,
  by_client_id, bound_key, oauth_result,
}

if_inverted {ℓ} :
    {A : Type ℓ} (b : Bool) (x y z : A)
    → (if b then x else y) ≡ z
    → ((b ≡ true) × (x ≡ z)) ⊎ ((b ≡ false) × (y ≡ z))
if_inverted true x y z h = inl (refl, h)
if_inverted false x y z h = inr (refl, h)

abbrev key_of : KeyInfo → Outcome String KeyCheck → KeyInfo
key_of k (err m) = k
key_of k (ok (key_invalid r)) = k
key_of k (ok (key_valid k')) = k'

-- The row behind a key that is let in.
pub record IsActive (row : KeyRow) (k : KeyInfo) : Type 0 where
  pub active : row.status ≡ "active"
  pub named : row.id ≡ k.key_id
  pub permitted : row.permissions ≡ k.permissions

module _ (w : World) where
  -- A key with calls left for the day, found by its text.
  unfoldable pub FromText : String → KeyInfo → Type 0
  FromText raw k =
      (row : KeyRow) × (w.row_by_hash (w.digest raw) ≡ ok (some row))
      × IsActive row k
      × (row.usage_today < row.daily_limit)

  -- A key found by its identifier.
  unfoldable pub FromId : Option String → KeyInfo → Type 0
  FromId bound k =
      (id : String) × (row : KeyRow) × (bound ≡ some id)
      × (w.row_by_id id ≡ ok (some row))
      × IsActive row k

  -- What a valid token can give.
  unfoldable pub TokenGives : TokenInfo → AuthResult → Type 0
  TokenGives info master = ⊥
  TokenGives info (oauth_client c) =
      (info.client_id ≡ c)
      × (w.reject_nonapikey_oauth && is_some (truthy (some w.access_key)) && not w.auth_disabled
          ≡ false)
  TokenGives info (keyed oauth k) =
      (oauth ≡ true)
      × (FromId (truthy info.bound_key_id) k
          ⊎ ((raw : String) × (info.client_id ≡ some raw)
              × (info.is_api_key ≡ true)
              × FromText raw k))
  TokenGives info (denied e) = e ≡ nonapikey_oauth_denied

  plain-TokenGives : (info : TokenInfo) → TokenGives info (plain_oauth w info)
  unfolding plain_oauth TokenGives
  plain-TokenGives info =
      if_either (TokenGives info)
        (w.reject_nonapikey_oauth && is_some (truthy (some w.access_key)) && not w.auth_disabled)
        (denied nonapikey_oauth_denied) (oauth_client info.client_id) (λ h. refl) (λ h. (refl, h))

  key_info-IsActive :
      (row : KeyRow) (o : Outcome String (List String)) (k : KeyInfo)
      → not (str_eq row.status "active") ≡ false
      → key_info w row o ≡ ok (key_valid k)
      → IsActive row k
  unfolding key_info
  key_info-IsActive row (err m) k a h = ground (arith, h)
  key_info-IsActive row (ok members) k a h = record {
    active = (eq_iff row.status "active").0 (ground (arith, a));
    named = ap (λ o. (key_of k o).key_id) h;
    permitted = ap (λ o. (key_of k o).permissions) h;
  }

  pub text-FromText :
      (raw : String) (o : Outcome String (Option KeyRow)) (k : KeyInfo)
      → w.row_by_hash (w.digest raw) ≡ o
      → check_queried w o ≡ ok (key_valid k)
      → FromText raw k
  unfolding check_queried check_row FromText
  text-FromText raw (err m) k e h = ground (arith, h)
  text-FromText raw (ok none) k e h = ground (arith, h)
  text-FromText raw (ok (some row)) k e h = elim (Bool-cases (not (str_eq row.status "active"))) [
    | inl a ↦ ground (arith, a, h)
    | inr a ↦ elim (Bool-cases (leb row.daily_limit row.usage_today)) [
      | inl b ↦ ground (arith, a, b, h)
      | inr b ↦ (
        row,
        e,
        key_info-IsActive row (w.group_members row.id) k a (rw (a, b) at h),
        ground (arith, b),
      )
    ]
  ]

  or_invalid_lem :
      (o : Outcome String KeyCheck) (k : KeyInfo)
      → or_invalid w o ≡ key_valid k
      → o ≡ ok (key_valid k)
  unfolding or_invalid
  or_invalid_lem (err m) k h = ground (arith, h)
  or_invalid_lem (ok c) k h = ap ok h

  id-FromId :
      (id : String) (o : Outcome String (Option KeyRow)) (bound : Option String) (k : KeyInfo)
      → bound ≡ some id
      → w.row_by_id id ≡ o
      → found_by_id w o ≡ key_valid k
      → FromId bound k
  unfolding found_by_id check_row_by_id FromId
  id-FromId id (err m) bound k b e h = ground (arith, h)
  id-FromId id (ok none) bound k b e h = ground (arith, h)
  id-FromId id (ok (some row)) bound k b e h =
      elim (Bool-cases (not (str_eq row.status "active"))) [
        | inl a ↦ ground (arith, a, h)
        | inr a ↦ (
          id,
          row,
          b,
          e,
          key_info-IsActive row (w.group_members row.id) k a
              (or_invalid_lem (key_info w row (w.group_members row.id)) k (rw a at h)),
        )
      ]

  bound-FromId :
      (bound : Option String) (k : KeyInfo)
      → validate_api_key_by_id w bound ≡ key_valid k
      → FromId bound k
  unfolding validate_api_key_by_id
  bound-FromId none k h = ground (arith, h)
  bound-FromId (some id) k h = id-FromId id (w.row_by_id id) (some id) k refl refl h

  client-TokenGives :
      (info : TokenInfo) (raw : String) (c : Outcome String KeyCheck)
      → info.client_id ≡ some raw
      → info.is_api_key ≡ true
      → validate_api_key_from_db w raw ≡ c
      → TokenGives info (client_key w info c)
  unfolding client_key TokenGives validate_api_key_from_db
  client-TokenGives info raw (ok (key_valid k)) e a h =
      (refl, inr (raw, e, a, text-FromText raw (w.row_by_hash (w.digest raw)) k refl h))
  client-TokenGives info raw (ok (key_invalid r)) e a h = plain-TokenGives info
  client-TokenGives info raw (err m) e a h = plain-TokenGives info

  by_client_id-TokenGives :
      (info : TokenInfo) (o : Option String)
      → info.client_id ≡ o
      → TokenGives info (by_client_id w info o)
  unfolding by_client_id
  by_client_id-TokenGives info none e = plain-TokenGives info
  by_client_id-TokenGives info (some raw) e =
      if_either (TokenGives info) info.is_api_key
        (client_key w info (validate_api_key_from_db w raw)) (plain_oauth w info)
        (λ a. client-TokenGives info raw (validate_api_key_from_db w raw) e a refl)
        (λ a. plain-TokenGives info)

  unmoded :
      (bound : Option String) (k : KeyInfo)
      → FromId bound k
      → FromId bound (record k { default_mode = none })
  unfolding FromId
  unmoded bound k (id, row, e, f, a) =
      (id, row, e, f, record { active = a.active; named = a.named; permitted = a.permitted })

  bound-TokenGives :
      (info : TokenInfo) (c : KeyCheck)
      → validate_api_key_by_id w (truthy info.bound_key_id) ≡ c
      → TokenGives info (bound_key w info c)
  unfolding bound_key TokenGives
  bound-TokenGives info (key_valid k) h = (
    refl,
    inl (unmoded (truthy info.bound_key_id) k (bound-FromId (truthy info.bound_key_id) k h)),
  )
  bound-TokenGives info (key_invalid r) h = by_client_id-TokenGives info info.client_id refl

  pub oauth-TokenGives : (info : TokenInfo) → TokenGives info (oauth_result w info)
  unfolding oauth_result
  oauth-TokenGives info =
      bound-TokenGives info (validate_api_key_by_id w (truthy info.bound_key_id)) refl
