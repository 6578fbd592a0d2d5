-- ===== src/Symbolic/Cbr/Laws.antt =====
-- Case-based recall shows a caller only its own settled cases.
use memento_mcp.Base.{
  suc, ◌+◌, ◌≡◌, refl, ap, String, Option, none, some, List, [], ◌∷◌, true, false, same_text,
  is_text, truthy, length, arith, eq_iff, ◌⊎◌, inl, inr, ◌≢◌, Option-cases, eq_refl,
}
use memento_mcp.Symbolic.KeyId.{RawKeyId, normalize_cbr}
use memento_mcp.Symbolic.Cbr.{
  Fragment, Block, put_result, tenant_match, blocked, Filtered, filter_from, filter,
}

-- What a caller may see: a fragment of its own tenant, in a case, not in soft quarantine, whose
-- case is resolved or has no status.
pub record IsEligible (key_id : Option String) (f : Fragment) : Type 0 where
  pub same_tenant : f.key_id ≡ key_id
  pub in_case : (c : String) × (truthy f.case_id ≡ some c)
  pub not_quarantined : f.quarantine_state ≢ some "soft"
  pub settled : (truthy f.resolution_status ≡ none) ⊎ (f.resolution_status ≡ some "resolved")

-- The items of the second list that satisfy P, in their order.
pub data Selects {ℓ κ} {A : Type ℓ} (P : A → Type κ) : List A → List A → Type (ℓ ⊔ κ) where
  done : Selects P [] []
  skip : {x : A} {xs ys : List A} → (P x → ⊥) → Selects P xs ys → Selects P xs (x ∷ ys)
  keep : {x : A} {xs ys : List A} → P x → Selects P xs ys → Selects P (x ∷ xs) (x ∷ ys)

same_text-eq : (a b : Option String) → same_text a b ≡ true → a ≡ b
same_text-eq none none h = refl
same_text-eq none (some t) h = cc
same_text-eq (some t) none h = cc
same_text-eq (some t) (some u) h = ap some ((eq_iff t u).0 h)

is_text-eq : (t : String) (o : Option String) → is_text t o ≡ true → o ≡ some t
is_text-eq t none h = cc
is_text-eq t (some u) h = ap some ((eq_iff u t).0 h)

is_text-ne : (t : String) (o : Option String) → is_text t o ≡ false → o ≢ some t
is_text-ne t none h e = cc
is_text-ne t (some u) h e = ground (arith, eq_iff u t)

blocked-IsEligible :
    (key_id : Option String) (f : Fragment) → blocked key_id f ≡ none → IsEligible key_id f
unfolding blocked tenant_match
blocked-IsEligible key_id f h = record {
  same_tenant = ground (arith, same_text-eq f.key_id key_id);
  in_case = elim (Option-cases (truthy f.case_id)) [ inl e ↦ ground arith | inr e ↦ e ];
  not_quarantined = is_text-ne "soft" f.quarantine_state (ground arith);
  settled = elim (Option-cases (truthy f.resolution_status)) [
    | inl e ↦ inl e
    | inr e ↦ inr (is_text-eq "resolved" f.resolution_status (ground (arith, e.1)))
  ];
}

same_text_refl : (a : Option String) → same_text a a ≡ true
same_text_refl none = refl
same_text_refl (some t) = (eq_iff t t).1 refl

blocked-ineligible :
    (key_id : Option String) (f : Fragment) (b : Block)
    → blocked key_id f ≡ some b
    → IsEligible key_id f
    → ⊥
unfolding blocked tenant_match
blocked-ineligible key_id f b h e =
    let c = e.in_case.1 in
    ground (
      arith,
      same_text_refl key_id,
      is_text-eq "soft" f.quarantine_state,
      eq_refl "resolved",
      e.same_tenant,
      c,
    )

put_result-Selects :
    (key_id : Option String) (f : Fragment) (fs : List Fragment) (rest : Filtered)
    (o : Option Block)
    → blocked key_id f ≡ o
    → Selects (IsEligible key_id) rest.kept fs
    → Selects (IsEligible key_id) (put_result f o rest).kept (f ∷ fs)
unfolding put_result
put_result-Selects key_id f fs rest none h s = keep (blocked-IsEligible key_id f h) s
put_result-Selects key_id f fs rest (some b) h s = skip (blocked-ineligible key_id f b h) s

filter_from-Selects :
    (key_id : Option String) (fs : List Fragment)
    → Selects (IsEligible key_id) (filter_from key_id fs).kept fs
unfolding filter_from
filter_from-Selects key_id [] = done
filter_from-Selects key_id (f ∷ fs) =
    put_result-Selects key_id f fs (filter_from key_id fs) (blocked key_id f) refl
      (filter_from-Selects key_id fs)

put_result-length :
    (f : Fragment) (o : Option Block) (rest : Filtered)
    → length (put_result f o rest).kept + length (put_result f o rest).recorded
      ≡ suc (length rest.kept + length rest.recorded)
unfolding put_result
put_result-length f none rest = omega arith
put_result-length f (some b) rest = omega arith

filter_from-length :
    (key_id : Option String) (fs : List Fragment)
    → length (filter_from key_id fs).kept + length (filter_from key_id fs).recorded ≡ length fs
unfolding filter_from
filter_from-length key_id [] = refl
filter_from-length key_id (f ∷ fs) = omega (
  arith,
  put_result-length f (blocked key_id f) (filter_from key_id fs),
  filter_from-length key_id fs,
)

-- Case-based recall returns, in their order, exactly those candidates that belong to the caller's
-- own key, are in a case, are not in soft quarantine and have a case that is resolved or has no
-- status; every other candidate is recorded once in the metric.
pub filter-Selects :
    (candidates : List Fragment) (raw : RawKeyId)
    → Selects (IsEligible (normalize_cbr raw)) (filter candidates raw).kept candidates
      × (length (filter candidates raw).kept + length (filter candidates raw).recorded
          ≡ length candidates)
unfolding filter
filter-Selects candidates raw = (
  filter_from-Selects (normalize_cbr raw) candidates,
  filter_from-length (normalize_cbr raw) candidates,
)
