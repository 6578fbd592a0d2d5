-- ===== src/Base/Members.antt =====
-- Membership in the lists that `filter` and a Boolean `includes` make.
use Prim.Native.String.{String}
use text.Mathlib.Text.{◌==◌ as str_eq}
use text.Mathlib.TextEquality.{eq_iff}
use mathlib.Core.Path.{◌≡◌, refl, sym, ap, ◌∙◌}
use mathlib.Core.Logic.{◌⊎◌, inl, inr, ◌↔◌}
use mathlib.Core.Bool.{Bool, true, false}
use mathlib.Core.List.{List, [], ◌∷◌, ◌++◌, Memᴰ}
use mathlib.Core.List.Memᴰ
use native.Mathlib.Omega.{arith}
use memento_mcp.Base.Logic.{if◌then◌else◌, Bool-cases}
use memento_mcp.Base.Lists.{keep_if}
use memento_mcp.Base.Text.{includes}

module _ {ℓ} {A : Type ℓ} where
  kept_cons :
      (b : Bool) {a x : A} {ys : List A}
      → Memᴰ a (if b then x ∷ ys else ys)
      → ((a ≡ x) × (b ≡ true)) ⊎ Memᴰ a ys
  kept_cons true m = elim (Memᴰ.cases_cons m) [ inl e ↦ inl (e, refl) | inr m' ↦ inr m' ]
  kept_cons false m = inr m

  kept_later :
      (b : Bool) (x : A) {a : A} {ys : List A} → Memᴰ a ys → Memᴰ a (if b then x ∷ ys else ys)
  kept_later true x m = Memᴰ.tail m
  kept_later false x m = m

  pub Memᴰ-keep_if :
      (p : A → Bool) (a : A) (xs : List A) → Memᴰ a (keep_if p xs) ↔ (Memᴰ a xs × (p a ≡ true))
  Memᴰ-keep_if p a xs = (kept_from xs, λ h. kept_in xs h.0 h.1)
    where
      kept_from : (xs : List A) → Memᴰ a (keep_if p xs) → Memᴰ a xs × (p a ≡ true)
      kept_from [] m = elim m [ ]
      kept_from (x ∷ xs) m = elim (kept_cons (p x) m) [
        | inl (e, h) ↦ (Memᴰ.head e, ap p e ∙ h)
        | inr m' ↦ let (m'', h) = kept_from xs m' in (Memᴰ.tail m'', h)
      ]

      kept_in : (xs : List A) → Memᴰ a xs → p a ≡ true → Memᴰ a (keep_if p xs)
      kept_in (x ∷ xs) m h = elim (Memᴰ.cases_cons m) [
        | inl e ↦ rw (sym (ap p e) ∙ h) (Memᴰ.head e)
        | inr m' ↦ kept_later (p x) x (kept_in xs m' h)
      ]
      kept_in [] m h = elim m [ ]

pub includes-append :
    (v w : List String) (y : String)
    → includes (v ++ w) y ≡ (if includes v y then true else includes w y)
includes-append [] w y = refl
includes-append (z ∷ v) w y = ground (arith, includes-append v w y)

pub includes-Memᴰ : (xs : List String) (y : String) → (includes xs y ≡ true) ↔ Memᴰ y xs
includes-Memᴰ xs y = (found xs, listed xs)
  where
    found : (xs : List String) → includes xs y ≡ true → Memᴰ y xs
    found [] h = ground (arith, h)
    found (x ∷ xs) h = elim (Bool-cases (str_eq x y)) [
      | inl e ↦ Memᴰ.head (sym ((eq_iff x y).0 e))
      | inr e ↦ Memᴰ.tail (found xs (rw e at h))
    ]

    listed : (xs : List String) → Memᴰ y xs → includes xs y ≡ true
    listed [] m = elim m [ ]
    listed (x ∷ xs) m = elim (Memᴰ.cases_cons m) [
      | inl e ↦ ground (arith, (eq_iff x y).1 (sym e))
      | inr m' ↦ ground (arith, listed xs m')
    ]
