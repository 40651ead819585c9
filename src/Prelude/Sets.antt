-- ===== src/Prelude/Sets.antt =====
-- Distinct elements, and elements that are new to what a set has seen when they are inserted one
-- after the other.
use mathlib.Core.Path.{◌≡◌, refl, sym}
use mathlib.Core.Logic.{◌≢◌, ◌↔◌}
use mathlib.Core.Bool.{Bool, true, false}
use mathlib.Core.List.{List, [], ◌∷◌, ◌++◌}
use native.Mathlib.Omega.{arith}
use nvim_remote_mirror.Prelude.Lists.{any, All}

module _ {ℓ} {A : Type ℓ} where
  abbrev pub NotIn : A → List A → Type ℓ
  NotIn v names = All (λ other. v ≢ other) names

  abbrev pub Distinct : List A → Type ℓ
  Distinct [] = Unit
  Distinct (v ∷ rest) = NotIn v rest × Distinct rest

  -- Distinct, and none of them seen before.
  abbrev pub Fresh : List A → List A → Type ℓ
  Fresh seen [] = Unit
  Fresh seen (v ∷ rest) = NotIn v seen × Fresh (v ∷ seen) rest

  abbrev pub seen_after : List A → List A → List A
  seen_after seen [] = seen
  seen_after seen (v ∷ rest) = seen_after (v ∷ seen) rest

  -- The two lists one after the other.
  pub Fresh-append :
      (xs ys seen : List A)
      → Fresh seen (xs ++ ys) ↔ (Fresh seen xs × Fresh (seen_after seen xs) ys)
  Fresh-append [] ys seen = (λ f. (tt, f), λ k. k.1)
  Fresh-append (x ∷ xs) ys seen =
      let ih = Fresh-append xs ys (x ∷ seen) in
      (λ f. let (a, b) = ih.0 f.1 in ((f.0, a), b), λ k. (k.0.0, ih.1 (k.0.1, k.1)))

  abbrev pub Apart : List A → List A → Type ℓ
  Apart seen vs = All (λ v. NotIn v seen) vs

  NotIn-Apart : (v : A) (vs : List A) → NotIn v vs ↔ Apart (v ∷ []) vs
  NotIn-Apart v [] = (λ h. tt, λ h. tt)
  NotIn-Apart v (w ∷ vs) =
      let ih = NotIn-Apart v vs in
      (λ h. ((λ e. h.0 (sym e), tt), ih.0 h.1), λ k. (λ e. k.0.0 (sym e), ih.1 k.1))

  Apart-cons :
      (v : A) (seen vs : List A) → Apart (v ∷ seen) vs ↔ (Apart (v ∷ []) vs × Apart seen vs)
  Apart-cons v seen [] = (λ h. (tt, tt), λ h. tt)
  Apart-cons v seen (w ∷ vs) =
      let ih = Apart-cons v seen vs in
      (
        λ h. let (a, b) = ih.0 h.1 in (((h.0.0, tt), a), (h.0.1, b)),
        λ k. ((k.0.0.0, k.1.0), ih.1 (k.0.1, k.1.1)),
      )

  pub Fresh-Distinct : (seen vs : List A) → Fresh seen vs ↔ (Apart seen vs × Distinct vs)
  Fresh-Distinct seen [] = (λ f. (tt, tt), λ k. tt)
  Fresh-Distinct seen (v ∷ vs) =
      let ih = Fresh-Distinct (v ∷ seen) vs in
      let split = Apart-cons v seen vs in
      (
        λ f.
            let (apart, distinct) = ih.0 f.1 in
            let (own, others) = split.0 apart in
            ((f.0, others), ((NotIn-Apart v vs).1 own, distinct)),
        λ k. (k.0.0, ih.1 (split.1 ((NotIn-Apart v vs).0 k.1.0, k.0.1), k.1.1)),
      )

  pub Apart-nil : (vs : List A) → Apart [] vs
  Apart-nil [] = tt
  Apart-nil (v ∷ vs) = (tt, Apart-nil vs)

module _ {ℓ} {A : Type ℓ} (eq : A → A → Bool) (eq_iff : (x y : A) → (eq x y ≡ true) ↔ (x ≡ y)) where
  -- A search that finds nothing.
  pub NotIn-iff : (v : A) (seen : List A) → (any (eq v) seen ≡ false) ↔ NotIn v seen
  NotIn-iff v [] = (λ h. tt, λ h. refl)
  NotIn-iff v (w ∷ seen) = (
    λ h. (λ e. ground (arith, eq_iff v w), (NotIn-iff v seen).0 (ground arith)),
    λ k. ground (arith, eq_iff v w, (NotIn-iff v seen).1 k.1, k.0),
  )
