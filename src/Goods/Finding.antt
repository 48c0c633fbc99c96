-- ===== src/Goods/Finding.antt =====
-- The array method `find`, as provena-web/src uses it, against `some`.
use provena.Base.{
  Bool, true, false, Option, none, some, List, [], ◌∷◌, ◌≡◌, refl, ◌⊎◌, inl, inr, arith, All, Any,
  any, if_cases,
}
use provena.Goods.{find}

pub find-Any :
    {A : Type 0} (test : A → Bool) (xs : List A)
    → ((x : A) × (find test xs ≡ some x) × (test x ≡ true) × Any (λ y. y ≡ x) xs)
      ⊎ ((find test xs ≡ none) × All (λ y. test y ≡ false) xs)
unfolding find
find-Any test [] = inr (refl, tt)
find-Any {A} test (x ∷ xs) =
    if_cases
      (λ o.
        ((y : A) × (o ≡ some y) × (test y ≡ true) × Any (λ z. z ≡ y) (x ∷ xs))
        ⊎ ((o ≡ none) × All (λ y. test y ≡ false) (x ∷ xs)))
      (test x) (λ yes. inl (x, refl, yes, inl refl))
      (λ no. elim (find-Any test xs) [
        | inl (y, e, t, m) ↦ inl (y, e, t, inr m)
        | inr (e, h) ↦ inr (e, (no, h))
      ])

abbrev pub is_some {ℓ} : {A : Type ℓ} → Option A → Bool
is_some none = false
is_some (some x) = true

pub is_some-find :
    {A : Type 0} (test : A → Bool) (xs : List A) → is_some (find test xs) ≡ any test xs
unfolding find
is_some-find test [] = ground arith
is_some-find test (x ∷ xs) = ground (arith, is_some-find test xs)
