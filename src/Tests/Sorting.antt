-- ===== src/Tests/Sorting.antt =====
-- A sort that is as the language's standard says of the one that provena-web/src calls.
use mathlib.Core.List.{Perm}
use mathlib.Core.List.Perm
use provena.Base.{
  Bool, true, false, List, [], ◌∷◌, ◌≡◌, refl, sym, ap, ◌∙◌, arith, if_cases, if◌then◌else◌, keep,
  All, ℤ, pos, negsuc,
}
use provena.Types.Catalogue.{Product}
use provena.Browse.{Sort}
use provena.Browse.Ordered.{Sorts, Consistent, InOrder, above, below}

abbrev pub insert : (Product → Product → ℤ) → Product → List Product → List Product
insert compare x [] = x ∷ []
insert compare x (y ∷ l) =
    let rest = insert compare x l in if above (compare x y) then y ∷ rest else x ∷ y ∷ l

abbrev pub insertion : Sort
insertion compare [] = []
insertion compare (x ∷ l) = insert compare x (insertion compare l)

insert-perm :
    (compare : Product → Product → ℤ) (x : Product) (l : List Product)
    → Perm (insert compare x l) (x ∷ l)
insert-perm compare x [] = Perm.refl _
insert-perm compare x (y ∷ l) =
    if_cases (λ r. Perm r (x ∷ y ∷ l)) (above (compare x y))
      (λ _. Perm.trans (Perm.cons y (insert-perm compare x l)) (Perm.swap x y l)) (λ _. Perm.refl _)

insertion-perm : (compare : Product → Product → ℤ) (l : List Product) → Perm (insertion compare l) l
insertion-perm compare [] = Perm.refl _
insertion-perm compare (x ∷ l) =
    Perm.trans (insert-perm compare x (insertion compare l))
      (Perm.cons x (insertion-perm compare l))

module _ (compare : Product → Product → ℤ) (c : Consistent compare) where
  abbrev R : Product → Product → Type 0
  R p q = above (compare p q) ≡ false

  below-above : (z : ℤ) → below z ≡ true → above z ≡ false
  below-above (pos n) e = cc
  below-above (negsuc n) e = refl

  All-insert :
      (y x : Product) (l : List Product) → R y x → All (R y) l → All (R y) (insert compare x l)
  All-insert y x [] r h = (r, tt)
  All-insert y x (z ∷ l) r (s, h) =
      if_cases (All (R y)) (above (compare x z)) (λ _. (s, All-insert y x l r h)) (λ _. (r, (s, h)))

  All-trans : (x y : Product) (l : List Product) → R x y → All (R y) l → All (R x) l
  All-trans x y [] r h = tt
  All-trans x y (z ∷ l) r (s, h) = (c.trans x y z r s, All-trans x y l r h)

  insert-InOrder : (x : Product) (l : List Product) → InOrder R l → InOrder R (insert compare x l)
  insert-InOrder x [] h = (tt, tt)
  insert-InOrder x (y ∷ l) (h, rest) =
      if_cases (InOrder R) (above (compare x y))
        (λ e. (
          All-insert y x l (below-above (compare y x) (sym (c.mirrors x y) ∙ e)) h,
          insert-InOrder x l rest,
        ))
        (λ e. ((e, All-trans x y l e h), (h, rest)))

  insertion-InOrder : (l : List Product) → InOrder R (insertion compare l)
  insertion-InOrder [] = tt
  insertion-InOrder (x ∷ l) = insert-InOrder x (insertion compare l) (insertion-InOrder l)

module _ (compare : Product → Product → ℤ) (test : Product → Bool)
    (ties : (p q : Product) → test p ≡ true → test q ≡ true → compare p q ≡ pos 0) where
  not_above : (p q : Product) → test p ≡ true → test q ≡ true → above (compare p q) ≡ false
  not_above p q h k = ap above (ties p q h k)

  keep-insert :
      (x : Product) (l : List Product) → keep test (insert compare x l) ≡ keep test (x ∷ l)
  keep-insert x [] = refl
  keep-insert x (y ∷ l) = ground (arith, keep-insert x l, not_above x y)

  keep-insertion : (l : List Product) → keep test (insertion compare l) ≡ keep test l
  keep-insertion [] = refl
  keep-insertion (x ∷ l) =
      keep-insert x (insertion compare l)
      ∙ ap (λ rest. if test x then x ∷ rest else rest) (keep-insertion l)

pub insertion-Sorts : Sorts insertion
insertion-Sorts = record {
  permutes = insertion-perm;
  ordered = λ compare l c. insertion-InOrder compare c l;
  stable = λ compare test l c ties. keep-insertion compare test ties l;
}
