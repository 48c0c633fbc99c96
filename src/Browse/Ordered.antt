-- ===== src/Browse/Ordered.antt =====
-- The order of the products of provena-web/src/app/catalogue/_client.tsx, over the language's `sort`.
use mathlib.Core.List.{Perm}
use mathlib.Core.List.Perm
use provena.Base.{
  ℕ, ◌≤◌, String, Bool, true, false, List, [], ◌∷◌, ◌≡◌, refl, sym, ap, subst, ◌∙◌, arith, ◌==◌,
  nat_eq, string_eq, if_cases, ltb, keep, All, ℤ, pos, negsuc,
}
use provena.Types.Catalogue.{Product}
use provena.Cart.Grouping.{
  all_products, Separate, group_by_supplier_perm, group_of, own_products,
  group_of-group_by_supplier,
}
use provena.Browse.{
  Amounts, Sort, SortKey, best_match, price_asc, price_desc, price_of, cheaper, dearer, is_offered,
  filtered, grouped, apply_sort,
}

abbrev pub above : ℤ → Bool
above (pos n) = ltb 0 n
above (negsuc n) = false

abbrev pub below : ℤ → Bool
below (pos n) = false
below (negsuc n) = true

-- A consistent comparison, as the language's standard has it: an order up to ties.
pub record Consistent (compare : Product → Product → ℤ) : Type 0 where
  pub mirrors : (p q : Product) → above (compare p q) ≡ below (compare q p)
  pub trans :
      (p q r : Product)
      → above (compare p q) ≡ false
      → above (compare q r) ≡ false
      → above (compare p r) ≡ false

module _ {ℓ} {A : Type ℓ} where
  abbrev pub InOrder : (A → A → Type 0) → List A → Type 0
  InOrder R [] = Unit
  InOrder R (x ∷ xs) = All (R x) xs × InOrder R xs

  pub All-keep : (P : A → Type 0) (test : A → Bool) (xs : List A) → All P xs → All P (keep test xs)
  All-keep P test [] h = tt
  All-keep P test (x ∷ xs) (p, h) =
      if_cases (All P) (test x) (λ _. (p, All-keep P test xs h)) (λ _. All-keep P test xs h)

  pub InOrder-keep :
      (R : A → A → Type 0) (test : A → Bool) (xs : List A) → InOrder R xs → InOrder R (keep test xs)
  InOrder-keep R test [] h = tt
  InOrder-keep R test (x ∷ xs) (p, h) =
      if_cases (InOrder R) (test x) (λ _. (All-keep (R x) test xs p, InOrder-keep R test xs h))
        (λ _. InOrder-keep R test xs h)

  All-weaken : (P Q : A → Type 0) (xs : List A) → ((x : A) → P x → Q x) → All P xs → All Q xs
  All-weaken P Q [] f h = tt
  All-weaken P Q (x ∷ xs) f (p, h) = (f x p, All-weaken P Q xs f h)

  InOrder-weaken :
      (R S : A → A → Type 0) (xs : List A)
      → ((x y : A) → R x y → S x y)
      → InOrder R xs
      → InOrder S xs
  InOrder-weaken R S [] f h = tt
  InOrder-weaken R S (x ∷ xs) f (p, h) =
      (All-weaken (R x) (S x) xs (f x) p, InOrder-weaken R S xs f h)

  pub keep-keep : (s t : A → Bool) (xs : List A) → keep s (keep t xs) ≡ keep t (keep s xs)
  keep-keep s t [] = ground arith
  keep-keep s t (x ∷ xs) = ground (arith, keep-keep s t xs)

-- What the standard says of `sort`: it permutes the list, it puts it into the order of a consistent
-- comparison, and it leaves elements that tie in the order that they had.
pub record Sorts (sort : Sort) : Type 0 where
  pub permutes : (compare : Product → Product → ℤ) (l : List Product) → Perm (sort compare l) l
  pub ordered :
      (compare : Product → Product → ℤ) (l : List Product)
      → Consistent compare
      → InOrder (λ p q. above (compare p q) ≡ false) (sort compare l)
  pub stable :
      (compare : Product → Product → ℤ) (test : Product → Bool) (l : List Product)
      → Consistent compare
      → ((p q : Product) → test p ≡ true → test q ≡ true → compare p q ≡ pos 0)
      → keep test (sort compare l) ≡ keep test l

abbrev pub slug_of : Product → String
slug_of p = p.supplier_slug

abbrev pub name_of : Product → String
name_of p = p.supplier_name

module _ (a : Amounts) where
  pub cheaper-Consistent : Consistent (cheaper a)
  cheaper-Consistent = record { mirrors = λ p q. ground arith; trans = λ p q r h k. ground arith }

  pub dearer-Consistent : Consistent (dearer a)
  dearer-Consistent = record { mirrors = λ p q. ground arith; trans = λ p q r h k. ground arith }

  abbrev pub costs : ℕ → Product → Bool
  costs n p = price_of a p == n

  -- How the products of a supplier stand, against those of the page: as there where no order is chosen,
  -- and else in the order of their prices, with those of one price as there.
  abbrev pub Arranged : SortKey → ℕ → List Product → List Product → Type 0
  Arranged best_match n shown page = shown ≡ page
  Arranged price_asc n shown page =
      InOrder (λ p q. price_of a p ≤ price_of a q) shown
      × (keep (costs n) shown ≡ keep (costs n) page)
  Arranged price_desc n shown page =
      InOrder (λ p q. price_of a q ≤ price_of a p) shown
      × (keep (costs n) shown ≡ keep (costs n) page)

  apply_sort-perm :
      (sort : Sort)
      → Sorts sort
      → (l : List Product) (key : SortKey) → Perm (apply_sort a sort l key) l
  unfolding apply_sort
  apply_sort-perm sort s l best_match = Perm.refl _
  apply_sort-perm sort s l price_asc = s.permutes (cheaper a) l
  apply_sort-perm sort s l price_desc = s.permutes (dearer a) l

  own_ties :
      (sort : Sort) (s : Sorts sort) (compare : Product → Product → ℤ) (slug : String) (n : ℕ)
      (l : List Product)
      → Consistent compare
      → ((p q : Product) → costs n p ≡ true → costs n q ≡ true → compare p q ≡ pos 0)
      → keep (costs n) (own_products slug_of name_of slug (sort compare l))
        ≡ keep (costs n) (own_products slug_of name_of slug l)
  own_ties sort s compare slug n l c ties =
      keep-keep (costs n) (λ (p : Product). p.supplier_slug == slug) (sort compare l)
      ∙ ap (own_products slug_of name_of slug) (s.stable compare (costs n) l c ties)
      ∙ keep-keep (λ (p : Product). p.supplier_slug == slug) (costs n) l

  apply_sort-Arranged :
      (sort : Sort)
      → Sorts sort
      → (l : List Product) (key : SortKey) (slug : String) (n : ℕ)
      → Arranged key n
          (own_products slug_of name_of slug (apply_sort a sort l key))
          (own_products slug_of name_of slug l)
  unfolding apply_sort
  apply_sort-Arranged sort s l best_match slug n = refl
  apply_sort-Arranged sort s l price_asc slug n = (
    InOrder-keep (λ p q. price_of a p ≤ price_of a q) (λ (p : Product). p.supplier_slug == slug)
        (sort (cheaper a) l)
        (InOrder-weaken (λ p q. above (cheaper a p q) ≡ false) (λ p q. price_of a p ≤ price_of a q)
          (sort (cheaper a) l) (λ p q h. ground arith)
          (s.ordered (cheaper a) l cheaper-Consistent)),
    own_ties sort s (cheaper a) slug n l cheaper-Consistent (λ p q h k. ground arith),
  )
  apply_sort-Arranged sort s l price_desc slug n = (
    InOrder-keep (λ p q. price_of a q ≤ price_of a p) (λ (p : Product). p.supplier_slug == slug)
        (sort (dearer a) l)
        (InOrder-weaken (λ p q. above (dearer a p q) ≡ false) (λ p q. price_of a q ≤ price_of a p)
          (sort (dearer a) l) (λ p q h. ground arith) (s.ordered (dearer a) l dearer-Consistent)),
    own_ties sort s (dearer a) slug n l dearer-Consistent (λ p q h k. ground arith),
  )

-- The groups hold each product that is offered as often as the page has it, and no other; a group
-- has one supplier's products only, and no two groups have the same supplier. Under each supplier
-- the products stand as on the page, where no order is chosen, and else from cheap to dear or from
-- dear to cheap, as chosen, with those of one price as on the page. `sort` is any sort that is as
-- the language's standard says.
pub grouped-Arranged :
    (a : Amounts) (sort : Sort) (s : Sorts sort) (products : List Product) (key : SortKey)
    (slug : String) (n : ℕ)
    → Perm (all_products slug_of name_of (grouped a sort products key)) (keep is_offered products)
      × Separate slug_of name_of (grouped a sort products key)
      × Arranged a key n
          (group_of slug_of name_of slug (grouped a sort products key))
          (own_products slug_of name_of slug (keep is_offered products))
unfolding grouped filtered
grouped-Arranged a sort s products key slug n =
    let l = keep is_offered products in
    let parts = group_by_supplier_perm slug_of name_of (apply_sort a sort l key) in
    (
      Perm.trans parts.0 (apply_sort-perm a sort s l key),
      parts.1,
      subst (λ shown. Arranged a key n shown (own_products slug_of name_of slug l))
          (sym (group_of-group_by_supplier slug_of name_of slug (apply_sort a sort l key)))
          (apply_sort-Arranged a sort s l key slug n),
    )
