-- ===== src/Viewed/Recency.antt =====
-- The list of recently viewed products of provena-web/src/store/recently-viewed.ts: bounded, without
-- duplicates, the latest first.
use provena.Base.{
  ℕ, zero, suc, ◌≤◌, String, Bool, not, List, [], ◌∷◌, ◌≡◌, ◌≢◌, refl, ap, ◌∙◌, arith, ◌==◌,
  string_eq, eq_iff, keep, take, length, All, if_cases, length-take,
}
use provena.Viewed.{add_product, max_items}

module _ {ℓ} {Product : Type ℓ} (slug : Product → String) where
  -- No two products have one slug.
  abbrev pub Distinct : List Product → Type 0
  Distinct [] = Unit
  Distinct (p ∷ ps) = All (λ q. slug q ≢ slug p) ps × Distinct ps

  keep-All :
      (P : Product → Type 0) (test : Product → Bool) (ps : List Product)
      → All P ps
      → All P (keep test ps)
  keep-All P test [] h = tt
  keep-All P test (p ∷ ps) (a, h) =
      if_cases (All P) (test p) (λ _. (a, keep-All P test ps h)) (λ _. keep-All P test ps h)

  keep-Distinct :
      (test : Product → Bool) (ps : List Product) → Distinct ps → Distinct (keep test ps)
  keep-Distinct test [] h = tt
  keep-Distinct test (p ∷ ps) (a, h) =
      if_cases Distinct (test p) (λ _. (keep-All _ test ps a, keep-Distinct test ps h))
        (λ _. keep-Distinct test ps h)

  take-All : (P : Product → Type 0) (n : ℕ) (ps : List Product) → All P ps → All P (take n ps)
  take-All P zero ps h = tt
  take-All P (suc n) [] h = tt
  take-All P (suc n) (p ∷ ps) (a, h) = (a, take-All P n ps h)

  take-Distinct : (n : ℕ) (ps : List Product) → Distinct ps → Distinct (take n ps)
  take-Distinct zero ps h = tt
  take-Distinct (suc n) [] h = tt
  take-Distinct (suc n) (p ∷ ps) (a, h) = (take-All _ n ps a, take-Distinct n ps h)

  kept_differ :
      (product : Product) (ps : List Product)
      → All (λ q. slug q ≢ slug product) (keep (λ p. not (slug p == slug product)) ps)
  kept_differ product [] = tt
  kept_differ product (p ∷ ps) =
      if_cases (All (λ q. slug q ≢ slug product)) (not (slug p == slug product))
        (λ differ. (ground (arith, eq_iff (slug p) (slug product)), kept_differ product ps))
        (λ _. kept_differ product ps)

  -- The store after a history of views, the latest last.
  pub after : List Product → List Product → List Product
  after [] products = products
  after (p ∷ views) products = after views (add_product slug p products)

  pub record Tidy (products : List Product) : Type 0 where
    pub distinct : Distinct products
    pub bounded : length products ≤ max_items

  add_product-Tidy :
      (product : Product) (products : List Product)
      → Tidy products
      → Tidy (add_product slug product products)
  unfolding add_product
  add_product-Tidy product products t = record {
    distinct =
        take-Distinct max_items (product ∷ keep (λ p. not (slug p == slug product)) products)
          (kept_differ product products, keep-Distinct _ products t.distinct);
    bounded = omega (
      arith,
      length-take max_items (product ∷ keep (λ p. not (slug p == slug product)) products),
    );
  }

  -- After any history of views that starts from the empty store, or from any tidy one, the store
  -- holds at most eight products and no two with one slug.
  pub after-Tidy : (views products : List Product) → Tidy products → Tidy (after views products)
  unfolding after
  after-Tidy [] products t = t
  after-Tidy (p ∷ views) products t =
      after-Tidy views (add_product slug p products) (add_product-Tidy p products t)

  keep_again :
      (product : Product) (n : ℕ) (ps : List Product)
      → keep
          (λ p. not (slug p == slug product))
          (take n (keep (λ p. not (slug p == slug product)) ps))
        ≡ take n (keep (λ p. not (slug p == slug product)) ps)
  keep_again product n ps = keep_all _ (take-All _ n _ (kept_differ product ps))
    where
      keep_all :
          (qs : List Product)
          → All (λ q. slug q ≢ slug product) qs
          → keep (λ p. not (slug p == slug product)) qs ≡ qs
      keep_all [] h = refl
      keep_all (q ∷ qs) (a, h) = ground (arith, eq_iff (slug q) (slug product), keep_all qs h)

  take_twice : (n : ℕ) (ps : List Product) → take n (take n ps) ≡ take n ps
  take_twice zero ps = refl
  take_twice (suc n) [] = refl
  take_twice (suc n) (p ∷ ps) = ap (◌∷◌ p) (take_twice n ps)

  skips_self :
      (product : Product) (ps : List Product)
      → keep (λ p. not (slug p == slug product)) (product ∷ ps)
        ≡ keep (λ p. not (slug p == slug product)) ps
  skips_self product ps = ground (arith, eq_iff (slug product) (slug product))

  -- To view a product twice in a row leaves the store as one view does.
  pub add_product_twice :
      (product : Product) (products : List Product)
      → add_product slug product (add_product slug product products)
        ≡ add_product slug product products
  unfolding add_product
  add_product_twice product products =
      let kept = keep (λ p. not (slug p == slug product)) products in
      ap (λ ks. product ∷ take 7 ks)
        (skips_self product (take 7 kept) ∙ keep_again product 7 products)
      ∙ ap (◌∷◌ product) (take_twice 7 kept)
