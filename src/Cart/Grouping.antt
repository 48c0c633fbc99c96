-- ===== src/Cart/Grouping.antt =====
-- The grouping of the products of provena-web/src/app/catalogue/_client.tsx by supplier.
use mathlib.Core.List.{Perm, perm_middle}
use mathlib.Core.List.Perm
use provena.Base.{
  String, List, [], ◌∷◌, ◌++◌, ◌≡◌, ◌≢◌, refl, sym, subst, arith, ◌==◌, string_eq, eq_iff, All,
  if_cases, append_assoc, append-nil, All-append, keep, ap, ◌∙◌, if◌then◌else◌,
}
use provena.Cart.{Group, add_to_group, group_from, group_by_supplier}

module _ {ℓ} {Product : Type ℓ} (slug name : Product → String) where
  abbrev pub all_products : List (Group Product) → List Product
  all_products [] = []
  all_products (g ∷ groups) = g.products ++ all_products groups

  -- The products of a group are its supplier's, and no other group has the same supplier.
  abbrev pub Separate : List (Group Product) → Type 0
  Separate [] = Unit
  Separate (g ∷ groups) =
      All (λ p. slug p ≡ g.supplier_slug) g.products
      × All (λ (h : Group Product). h.supplier_slug ≢ g.supplier_slug) groups
      × Separate groups

  add_last :
      (ps : List Product) (p : Product) (qs : List Product)
      → Perm ((ps ++ p ∷ []) ++ qs) (p ∷ (ps ++ qs))
  add_last ps p qs =
      subst (λ l. Perm l (p ∷ (ps ++ qs))) (sym (append_assoc ps (p ∷ []) qs)) (perm_middle ps qs)

  add_to_group-perm :
      (p : Product) (groups : List (Group Product))
      → Perm (all_products (add_to_group slug name p groups)) (p ∷ all_products groups)
  unfolding add_to_group
  add_to_group-perm p [] = Perm.refl _
  add_to_group-perm p (g ∷ groups) =
      if_cases (λ gs. Perm (all_products gs) (p ∷ all_products (g ∷ groups)))
        (g.supplier_slug == slug p) (λ _. add_last g.products p (all_products groups))
        (λ _.
          Perm.trans (Perm.append_left g.products (add_to_group-perm p groups))
            (perm_middle g.products (all_products groups)))

  add_to_group-other :
      (key : String) (p : Product) (groups : List (Group Product))
      → slug p ≢ key
      → All (λ (h : Group Product). h.supplier_slug ≢ key) groups
      → All (λ (h : Group Product). h.supplier_slug ≢ key) (add_to_group slug name p groups)
  unfolding add_to_group
  add_to_group-other key p [] ne h = (ne, tt)
  add_to_group-other key p (g ∷ groups) ne (a, h) =
      if_cases (All (λ (h : Group Product). h.supplier_slug ≢ key)) (g.supplier_slug == slug p)
        (λ _. (a, h)) (λ _. (a, add_to_group-other key p groups ne h))

  add_to_group-Separate :
      (p : Product) (groups : List (Group Product))
      → Separate groups
      → Separate (add_to_group slug name p groups)
  unfolding add_to_group
  add_to_group-Separate p [] h = ((refl, tt), tt, tt)
  add_to_group-Separate p (g ∷ groups) (own, others, h) =
      if_cases Separate (g.supplier_slug == slug p)
        (λ same. (
          All-append (λ p. slug p ≡ g.supplier_slug) g.products (p ∷ []) own
              (sym ((eq_iff _ _).0 same), tt),
          others,
          h,
        ))
        (λ other. (
          own,
          add_to_group-other g.supplier_slug p groups
              (ground (arith, eq_iff g.supplier_slug (slug p))) others,
          add_to_group-Separate p groups h,
        ))

  group_from-perm :
      (groups : List (Group Product)) (ps : List Product)
      → Perm (all_products (group_from slug name groups ps)) (all_products groups ++ ps)
  unfolding group_from
  group_from-perm groups [] =
      subst (Perm (all_products groups)) (sym (append-nil (all_products groups))) (Perm.refl _)
  group_from-perm groups (p ∷ ps) =
      Perm.trans (group_from-perm (add_to_group slug name p groups) ps) (
        Perm.trans (Perm.append_right ps (add_to_group-perm p groups))
          (Perm.symm (perm_middle (all_products groups) ps)))

  group_from-Separate :
      (groups : List (Group Product)) (ps : List Product)
      → Separate groups
      → Separate (group_from slug name groups ps)
  unfolding group_from
  group_from-Separate groups [] h = h
  group_from-Separate groups (p ∷ ps) h =
      group_from-Separate (add_to_group slug name p groups) ps (add_to_group-Separate p groups h)

  -- Every product of the page stands in exactly as many groups as it stands in the page: the
  -- groups' products are a permutation of the page's. A group holds its own supplier's products
  -- only, and no two groups have the same supplier.
  pub group_by_supplier_perm :
      (products : List Product)
      → Perm (all_products (group_by_supplier slug name products)) products
        × Separate (group_by_supplier slug name products)
  unfolding group_by_supplier group_from add_to_group
  group_by_supplier_perm products =
      (group_from-perm [] products, group_from-Separate [] products tt)

  -- The products that stand under a supplier, and those of a page that are its own.
  pub group_of : String → List (Group Product) → List Product
  group_of key [] = []
  group_of key (g ∷ groups) = if g.supplier_slug == key then g.products else group_of key groups

  abbrev pub own_products : String → List Product → List Product
  own_products key products = keep (λ p. slug p == key) products

  group_of-add :
      (key : String) (p : Product) (groups : List (Group Product))
      → group_of key (add_to_group slug name p groups)
        ≡ group_of key groups ++ own_products key (p ∷ [])
  unfolding group_of add_to_group
  group_of-add key p [] = refl
  group_of-add key p (g ∷ groups) = ground (
    arith,
    group_of-add key p groups,
    append-nil g.products,
    append-nil (group_of key groups),
    eq_iff g.supplier_slug (slug p),
    eq_iff g.supplier_slug key,
    eq_iff (slug p) key,
  )

  own_products-cons :
      (key : String) (p : Product) (ps : List Product)
      → own_products key (p ∷ []) ++ own_products key ps ≡ own_products key (p ∷ ps)
  own_products-cons key p ps =
      if_cases (λ l. l ++ own_products key ps ≡ own_products key (p ∷ ps)) (slug p == key)
        (λ own. rw own refl) (λ other. rw other refl)

  group_of-from :
      (key : String) (groups : List (Group Product)) (ps : List Product)
      → group_of key (group_from slug name groups ps) ≡ group_of key groups ++ own_products key ps
  unfolding group_from
  group_of-from key groups [] = sym (append-nil (group_of key groups))
  group_of-from key groups (p ∷ ps) =
      group_of-from key (add_to_group slug name p groups) ps
      ∙ ap (λ l. l ++ own_products key ps) (group_of-add key p groups)
      ∙ append_assoc (group_of key groups) (own_products key (p ∷ [])) (own_products key ps)
      ∙ ap (λ l. group_of key groups ++ l) (own_products-cons key p ps)

  -- What the one pass over the page collects under a supplier is what filtering the page for that
  -- supplier gives, in the page's order.
  pub group_of-group_by_supplier :
      (key : String) (products : List Product)
      → group_of key (group_by_supplier slug name products) ≡ own_products key products
  unfolding group_by_supplier group_of group_from add_to_group
  group_of-group_by_supplier key products = group_of-from key [] products
