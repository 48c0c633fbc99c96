-- ===== src/Viewed.antt =====
-- provena-web/src/store/recently-viewed.ts and the strip that shows it, in
-- provena-web/src/components/recently-viewed.tsx. Of a product only the slug is looked at, so the
-- type of products is a parameter with its slug.
pub mod Recency
use provena.Base.{
  ℕ, String, Bool, true, not, Option, none, some, List, [], ◌∷◌, ◌==◌, string_eq, keep, take,
  is_empty, if◌then◌else◌,
}

abbrev pub max_items : ℕ
max_items = 8

module _ {ℓ} {Product : Type ℓ} (slug : Product → String) where
  unfoldable pub add_product : Product → List Product → List Product
  add_product product products =
      take max_items (product ∷ keep (λ p. not (slug p == slug product)) products)

  -- `p.slug !== excludeSlug`; with no slug to exclude every product stays.
  abbrev pub not_excluded : Option String → Product → Bool
  not_excluded none p = true
  not_excluded (some exclude_slug) p = not (slug p == exclude_slug)

  -- The products of the strip; `none` where nothing is rendered.
  unfoldable pub strip : Bool → Option String → List Product → Option (List Product)
  strip hydrated exclude_slug products =
      let items = take 8 (keep (not_excluded exclude_slug) products) in
      if not hydrated then none else if is_empty items then none else some items
