-- ===== src/Goods/Hearts.antt =====
-- The heart of a card of provena-web/src/components/product-card.tsx against the wishlist of the page
-- around it.
use provena.Base.{
  String, Bool, true, false, not, Option, none, some, List, ◌∷◌, ◌≡◌, ◌⊎◌, inl, inr, refl, ap, ◌∙◌,
}
use provena.Types.Catalogue.{Product, ProductVariant, WishlistItem}
use provena.Requests.Shop.{CartCall, add_to_wishlist, remove_from_wishlist}
use provena.Goods.{first}
use provena.Goods.Card.{Card, appears, toggle, handle_wishlist}
use provena.Goods.Detail.{wishlist_item, toggle_call, toggle_of}

-- The request that a click on the card makes the page send.
abbrev pub sent : List WishlistItem → Option String → Option CartCall
sent wishlist none = none
sent wishlist (some variant_id) = some (toggle_call wishlist variant_id)

abbrev pub present : Option WishlistItem → Bool
present none = false
present (some w) = true

module _ (product : Product) (v : ProductVariant) (vs : List ProductVariant)
    (shown : product.variants ≡ v ∷ vs) (wishlist : List WishlistItem) where
  on_click :
      (c : Card)
      → handle_wishlist product c ≡ (record c { wishlisted = not c.wishlisted }, some v.id)
  unfolding handle_wishlist toggle
  on_click c = ap (λ variants. toggle c (first variants)) shown

  -- Where a card shows whether its variant is in the wishlist, a click on the heart fills it exactly
  -- when the request that is sent adds the variant; else the heart is emptied and the request removes
  -- the item that was found.
  pub handle_wishlist-sent :
      (c : Card)
      → c.wishlisted ≡ present (wishlist_item v.id wishlist)
      → let clicked = handle_wishlist product c in
        ((clicked.0.wishlisted ≡ true) × (sent wishlist clicked.1 ≡ some (add_to_wishlist v.id)))
        ⊎ ((clicked.0.wishlisted ≡ false)
            × (w : WishlistItem) × (wishlist_item v.id wishlist ≡ some w)
            × (sent wishlist clicked.1 ≡ some (remove_from_wishlist w.id)))
  unfolding toggle_call
  handle_wishlist-sent c e = by_item (wishlist_item v.id wishlist) refl
    where
      by_item :
          (o : Option WishlistItem)
          → wishlist_item v.id wishlist ≡ o
          → let clicked = handle_wishlist product c in
            ((clicked.0.wishlisted ≡ true)
              × (sent wishlist clicked.1 ≡ some (add_to_wishlist v.id)))
            ⊎ ((clicked.0.wishlisted ≡ false)
                × (w : WishlistItem) × (wishlist_item v.id wishlist ≡ some w)
                × (sent wishlist clicked.1 ≡ some (remove_from_wishlist w.id)))
      by_item none missed = inl (
        ap (λ p. p.0.wishlisted) (on_click c) ∙ ap not (e ∙ ap present missed),
        ap (λ p. sent wishlist p.1) (on_click c) ∙ ap (λ o. some (toggle_of v.id o)) missed,
      )
      by_item (some w) found = inr (
        ap (λ p. p.0.wishlisted) (on_click c) ∙ ap not (e ∙ ap present found),
        w,
        found,
        ap (λ p. sent wishlist p.1) (on_click c) ∙ ap (λ o. some (toggle_of v.id o)) found,
      )

  -- If a card appears before the wishlist that holds its variant, a click on the heart shows the
  -- product as saved, and the request that is sent removes it.
  pub late_wishlist :
      (w : WishlistItem)
      → wishlist_item v.id wishlist ≡ some w
      → let clicked = handle_wishlist product (appears false) in
        (clicked.0.wishlisted ≡ true) × (sent wishlist clicked.1 ≡ some (remove_from_wishlist w.id))
  unfolding appears toggle_call
  late_wishlist w found = (
    ap (λ p. p.0.wishlisted) (on_click (appears false)),
    ap (λ p. sent wishlist p.1) (on_click (appears false))
        ∙ ap (λ o. some (toggle_of v.id o)) found,
  )
