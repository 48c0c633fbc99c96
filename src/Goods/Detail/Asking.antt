-- ===== src/Goods/Detail/Asking.antt =====
-- What the page of provena-web/src/app/catalogue/[slug]/_client.tsx asks the API for, over a history of
-- events on it.
use provena.Base.{
  ℕ, ◌≤◌, String, true, false, Option, none, some, List, [], ◌∷◌, ◌≡◌, ◌≢◌, ◌⊎◌, inl, inr, refl,
  sym, ap, ◌∙◌, subst, arith, All, Any, ◌==◌, string_eq, eq_iff,
}
use provena.Types.Catalogue.{Product, ProductVariant, WishlistItem}
use provena.Requests.Shop.{add_to_cart, add_to_wishlist, remove_from_wishlist}
use provena.Goods.{first, or_other}
use provena.Goods.Finding.{find-Any}
use provena.Goods.Detail.{
  Detail, initial, Event, on_event, active_variant, offered, add_of, toggle_of, add_to_cart_call,
  toggle_call, wishlist_item,
}

abbrev pub run : List Event → Detail → Detail
run [] d = d
run (ev ∷ evs) d = run evs (on_event ev d)

-- A variant of the product that is for sale, or that is offered since none of its variants is.
abbrev pub Sold : Product → ProductVariant → Type 0
Sold product v =
    Any (λ w. w ≡ v) product.variants
    × ((v.is_active ≡ true) ⊎ All (λ (w : ProductVariant). w.is_active ≡ false) product.variants)

-- The page has a button for each variant that is for sale, and no other.
abbrev pub HasButton : Product → Event → Type 0
HasButton product ev =
    (v : ProductVariant)
    → ev ≡ Event.choose v
    → Any (λ w. w ≡ v) product.variants × (v.is_active ≡ true)

-- The state asks for at least one unit, and a variant that was chosen is for sale.
record Sound (product : Product) (d : Detail) : Type 0 where
  units : 1 ≤ d.qty
  chosen : (v : ProductVariant) → d.selected_variant ≡ some v → Sold product v

on_event-Sound :
    (product : Product) (ev : Event) (d : Detail)
    → HasButton product ev
    → Sound product d
    → Sound product (on_event ev d)
unfolding on_event
on_event-Sound product (Event.choose v) d h s = record {
  units = omega arith;
  chosen = λ w e.
      let same : v ≡ w = ground (arith, e) in
      subst (Sold product) same ((h v refl).0, inl (h v refl).1);
}
on_event-Sound product Event.fewer d h s = record { units = ground arith; chosen = s.chosen }
on_event-Sound product Event.more d h s = record { units = omega arith; chosen = s.chosen }
on_event-Sound product Event.view_cart d h s = record { units = s.units; chosen = s.chosen }
on_event-Sound product Event.close_cart d h s = record { units = s.units; chosen = s.chosen }
on_event-Sound product Event.added d h s = record { units = s.units; chosen = s.chosen }
on_event-Sound product (Event.show_image idx) d h s = record { units = s.units; chosen = s.chosen }
on_event-Sound product (Event.rate star) d h s = record { units = s.units; chosen = s.chosen }
on_event-Sound product (Event.type_title value) d h s = record {
  units = s.units;
  chosen = s.chosen;
}
on_event-Sound product (Event.type_body value) d h s = record { units = s.units; chosen = s.chosen }
on_event-Sound product Event.reviewed d h s = record { units = s.units; chosen = s.chosen }
on_event-Sound product (Event.review_refused detail) d h s = record {
  units = s.units;
  chosen = s.chosen;
}

run-Sound :
    (product : Product) (evs : List Event) (d : Detail)
    → All (HasButton product) evs
    → Sound product d
    → Sound product (run evs d)
run-Sound product [] d h s = s
run-Sound product (ev ∷ evs) d (own, h) s =
    run-Sound product evs (on_event ev d) h (on_event-Sound product ev d own s)

-- What the page offers first, for a product with a variant.
offered-Sold :
    (product : Product) (v0 : ProductVariant) (vs : List ProductVariant)
    → product.variants ≡ v0 ∷ vs
    → (v : ProductVariant) × (offered (some product) ≡ some v) × Sold product v
offered-Sold product v0 vs e =
    elim (find-Any (λ (w : ProductVariant). w.is_active) product.variants) [
      | inl (v, found, live, m) ↦
          (v, ap (λ o. or_other o (first product.variants)) found, (m, inl live))
      | inr (missed, none_active) ↦ (
        v0,
        ap (λ o. or_other o (first product.variants)) missed ∙ ap first e,
        (subst (Any (λ w. w ≡ v0)) (sym e) (inl refl), inr none_active),
      )
    ]

active-Sold :
    (product : Product) (v0 : ProductVariant) (vs : List ProductVariant) (d : Detail)
    → product.variants ≡ v0 ∷ vs
    → Sound product d
    → (v : ProductVariant) × (active_variant (some product) d ≡ some v) × Sold product v
unfolding active_variant
active-Sold product v0 vs d e s = by_choice d.selected_variant refl
  where
    by_choice :
        (o : Option ProductVariant)
        → d.selected_variant ≡ o
        → (v : ProductVariant) × (or_other d.selected_variant (offered (some product)) ≡ some v)
          × Sold product v
    by_choice none none_chosen =
        let (v, found, sold) = offered-Sold product v0 vs e in
        (v, ap (λ o. or_other o (offered (some product))) none_chosen ∙ found, sold)
    by_choice (some v) chosen =
        (v, ap (λ o. or_other o (offered (some product))) chosen, s.chosen v chosen)

-- Whatever happens on the page of a product that has a variant, the button asks to add at least one
-- unit of a variant of that product, and of one that is for sale unless none of them is.
pub run-Sold :
    (product : Product) (v0 : ProductVariant) (vs : List ProductVariant) (evs : List Event)
    → product.variants ≡ v0 ∷ vs
    → All (HasButton product) evs
    → (v : ProductVariant) × (n : ℕ) × (add_to_cart_call (some product) (run evs initial)
        ≡ some (add_to_cart v.id n))
      × (1 ≤ n)
      × Sold product v
unfolding add_to_cart_call
run-Sold product v0 vs evs e h =
    let d = run evs initial in
    let s =
      run-Sound product evs initial h
        (record { units = omega arith; chosen = λ v ne. ground (arith, ne) }) in
    let (v, active, sold) = active-Sold product v0 vs d e s in
    (v, d.qty, ap (add_of d.qty) active, s.units, sold)

-- A toggle of the heart removes from the wishlist, by the item's identifier, an item of the variant
-- that is in it; and it adds the variant exactly where the wishlist has no item of it.
pub toggle_call-cases :
    (wishlist : List WishlistItem) (variant_id : String)
    → ((w : WishlistItem) × (toggle_call wishlist variant_id ≡ remove_from_wishlist w.id)
        × (w.variant ≡ variant_id)
        × Any (λ x. x ≡ w) wishlist)
      ⊎ ((toggle_call wishlist variant_id ≡ add_to_wishlist variant_id)
          × All (λ (w : WishlistItem). w.variant ≢ variant_id) wishlist)
unfolding toggle_call wishlist_item
toggle_call-cases wishlist variant_id =
    elim (find-Any (λ (w : WishlistItem). w.variant == variant_id) wishlist) [
      | inl (w, found, same, m) ↦ inl (w, ap (toggle_of variant_id) found, (eq_iff _ _).0 same, m)
      | inr (missed, others) ↦ inr (ap (toggle_of variant_id) missed, none_same wishlist others)
    ]
  where
    none_same :
        (ws : List WishlistItem)
        → All (λ (w : WishlistItem). w.variant == variant_id ≡ false) ws
        → All (λ (w : WishlistItem). w.variant ≢ variant_id) ws
    none_same [] h = tt
    none_same (w ∷ ws) (own, h) = (ground (arith, own, eq_iff w.variant variant_id), none_same ws h)
