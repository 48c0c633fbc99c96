-- ===== src/Home/Recent.antt =====
-- The cart of provena-web/src/app/page.tsx and the products that are not featured there.
use provena.Base.{
  ℕ, ◌+◌, String, false, Option, none, some, List, [], ◌∷◌, ◌++◌, ◌≡◌, refl, ap, ◌∙◌, ◌==◌,
  string_eq, eq_iff, if_cases,
}
use provena.Types.Catalogue.{Product}
use provena.Types.Order.{Cart}
use provena.Cart.{Page, LocalCart, set, get, handle_add_to_cart, or_zero}
use provena.Browse.{Amounts, build_local_cart_items, find_variant, item_or_nothing, items_of}
use provena.Browse as Browse
use provena.Goods.Finding.{is_some}
use provena.Browse.Items.{is_at_hand, is_some-find_variant}
use provena.Home.{cart_items}

not_some : {A : Type 0} (o : Option A) → is_some o ≡ false → o ≡ none
not_some none e = refl
not_some (some x) e = cc

set-not_found :
    (a : Amounts) (featured : List Product) (id : String) (n : ℕ) (cart : LocalCart)
    → find_variant id featured ≡ none
    → build_local_cart_items a (set id n cart) featured ≡ build_local_cart_items a cart featured
unfolding set build_local_cart_items
set-not_found a featured id n [] e = rw e refl
set-not_found a featured id n ((k, q) ∷ cart) e =
    if_cases
      (λ l. build_local_cart_items a l featured ≡ build_local_cart_items a ((k, q) ∷ cart) featured)
      (k == id)
      (λ same.
        let missed : find_variant k featured ≡ none =
          ap (λ v. find_variant v featured) ((eq_iff k id).0 same) ∙ e in
        rw missed refl)
      (λ other.
        ap (λ l. item_or_nothing a k q (find_variant k featured) ++ l)
          (set-not_found a featured id n cart e))

-- A visitor who puts a product into the cart that is not among the featured ones, as one of those that
-- were viewed, sees the same cart as before, with the same count and total.
pub recent_missing :
    (a : Amounts) (server_cart : Option Cart) (featured : List Product) (id : String) (p : Page)
    → p.user ≡ false
    → is_at_hand featured id ≡ false
    → cart_items a false server_cart (handle_add_to_cart id p).local_cart featured
      ≡ cart_items a false server_cart p.local_cart featured
unfolding cart_items Browse.cart_items items_of handle_add_to_cart
recent_missing a server_cart featured id p anonymous missing = rw anonymous (
    set-not_found a featured id (or_zero (get id p.local_cart) + 1) p.local_cart
      (not_some (find_variant id featured) (is_some-find_variant id featured ∙ missing)))
