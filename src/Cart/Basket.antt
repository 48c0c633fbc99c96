-- ===== src/Cart/Basket.antt =====
-- What the visitor's cart of provena-web/src/app/catalogue/_client.tsx promises: it is a basket, which
-- knows for each variant how many units of it are wanted, and nothing else.
use provena.Base.{
  ℕ, zero, suc, ◌+◌, String, false, List, [], ◌∷◌, ◌≡◌, refl, ap, ◌∙◌, arith, ◌==◌, string_eq,
  eq_iff, if◌then◌else◌, ℤ, pos, negsuc, fun_ext,
}
use provena.Cart.{
  Page, get, handle_add_to_cart, handle_update_quantity, handle_remove_from_cart, or_zero,
}
use provena.Cart.Quantities.{Event, adds, updates, removes, handle, run, expected, get-handle}

abbrev pub Basket : Type 0
Basket = String → ℕ

-- The basket's own account of an event, with no order and no entries.
pub put : String → ℕ → Basket → Basket
put variant_id n basket k = if variant_id == k then n else basket k

abbrev wanted : ℤ → ℕ
wanted (pos n) = n
wanted (negsuc n) = 0

pub basket_step : Event → Basket → Basket
unfolding put
basket_step (adds variant_id) basket = put variant_id (basket variant_id + 1) basket
basket_step (updates item_id quantity) basket = put item_id (wanted quantity) basket
basket_step (removes item_id) basket = put item_id 0 basket

pub basket_run : List Event → Basket → Basket
unfolding basket_step
basket_run [] basket = basket
basket_run (ev ∷ evs) basket = basket_run evs (basket_step ev basket)

-- What a page's cart stands for.
abbrev pub basket_of : Page → Basket
basket_of p k = or_zero (get k p.local_cart)

handle-user : (ev : Event) (p : Page) → p.user ≡ false → (handle ev p).user ≡ false
unfolding handle handle_add_to_cart handle_update_quantity handle_remove_from_cart
handle-user (adds id) p h = ground arith
handle-user (updates id (pos zero)) p h = ground arith
handle-user (updates id (pos (suc n))) p h = ground arith
handle-user (updates id (negsuc n)) p h = ground arith
handle-user (removes id) p h = ground arith

expected-basket :
    (ev : Event) (k : String) (p : Page)
    → or_zero (expected ev k (get k p.local_cart)) ≡ basket_step ev (basket_of p) k
unfolding basket_step put
expected-basket (adds id) k p = ground (arith, eq_iff id k)
expected-basket (updates id (pos zero)) k p = ground arith
expected-basket (updates id (pos (suc n))) k p = ground arith
expected-basket (updates id (negsuc n)) k p = ground arith
expected-basket (removes id) k p = ground arith

handle-basket :
    (ev : Event) (p : Page)
    → p.user ≡ false
    → basket_of (handle ev p) ≡ basket_step ev (basket_of p)
handle-basket ev p h = fun_ext (λ k. ap or_zero (get-handle ev k p h).0 ∙ expected-basket ev k p)

-- After any history of events the cart of a visitor who is not signed in stands for the basket that
-- the same history makes of the one it stood for before, and no request was sent.
pub run-refines :
    (evs : List Event) (p : Page)
    → p.user ≡ false
    → (basket_of (run evs p) ≡ basket_run evs (basket_of p)) × ((run evs p).mutations ≡ p.mutations)
unfolding run basket_run
run-refines [] p h = (refl, refl)
run-refines (ev ∷ evs) p h =
    let (same, quiet) = run-refines evs (handle ev p) (handle-user ev p h) in
    (same ∙ ap (basket_run evs) (handle-basket ev p h), quiet ∙ (get-handle ev "" p h).1)
