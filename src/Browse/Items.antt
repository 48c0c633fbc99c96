-- ===== src/Browse/Items.antt =====
-- The items of the visitor's cart of provena-web/src/app/catalogue/_client.tsx, against the cart.
use provena.Base.{
  ℕ, ◌+◌, ◌*◌, String, Bool, true, false, not, Option, none, some, List, [], ◌∷◌, map, ◌≡◌, refl,
  ap, sym, ◌∙◌, ◌⊎◌, inl, inr, arith, ◌==◌, string_eq, eq_iff, keep, any, All, Any, sum_by,
}
use provena.Types.Catalogue.{Product, ProductVariant}
use provena.Types.Order.{CartItem, Cart}
use provena.Cart.{LocalCart, cart_count}
use provena.Goods.Finding.{find-Any, is_some, is_some-find}
use provena.Browse.{
  Amounts, find_variant, found_or, build_local_cart_items, items_count, cart_items, cart_total,
  items_of, total_of, local_item, subtotal,
}

abbrev pub has_id : String → ProductVariant → Bool
has_id variant_id v = v.id == variant_id

-- Whether a product of the page has the variant.
abbrev pub is_at_hand : List Product → String → Bool
is_at_hand products variant_id = any (λ (p : Product). any (has_id variant_id) p.variants) products

pub is_some-find_variant :
    (variant_id : String) (products : List Product)
    → is_some (find_variant variant_id products) ≡ is_at_hand products variant_id
unfolding find_variant
is_some-find_variant variant_id [] = ground arith
is_some-find_variant variant_id (p ∷ products) =
    ground
      (arith, is_some-find (has_id variant_id) p.variants, is_some-find_variant variant_id products)

abbrev pub Held : List Product → Product × ProductVariant → Type 0
Held products (product, variant) =
    Any (λ p. (p ≡ product) × Any (λ v. v ≡ variant) p.variants) products

-- An item is for a variant that a product of the page has, with its price.
abbrev pub Stands : Amounts → List Product → CartItem → Type 0
Stands a products i =
    (product : Product) × (variant : ProductVariant) × Held products (product, variant)
    × (variant.id ≡ i.variant)
    × (i.product_name ≡ product.name)
    × (i.price ≡ variant.price)
    × (i.subtotal ≡ a.fixed (a.pence i.price * i.quantity))

find_variant-cases :
    (variant_id : String) (products : List Product)
    → ((product : Product) × (variant : ProductVariant) × (find_variant variant_id products
          ≡ some (product, variant))
        × (variant.id ≡ variant_id)
        × Held products (product, variant))
      ⊎ (find_variant variant_id products ≡ none)
unfolding find_variant
find_variant-cases variant_id [] = inr refl
find_variant-cases variant_id (p ∷ products) =
    let rest = find_variant variant_id products in
    elim (find-Any (has_id variant_id) p.variants) [
      | inl (v, e, t, m) ↦
          inl (p, v, ap (λ o. found_or o p rest) e, (eq_iff v.id variant_id).0 t, inl (refl, m))
      | inr (e, missed) ↦ elim (find_variant-cases variant_id products) [
        | inl (product, variant, found, own, held) ↦
            inl (product, variant, ap (λ o. found_or o p rest) e ∙ found, own, inr held)
        | inr none_found ↦ inr (ap (λ o. found_or o p rest) e ∙ none_found)
      ]
    ]

abbrev pub entry_of : CartItem → String × ℕ
entry_of i = (i.variant, i.quantity)

abbrev pub Faithful : Amounts → List Product → LocalCart → List CartItem → Type 0
Faithful a products cart items =
    (map entry_of items ≡ keep (λ e. is_at_hand products e.0) cart) × All (Stands a products) items

build_local_cart_items-Faithful :
    (a : Amounts) (products : List Product) (cart : LocalCart)
    → Faithful a products cart (build_local_cart_items a cart products)
unfolding build_local_cart_items local_item subtotal
build_local_cart_items-Faithful a products [] = (refl, tt)
build_local_cart_items-Faithful a products ((id, quantity) ∷ cart) =
    let ih = build_local_cart_items-Faithful a products cart in
    let at_hand = is_some-find_variant id products in
    elim (find_variant-cases id products) [
      | inl (product, variant, e, own, held) ↦
          let seen : is_at_hand products id ≡ true = sym at_hand ∙ ap is_some e in
          rw (e, seen)
            (ap (◌∷◌ (id, quantity)) ih.0, ((product, variant, held, own, refl, refl, refl), ih.1))
      | inr e ↦
          let missed : is_at_hand products id ≡ false = sym at_hand ∙ ap is_some e in
          rw (e, missed) ih
    ]

-- `toFixed(2)` is read back by `parseFloat`.
abbrev pub RoundTrip : Amounts → Type 0
RoundTrip a = (n : ℕ) → a.pence (a.fixed n) ≡ n

entries_count : (items : List CartItem) → items_count items ≡ cart_count (map entry_of items)
unfolding items_count cart_count
entries_count [] = refl
entries_count (i ∷ items) = ground (arith, entries_count items)

count_split :
    (test : String × ℕ → Bool) (cart : LocalCart)
    → cart_count (keep test cart) + cart_count (keep (λ e. not (test e)) cart) ≡ cart_count cart
unfolding cart_count
count_split test [] = ground arith
count_split test (e ∷ cart) = ground (arith, count_split test cart)

abbrev pub worth : Amounts → List CartItem → ℕ
worth a items = sum_by (λ (i : CartItem). a.pence i.price * i.quantity) items

subtotals :
    (a : Amounts) (trip : RoundTrip a) (products : List Product) (items : List CartItem)
    → All (Stands a products) items
    → sum_by (λ (i : CartItem). a.pence i.subtotal) items ≡ worth a items
subtotals a trip products [] h = refl
subtotals a trip products (i ∷ items) ((product, variant, held, own, name, price, e), h) =
    ground (arith, e, trip (a.pence i.price * i.quantity), subtotals a trip products items h)

-- A visitor sees one item for each entry of the cart whose variant a product of the page has, in the
-- cart's order and with the entry's quantity, and no other item; each has the name and the price of
-- such a product. The total is the sum of prices times quantities, if an amount that is printed is
-- read back as it was. The count falls short of the cart's by what the entries that are not shown
-- hold.
pub cart_items-Faithful :
    (a : Amounts) (trip : RoundTrip a) (server_cart : Option Cart) (cart : LocalCart)
    (products : List Product)
    → Faithful a products cart (cart_items a false server_cart cart products)
      × (cart_total a false server_cart (cart_items a false server_cart cart products)
          ≡ a.fixed (worth a (cart_items a false server_cart cart products)))
      × (items_count (cart_items a false server_cart cart products)
            + cart_count (keep (λ e. not (is_at_hand products e.0)) cart)
          ≡ cart_count cart)
unfolding cart_items cart_total items_of total_of
cart_items-Faithful a trip server_cart cart products =
    let faithful = build_local_cart_items-Faithful a products cart in
    let items = build_local_cart_items a cart products in
    (
      faithful,
      ap a.fixed (subtotals a trip products items faithful.1),
      ap (λ n. n + cart_count (keep (λ e. not (is_at_hand products e.0)) cart))
            (entries_count items ∙ ap cart_count faithful.0)
          ∙ count_split (λ e. is_at_hand products e.0) cart,
    )
