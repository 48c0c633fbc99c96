-- ===== src/Cart/Quantities.antt =====
-- The visitor's cart of provena-web/src/app/catalogue/_client.tsx as a finite map, and its invariant.
use provena.Base.{
  ℕ, zero, suc, ◌+◌, ◌<◌, String, false, Option, none, some, List, [], ◌∷◌, ◌≡◌, ◌≢◌, refl, arith,
  ◌==◌, string_eq, eq_iff, All, if◌then◌else◌, if_cases, ℤ, pos, negsuc,
}
use provena.Cart.{
  LocalCart, get, set, delete, Page, handle_add_to_cart, handle_update_quantity,
  handle_remove_from_cart, cart_count, or_zero,
}

abbrev pub Absent : String → LocalCart → Type 0
Absent key cart = All (λ e. e.0 ≢ key) cart

-- Each variant has one entry, and no entry is for nothing.
abbrev pub IsCart : LocalCart → Type 0
IsCart [] = Unit
IsCart (e ∷ entries) = (0 < e.1) × Absent e.0 entries × IsCart entries

set-Absent :
    (key k : String) (q : ℕ) (cart : LocalCart)
    → k ≢ key
    → Absent key cart
    → Absent key (set k q cart)
unfolding set
set-Absent key k q [] ne h = (ne, tt)
set-Absent key k q ((j, q') ∷ entries) ne (a, h) =
    if_cases (Absent key) (j == k) (λ _. (a, h)) (λ _. (a, set-Absent key k q entries ne h))

delete-Absent : (key k : String) (cart : LocalCart) → Absent key cart → Absent key (delete k cart)
unfolding delete
delete-Absent key k [] h = tt
delete-Absent key k ((j, q) ∷ entries) (a, h) =
    if_cases (Absent key) (j == k) (λ _. delete-Absent key k entries h)
      (λ _. (a, delete-Absent key k entries h))

set-IsCart :
    (key : String) (q : ℕ) (cart : LocalCart) → 0 < q → IsCart cart → IsCart (set key q cart)
unfolding set
set-IsCart key q [] above h = (above, tt, tt)
set-IsCart key q ((k, q') ∷ entries) above (p, a, h) =
    if_cases IsCart (k == key) (λ _. (above, a, h))
      (λ differ. (
        p,
        set-Absent k key q entries (ground (arith, eq_iff k key)) a,
        set-IsCart key q entries above h,
      ))

delete-IsCart : (key : String) (cart : LocalCart) → IsCart cart → IsCart (delete key cart)
unfolding delete
delete-IsCart key [] h = tt
delete-IsCart key ((k, q) ∷ entries) (p, a, h) =
    if_cases IsCart (k == key) (λ _. delete-IsCart key entries h)
      (λ _. (p, delete-Absent k key entries a, delete-IsCart key entries h))

-- The map's laws: what is read after a write or a removal.
get-set :
    (key k : String) (q : ℕ) (cart : LocalCart)
    → get k (set key q cart) ≡ (if key == k then some q else get k cart)
unfolding get set
get-set key k q [] = refl
get-set key k q ((j, q') ∷ entries) =
    ground (arith, eq_iff key k, eq_iff j k, eq_iff j key, get-set key k q entries)

get-delete :
    (key k : String) (cart : LocalCart)
    → get k (delete key cart) ≡ (if key == k then none else get k cart)
unfolding get delete
get-delete key k [] = ground arith
get-delete key k ((j, q) ∷ entries) =
    ground (arith, eq_iff key k, eq_iff j k, eq_iff j key, get-delete key k entries)

count-set :
    (key : String) (q : ℕ) (cart : LocalCart)
    → cart_count (set key q cart) + or_zero (get key cart) ≡ cart_count cart + q
unfolding cart_count set get
count-set key q [] = omega arith
count-set key q ((j, q') ∷ entries) = ground (arith, count-set key q entries)

-- What a visitor can do with the cart.
pub data Event : Type 0 where
  adds : (variant_id : String) → Event
  updates : (item_id : String) (quantity : ℤ) → Event
  removes : (item_id : String) → Event

unfoldable pub handle : Event → Page → Page
handle (adds variant_id) p = handle_add_to_cart variant_id p
handle (updates item_id quantity) p = handle_update_quantity item_id quantity p
handle (removes item_id) p = handle_remove_from_cart item_id p

abbrev pub if_positive : ℤ → Option ℕ
if_positive (pos zero) = none
if_positive (negsuc n) = none
if_positive (pos (suc n)) = some (suc n)

-- The quantity of a variant after an event.
abbrev pub expected : Event → String → Option ℕ → Option ℕ
expected (adds variant_id) k before = if variant_id == k then some (or_zero before + 1) else before
expected (updates item_id quantity) k before = if item_id == k then if_positive quantity else before
expected (removes item_id) k before = if item_id == k then none else before

-- For a visitor who is not signed in each event changes the quantity of its own variant as asked,
-- where a quantity of zero or less removes it, changes no other variant, and sends no request.
pub get-handle :
    (ev : Event) (k : String) (p : Page)
    → p.user ≡ false
    → (get k (handle ev p).local_cart ≡ expected ev k (get k p.local_cart))
      × ((handle ev p).mutations ≡ p.mutations)
unfolding handle handle_add_to_cart handle_update_quantity handle_remove_from_cart
get-handle (adds id) k p anonymous =
    ground (arith, get-set id k (or_zero (get id p.local_cart) + 1) p.local_cart, eq_iff id k)
get-handle (updates id (pos zero)) k p anonymous = ground (arith, get-delete id k p.local_cart)
get-handle (updates id (negsuc n)) k p anonymous = ground (arith, get-delete id k p.local_cart)
get-handle (updates id (pos (suc n))) k p anonymous =
    ground (arith, get-set id k (suc n) p.local_cart)
get-handle (removes id) k p anonymous = ground (arith, get-delete id k p.local_cart)

handle-IsCart : (ev : Event) (p : Page) → IsCart p.local_cart → IsCart (handle ev p).local_cart
unfolding handle handle_add_to_cart handle_update_quantity handle_remove_from_cart
handle-IsCart (adds id) p h =
    if_cases (λ (q : Page). IsCart q.local_cart) p.user (λ _. h)
      (λ _. set-IsCart id (or_zero (get id p.local_cart) + 1) p.local_cart (omega arith) h)
handle-IsCart (updates id (pos zero)) p h =
    if_cases (λ (q : Page). IsCart q.local_cart) p.user (λ _. h)
      (λ _. delete-IsCart id p.local_cart h)
handle-IsCart (updates id (negsuc n)) p h =
    if_cases (λ (q : Page). IsCart q.local_cart) p.user (λ _. h)
      (λ _. delete-IsCart id p.local_cart h)
handle-IsCart (updates id (pos (suc n))) p h =
    if_cases (λ (q : Page). IsCart q.local_cart) p.user (λ _. h)
      (λ _. set-IsCart id (suc n) p.local_cart (omega arith) h)
handle-IsCart (removes id) p h =
    if_cases (λ (q : Page). IsCart q.local_cart) p.user (λ _. h)
      (λ _. delete-IsCart id p.local_cart h)

unfoldable pub run : List Event → Page → Page
run [] p = p
run (ev ∷ evs) p = run evs (handle ev p)

-- After any history of events the visitor's cart has one entry for each variant at most, and every
-- entry is for at least one unit.
pub run-IsCart : (evs : List Event) (p : Page) → IsCart p.local_cart → IsCart (run evs p).local_cart
unfolding run
run-IsCart [] p h = h
run-IsCart (ev ∷ evs) p h = run-IsCart evs (handle ev p) (handle-IsCart ev p h)

-- Adding a variant raises the count that the page shows by one.
pub count-add :
    (id : String) (p : Page)
    → p.user ≡ false
    → cart_count (handle_add_to_cart id p).local_cart ≡ cart_count p.local_cart + 1
unfolding handle_add_to_cart
count-add id p anonymous =
    ground (arith, count-set id (or_zero (get id p.local_cart) + 1) p.local_cart)
