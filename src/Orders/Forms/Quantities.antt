-- ===== src/Orders/Forms/Quantities.antt =====
-- The quantities in the return form of provena-web/src/app/orders/[reference]/page.tsx.
use provena.Base.{
  Any, ℕ, ◌+◌, ◌<◌, ◌≤◌, String, true, Option, none, some, List, [], ◌∷◌, ◌≡◌, refl, ◌⊎◌, inl, inr,
  arith, subst, sym, ◌==◌, string_eq, eq_iff, leb, ltb, keep, All, if_cases, sub_ℕ-positive?,
}
use provena.Types.Order.{OrderItem, SubOrder}
use provena.Orders.Card.{returned_of, returnable_for}
use provena.Orders.Forms.{
  ReturnForm, ReturnEvent, open_return, type_return_reason, less, more, cancel_return,
  return_succeeded, return_failed, no_return, qty_of, put_qty, row_max, smaller, click_less,
  click_more, on_return, selected_return_items,
}

-- `q` units of the item `id`, together with those that were sent back before, are no more than an
-- item of the part with that id was ordered, and that item may go back.
abbrev pub Covers : SubOrder → String → ℕ → OrderItem → Type 0
Covers sub id q i = (i.id ≡ id) × (i.is_returnable ≡ true) × (q + returned_of sub id ≤ i.quantity)

abbrev pub Good : SubOrder → String → ℕ → Type 0
Good sub id q = (q ≡ 0) ⊎ Any (Covers sub id q) sub.items

abbrev pub Sound : SubOrder → List (String × ℕ) → Type 0
Sound sub entries = All (λ e. Good sub e.0 e.1) entries

Any-map {ℓ} :
    {A : Type ℓ} (P Q : A → Type 0) (f : (a : A) → P a → Q a) (xs : List A) → Any P xs → Any Q xs
Any-map P Q f [] h = h
Any-map P Q f (x ∷ xs) (inl h) = inl (f x h)
Any-map P Q f (x ∷ xs) (inr h) = inr (Any-map P Q f xs h)

Good-mono : (sub : SubOrder) (id : String) (q r : ℕ) → r ≤ q → Good sub id q → Good sub id r
Good-mono sub id q r le (inl e) = inl (omega arith)
Good-mono sub id q r le (inr h) =
    inr (Any-map (Covers sub id q) (Covers sub id r) (λ i c. (c.0, c.1, omega arith)) sub.items h)

qty_of-Good :
    (sub : SubOrder) (id : String) (entries : List (String × ℕ))
    → Sound sub entries
    → Good sub id (qty_of id entries)
unfolding qty_of
qty_of-Good sub id [] h = inl refl
qty_of-Good sub id ((key, q) ∷ entries) (g, h) =
    if_cases (Good sub id) (key == id) (λ e. subst (λ k. Good sub k q) ((eq_iff key id).0 e) g)
      (λ _. qty_of-Good sub id entries h)

put_qty-Sound :
    (sub : SubOrder) (id : String) (q : ℕ) (entries : List (String × ℕ))
    → Good sub id q
    → Sound sub entries
    → Sound sub (put_qty id q entries)
unfolding put_qty
put_qty-Sound sub id q [] g h = (g, tt)
put_qty-Sound sub id q ((key, q') ∷ entries) g (g', h) =
    if_cases (Sound sub) (key == id)
      (λ e. (subst (λ k. Good sub k q) (sym ((eq_iff key id).0 e)) g, h))
      (λ _. (g', put_qty-Sound sub id q entries g h))

row_max-Covers :
    (sub : SubOrder) (item : OrderItem) (max q : ℕ)
    → row_max sub item ≡ some max
    → q ≤ max
    → Covers sub item.id q item
unfolding row_max returnable_for
row_max-Covers sub item max q e le =
    ground (arith, sub_ℕ-positive? item.quantity (returned_of sub item.id) {n = max})

click_less-Sound :
    (sub : SubOrder) (max : Option ℕ) (id : String) (f : ReturnForm)
    → Sound sub f.return_qty
    → Sound sub (click_less max id f).return_qty
unfolding click_less
click_less-Sound sub none id f h = h
click_less-Sound sub (some max) id f h =
    if_cases (λ (g : ReturnForm). Sound sub g.return_qty) (leb (qty_of id f.return_qty) 0) (λ _. h)
      (λ _.
        put_qty-Sound sub id _ f.return_qty
          (Good-mono sub id (qty_of id f.return_qty) _ (omega arith)
            (qty_of-Good sub id f.return_qty h))
          h)

click_more-Sound :
    (sub : SubOrder) (max : Option ℕ) (id : String) (f : ReturnForm)
    → ((m q : ℕ) → max ≡ some m → q ≤ m → Good sub id q)
    → Sound sub f.return_qty
    → Sound sub (click_more max id f).return_qty
unfolding click_more
click_more-Sound sub none id f fits h = h
click_more-Sound sub (some max) id f fits h =
    let q = qty_of id f.return_qty + 1 in
    if_cases (λ (g : ReturnForm). Sound sub g.return_qty) (leb max (qty_of id f.return_qty))
      (λ _. h)
      (λ _.
        put_qty-Sound sub id (smaller max q) f.return_qty
          (fits max (smaller max q) refl (ground arith)) h)

-- The rows stand for items of the part.
abbrev pub Row : SubOrder → ReturnEvent → Type 0
Row sub (less item) = Any (λ i. i ≡ item) sub.items
Row sub (more item) = Any (λ i. i ≡ item) sub.items
Row sub _ = Unit

on_return-Sound :
    (sub : SubOrder) (ev : ReturnEvent) (f : ReturnForm)
    → Row sub ev
    → Sound sub f.return_qty
    → Sound sub (on_return sub ev f).return_qty
unfolding on_return
on_return-Sound sub open_return f row h = h
on_return-Sound sub (type_return_reason value) f row h = h
on_return-Sound sub (less item) f row h = click_less-Sound sub (row_max sub item) item.id f h
on_return-Sound sub (more item) f row h =
    click_more-Sound sub (row_max sub item) item.id f
      (λ m q e le. inr (
        Any-map (λ i. i ≡ item) (Covers sub item.id q)
          (λ i same. subst (Covers sub item.id q) (sym same) (row_max-Covers sub item m q e le))
          sub.items row))
      h
on_return-Sound sub cancel_return f row h = tt
on_return-Sound sub return_succeeded f row h = tt
on_return-Sound sub (return_failed detail) f row h = h

pub run : SubOrder → List ReturnEvent → ReturnForm → ReturnForm
run sub [] f = f
run sub (ev ∷ evs) f = run sub evs (on_return sub ev f)

run-Sound :
    (sub : SubOrder) (evs : List ReturnEvent) (f : ReturnForm)
    → All (Row sub) evs
    → Sound sub f.return_qty
    → Sound sub (run sub evs f).return_qty
unfolding run
run-Sound sub [] f rows h = h
run-Sound sub (ev ∷ evs) f (row, rows) h =
    run-Sound sub evs (on_return sub ev f) rows (on_return-Sound sub ev f row h)

abbrev pub Asked : SubOrder → String × ℕ → Type 0
Asked sub e = (0 < e.1) × Any (Covers sub e.0 e.1) sub.items

covered :
    (sub : SubOrder) (id : String) (q : ℕ) → 0 < q → Good sub id q → Any (Covers sub id q) sub.items
covered sub id q above (inl e) = absurd (omega arith)
covered sub id q above (inr a) = a

selected-Asked :
    (sub : SubOrder) (entries : List (String × ℕ))
    → Sound sub entries
    → All (Asked sub) (keep (λ e. ltb 0 e.1) entries)
selected-Asked sub [] h = tt
selected-Asked sub ((id, q) ∷ entries) (g, h) =
    let rest = selected-Asked sub entries h in
    if_cases (All (Asked sub)) (ltb 0 q)
      (λ above. ((ground arith, covered sub id q (ground arith) g), rest)) (λ _. rest)

-- Whatever is clicked and typed in the form, "Return selected" asks for at least one unit of each
-- item that it names, only of items of the part that may go back, and never for more units than
-- were ordered less those that already stand in a return that was not rejected.
pub selected_return_items-run :
    (sub : SubOrder) (evs : List ReturnEvent)
    → All (Row sub) evs
    → All (Asked sub) (selected_return_items (run sub evs no_return))
unfolding selected_return_items
selected_return_items-run sub evs rows = selected-Asked sub _ (run-Sound sub evs no_return rows tt)
