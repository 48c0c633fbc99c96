-- ===== src/Admin/Products/Selection.antt =====
-- The selection of provena-web/src/app/admin/products/page.tsx over its events.
use provena.Base.{
  String, Bool, true, false, ◌&&◌, ◌||◌, not, List, [], ◌∷◌, ◌++◌, ◌≡◌, refl, ap, arith, ◌==◌,
  string_eq, eq_iff, if_cases, if◌then◌else◌,
}
use provena.Admin.Products.{
  ProductsPage, Event, choose_tab, type_search, check_row, check_all, clear, bulk_ended, listed,
  on_event, has, add, delete, add_all, delete_all, toggle_row, toggle_all, all_checked, all_visible,
  every,
}

has-append : (s t : String) (set : List String) → has s (set ++ t ∷ []) ≡ (has s set || t == s)
unfolding has
has-append s t [] = ground arith
has-append s t (x ∷ set) = ground (arith, has-append s t set)

has-add : (s t : String) (set : List String) → has s (add t set) ≡ (has s set || t == s)
unfolding add
has-add s t set =
    if_cases (λ l. has s l ≡ (has s set || t == s)) (has t set)
      (λ h. ground (arith, h, eq_iff t s, ap (λ u. has u set) {x = t} {y = s}))
      (λ h. has-append s t set)

has-delete : (s t : String) (set : List String) → has s (delete t set) ≡ (has s set && not (t == s))
unfolding has delete
has-delete s t [] = ground arith
has-delete s t (x ∷ set) = ground (arith, has-delete s t set, eq_iff x t, eq_iff x s, eq_iff t s)

has-add_all :
    (s : String) (slugs set : List String) → has s (add_all slugs set) ≡ (has s set || has s slugs)
unfolding add_all has
has-add_all s [] set = ground arith
has-add_all s (t ∷ slugs) set = ground (arith, has-add_all s slugs (add t set), has-add s t set)

has-delete_all :
    (s : String) (slugs set : List String)
    → has s (delete_all slugs set) ≡ (has s set && not (has s slugs))
unfolding delete_all has
has-delete_all s [] set = ground arith
has-delete_all s (t ∷ slugs) set =
    ground (arith, has-delete_all s slugs (delete t set), has-delete s t set)

-- No slug twice.
abbrev pub Once : List String → Type 0
Once [] = Unit
Once (slug ∷ set) = (has slug set ≡ false) × Once set

Once-append : (t : String) (set : List String) → has t set ≡ false → Once set → Once (set ++ t ∷ [])
unfolding has
Once-append t [] e h = (refl, tt)
Once-append t (x ∷ set) e (new, h) = (
  ground (arith, has-append x t set, new, e, eq_iff x t, eq_iff t x),
  Once-append t set (ground (arith, e)) h,
)

Once-add : (t : String) (set : List String) → Once set → Once (add t set)
unfolding add
Once-add t set h = if_cases Once (has t set) (λ _. h) (λ e. Once-append t set e h)

Once-delete : (t : String) (set : List String) → Once set → Once (delete t set)
unfolding delete
Once-delete t [] h = tt
Once-delete t (x ∷ set) (new, h) =
    if_cases Once (not (x == t))
      (λ _. (ground (arith, has-delete x t set, new), Once-delete t set h))
      (λ _. Once-delete t set h)

Once-add_all : (slugs set : List String) → Once set → Once (add_all slugs set)
unfolding add_all
Once-add_all [] set h = h
Once-add_all (t ∷ slugs) set h = Once-add_all slugs (add t set) (Once-add t set h)

Once-delete_all : (slugs set : List String) → Once set → Once (delete_all slugs set)
unfolding delete_all
Once-delete_all [] set h = h
Once-delete_all (t ∷ slugs) set h = Once-delete_all slugs (delete t set) (Once-delete t set h)

-- Whether a slug is selected after an event.
abbrev pub expected : (String → String → Bool) → Event → ProductsPage → String → Bool
expected contains (choose_tab key) p s = false
expected contains (type_search entry) p s = has s p.selected
expected contains (check_row slug) p s =
    if slug == s then not (has s p.selected) else has s p.selected
expected contains check_all p s =
    if has s (all_visible contains p) then not (all_checked contains p) else has s p.selected
expected contains clear p s = false
expected contains bulk_ended p s = false
expected contains (listed products) p s = has s p.selected

has-toggle_row :
    (s slug : String) (set : List String)
    → has s (toggle_row slug set) ≡ (if slug == s then not (has s set) else has s set)
unfolding toggle_row
has-toggle_row s slug set = ground (
  arith,
  has-add s slug set,
  has-delete s slug set,
  eq_iff slug s,
  ap (λ u. has u set) {x = slug} {y = s},
)

toggle_row-Once : (slug : String) (set : List String) → Once set → Once (toggle_row slug set)
unfolding toggle_row
toggle_row-Once slug set h =
    if_cases Once (has slug set) (λ _. Once-delete slug set h) (λ _. Once-add slug set h)

toggle_all-Once :
    (contains : String → String → Bool) (p : ProductsPage)
    → Once p.selected
    → Once (toggle_all contains p)
unfolding toggle_all
toggle_all-Once contains p h =
    if_cases Once (all_checked contains p)
      (λ _. Once-delete_all (all_visible contains p) p.selected h)
      (λ _. Once-add_all (all_visible contains p) p.selected h)

every-has :
    (test : String → Bool) (l : List String) (s : String)
    → every test l ≡ true
    → has s l ≡ true
    → test s ≡ true
unfolding has
every-has test [] s e h = cc
every-has test (x ∷ l) s e h =
    ground (arith, every-has test l s, e, h, eq_iff x s, ap test {x = x} {y = s})

has-toggle_all :
    (contains : String → String → Bool) (p : ProductsPage) (s : String)
    → has s (toggle_all contains p) ≡ expected contains check_all p s
unfolding toggle_all all_checked
has-toggle_all contains p s = ground (
  arith,
  has-delete_all s (all_visible contains p) p.selected,
  has-add_all s (all_visible contains p) p.selected,
  every-has (λ t. has t p.selected) (all_visible contains p) s,
)

-- After each event a slug is selected as one expects: the box of a row changes that row alone; the
-- box above the rows makes every row that the search shows the same, selected unless all of them
-- were, and changes no other; a new tab, the clearing and a bulk action that has succeeded select
-- none; and nothing else changes the selection. No slug is ever selected twice.
pub on_event-selects :
    (contains : String → String → Bool) (ev : Event) (p : ProductsPage) (s : String)
    → Once p.selected
    → (has s (on_event contains ev p).selected ≡ expected contains ev p s)
      × Once (on_event contains ev p).selected
unfolding on_event has
on_event-selects contains (choose_tab key) p s h = (refl, tt)
on_event-selects contains (type_search entry) p s h = (refl, h)
on_event-selects contains (check_row slug) p s h =
    (has-toggle_row s slug p.selected, toggle_row-Once slug p.selected h)
on_event-selects contains check_all p s h =
    (has-toggle_all contains p s, toggle_all-Once contains p h)
on_event-selects contains clear p s h = (refl, tt)
on_event-selects contains bulk_ended p s h = (refl, tt)
on_event-selects contains (listed products) p s h = (refl, h)
