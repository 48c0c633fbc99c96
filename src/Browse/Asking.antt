-- ===== src/Browse/Asking.antt =====
-- What provena-web/src/app/catalogue/_client.tsx asks for, over histories of events.
use provena.Base.{
  String, Option, none, some, List, [], ◌∷◌, ◌≡◌, refl, sym, subst, arith, ◌==◌, string_eq,
  is_blank, if_cases, if◌then◌else◌,
}
use provena.Requests.{Value, Fields, text}
use provena.Browse.{
  BrowsePage, initial, Event, select, type, type_min, type_max, clear_prices, toggle_sort,
  close_sort, toggle_filter, open_cart, close_cart, choose_sort, toggle_wishlist, timer_ends,
  on_event, set_search, end_timer, product_params,
}

unfoldable pub run : List Event → BrowsePage → BrowsePage
run [] p = p
run (ev ∷ evs) p = run evs (on_event ev p)

-- A timer that is set holds the text of the search box; where none is, that text is in force.
abbrev Held : Option String → String → String → Type 0
Held none in_force shown = in_force ≡ shown
Held (some s) in_force shown = s ≡ shown

abbrev Timed : BrowsePage → Type 0
Timed p = Held p.timer p.debounced_search p.search

end_timer-Timed :
    (timer : Option String) (p : BrowsePage)
    → p.timer ≡ timer
    → Held timer p.debounced_search p.search
    → Timed (end_timer timer p)
unfolding end_timer
end_timer-Timed none p e h = subst (λ t. Held t p.debounced_search p.search) (sym e) h
end_timer-Timed (some s) p e h = h

on_event-Timed : (ev : Event) (p : BrowsePage) → Timed p → Timed (on_event ev p)
unfolding on_event set_search end_timer
on_event-Timed (select slug) p h = h
on_event-Timed (type entry) p h = if_cases Timed (p.search == entry) (λ _. h) (λ _. refl)
on_event-Timed (type_min price) p h = h
on_event-Timed (type_max price) p h = h
on_event-Timed clear_prices p h = h
on_event-Timed toggle_sort p h = h
on_event-Timed close_sort p h = h
on_event-Timed toggle_filter p h = h
on_event-Timed open_cart p h = h
on_event-Timed close_cart p h = h
on_event-Timed (choose_sort key) p h = h
on_event-Timed (toggle_wishlist variant_id) p h = h
on_event-Timed timer_ends p h = end_timer-Timed p.timer p refl h

run-Timed : (evs : List Event) (p : BrowsePage) → Timed p → Timed (run evs p)
unfolding run
run-Timed [] p h = h
run-Timed (ev ∷ evs) p h = run-Timed evs (on_event ev p) (on_event-Timed ev p h)

-- What a request has in a field.
pub field_of : String → Fields → Option Value
field_of name [] = none
field_of name ((n, value) ∷ fields) = if n == name then some value else field_of name fields

-- A text as a field; nothing, where the text is empty.
pub given : String → (String → Value) → Option Value
given s value = if is_blank s then none else some (value s)

-- A request for what the page's category, search box and prices say.
abbrev pub Asks : (String → Value) → BrowsePage → Fields → Type 0
Asks number_of p fields =
    (field_of "category" fields
      ≡ (if p.active_category == "all" then none else some (text p.active_category)))
    × (field_of "search" fields ≡ given p.search text)
    × (field_of "min_price" fields ≡ given p.min_price number_of)
    × (field_of "max_price" fields ≡ given p.max_price number_of)

product_params-Asks :
    (number_of : String → Value) (p : BrowsePage)
    → p.debounced_search ≡ p.search
    → Asks number_of p (product_params number_of p)
unfolding product_params field_of given
product_params-Asks number_of p e =
    (ground (arith, e), ground (arith, e), ground (arith, e), ground (arith, e))

end_timer-search :
    (timer : Option String) (p : BrowsePage)
    → Held timer p.debounced_search p.search
    → (end_timer timer p).debounced_search ≡ (end_timer timer p).search
unfolding end_timer
end_timer-search none p h = h
end_timer-search (some s) p h = h

-- After any history of events, and the end of the timer if one is set, the page's request has the
-- category that is selected, unless it is the one for all, the text in the search box and the two
-- prices, each unless it is empty.
pub run-Asks :
    (number_of : String → Value) (evs : List Event)
    → Asks number_of
        (on_event timer_ends (run evs initial))
        (product_params number_of (on_event timer_ends (run evs initial)))
unfolding on_event
run-Asks number_of evs =
    product_params-Asks number_of (on_event timer_ends (run evs initial))
      (end_timer-search (run evs initial).timer (run evs initial) (run-Timed evs initial refl))
