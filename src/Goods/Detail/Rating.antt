-- ===== src/Goods/Detail/Rating.antt =====
-- The ratings on the page of provena-web/src/app/catalogue/[slug]/_client.tsx: the average that is
-- shown, and the rating that is sent.
use native.Mathlib.Nat.{div-lt_iff_lt-mul}
use provena.Base.{
  ℕ, ◌+◌, ◌*◌, ◌≤◌, Bool, false, some, List, [], ◌∷◌, ◌≡◌, refl, subst, arith, nat_eq, length,
  sum_by, All,
}
use provena.Types.Catalogue.{Review}
use provena.Orders.Forms.{blank_trimmed}
use provena.Goods.Detail.{Detail, initial, Event, on_event, avg_rating, round_of, review_disabled}
use provena.Goods.Detail.Asking.{run}

abbrev pub InRange : ℕ → Type 0
InRange rating = (1 ≤ rating) × (rating ≤ 5)

sum_range :
    (reviews : List Review)
    → All (λ (r : Review). InRange r.rating) reviews
    → (length reviews ≤ sum_by (λ (r : Review). r.rating) reviews)
      × (sum_by (λ (r : Review). r.rating) reviews ≤ 5 * length reviews)
sum_range [] h = (omega arith, omega arith)
sum_range (r ∷ reviews) ((low, high), h) =
    let (lows, highs) = sum_range reviews h in (omega arith, omega arith)

round_range :
    (total count : ℕ)
    → 1 ≤ count
    → count ≤ total
    → total ≤ 5 * count
    → InRange (round_of (total, count))
unfolding round_of
round_range total count h low high =
    let below = div-lt_iff_lt-mul {k = 2 * count} {x = 2 * total + count} {y = 1} (omega arith) in
    let above = div-lt_iff_lt-mul {k = 2 * count} {x = 2 * total + count} {y = 6} (omega arith) in
    (ground (arith, below, h, low), ground (arith, above, h, high))

-- The ratings that the stars of the form can give.
abbrev pub OnStars : Event → Type 0
OnStars ev = (star : ℕ) → ev ≡ Event.rate star → InRange star

run-rating :
    (evs : List Event) (d : Detail)
    → All OnStars evs
    → d.review_rating ≤ 5
    → (run evs d).review_rating ≤ 5
unfolding on_event
run-rating [] d h k = k
run-rating (ev ∷ evs) d (own, h) k = run-rating evs (on_event ev d) h (after ev own)
  where
    after : (e : Event) → OnStars e → (on_event e d).review_rating ≤ 5
    after (Event.choose v) o = k
    after Event.fewer o = k
    after Event.more o = k
    after Event.view_cart o = k
    after Event.close_cart o = k
    after Event.added o = k
    after (Event.show_image idx) o = k
    after (Event.rate star) o = (o star refl).1
    after (Event.type_title value) o = k
    after (Event.type_body value) o = k
    after Event.reviewed o = omega arith
    after (Event.review_refused detail) o = k

-- Whatever happens on the page, if its button for a review can be pressed, the rating that is sent
-- is one of one to five, and neither the title nor the review is blank.
pub run-InRange :
    (evs : List Event) (is_pending : Bool)
    → All OnStars evs
    → review_disabled is_pending (run evs initial) ≡ false
    → InRange (run evs initial).review_rating
      × (blank_trimmed (run evs initial).review_title ≡ false)
      × (blank_trimmed (run evs initial).review_body ≡ false)
unfolding review_disabled
run-InRange evs is_pending h enabled =
    let high = run-rating evs initial h (omega arith) in
    (ground (arith, enabled, high), ground (arith, enabled), ground (arith, enabled))

-- Where the ratings are from one to five, the stars that are filled for their average are too.
pub avg_rating-InRange :
    (reviews : List Review) (avg : ℕ × ℕ)
    → All (λ (r : Review). InRange r.rating) reviews
    → avg_rating reviews ≡ some avg
    → InRange (round_of avg)
unfolding avg_rating
avg_rating-InRange [] avg h e = ground (arith, e)
avg_rating-InRange (r ∷ reviews) avg h e =
    let (low, high) = sum_range (r ∷ reviews) h in
    let total = sum_by (λ (x : Review). x.rating) (r ∷ reviews) in
    let same : (total, length (r ∷ reviews)) ≡ avg = ground (arith, e) in
    subst (λ p. InRange (round_of p)) same
      (round_range total (length (r ∷ reviews)) (omega arith) low high)
