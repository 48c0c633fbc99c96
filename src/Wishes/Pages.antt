-- ===== src/Wishes/Pages.antt =====
-- The pages that provena-web/src/app/wishlist/page.tsx loads, over histories of events.
use mathlib.Core.Path.{ap₂}
use provena.Base.{
  ℕ, zero, suc, ◌+◌, ◌*◌, ◌≤◌, some, List, [], ◌∷◌, ◌++◌, ◌≡◌, refl, sym, ap, ◌∙◌, arith, ltb,
  length, length-append, take, append_assoc, append-nil,
}
use provena.Types.Catalogue.{WishlistItem, PaginatedResponse}
use provena.Wishes.{
  WishlistPage, initial, Event, load_more, removed, added, open_cart, close_cart, on_event,
  all_items, has_more, next_of, has_text, Answer, results_of,
}

unfoldable pub run : List Event → WishlistPage → WishlistPage
run [] p = p
run (ev ∷ evs) p = run evs (on_event ev p)

abbrev pub drop : ℕ → List WishlistItem → List WishlistItem
drop zero l = l
drop (suc n) [] = []
drop (suc n) (x ∷ l) = drop n l

-- An API that serves a list by pages of `size`.
pub record Serves (answer : ℕ → PaginatedResponse WishlistItem) (size : ℕ) (l : List WishlistItem)
    : Type 0 where
  pub page : (n : ℕ) → (answer (suc n)).results ≡ take size (drop (n * size) l)
  pub next : (n : ℕ) → has_text (answer (suc n)).next ≡ ltb (suc n * size) (length l)

pages_upto : ℕ → List ℕ
pages_upto zero = []
pages_upto (suc n) = pages_upto n ++ suc n ∷ []

length-pages_upto : (n : ℕ) → length (pages_upto n) ≡ n
unfolding pages_upto
length-pages_upto zero = refl
length-pages_upto (suc n) =
    length-append (pages_upto n) (suc n ∷ []) ∙ ground (arith, length-pages_upto n)

abbrev InSequence : List ℕ → Type 0
InSequence pages = (n : ℕ) × (pages ≡ pages_upto (suc n))

next_page :
    (n : ℕ) (pages : List ℕ)
    → pages ≡ pages_upto (suc n)
    → pages ++ (length pages + 1) ∷ [] ≡ pages_upto (suc (suc n))
unfolding pages_upto
next_page n pages e =
    let last : length pages + 1 ≡ suc (suc n) =
      ground (arith, ap (λ (l : List ℕ). length l) e, length-pages_upto (suc n)) in
    ap₂ (λ l k. l ++ k ∷ []) e last

run-InSequence :
    (evs : List Event) (p : WishlistPage)
    → InSequence p.loaded_pages
    → InSequence (run evs p).loaded_pages
unfolding run on_event pages_upto
run-InSequence [] p h = h
run-InSequence (load_more ∷ evs) p (n, e) =
    run-InSequence evs (on_event load_more p) (suc n, next_page n p.loaded_pages e)
run-InSequence (removed ∷ evs) p h = run-InSequence evs (on_event removed p) (0, refl)
run-InSequence (added ∷ evs) p h = run-InSequence evs (on_event added p) h
run-InSequence (open_cart ∷ evs) p h = run-InSequence evs (on_event open_cart p) h
run-InSequence (close_cart ∷ evs) p h = run-InSequence evs (on_event close_cart p) h

take-nil : (n : ℕ) → take {A = WishlistItem} n [] ≡ []
take-nil zero = refl
take-nil (suc n) = refl

take_more : (m n : ℕ) (l : List WishlistItem) → take m l ++ take n (drop m l) ≡ take (m + n) l
take_more zero n l = ap (λ k. take k l) (omega arith)
take_more (suc m) n [] = take-nil n ∙ sym (take-nil (suc m + n))
take_more (suc m) n (x ∷ l) =
    ap (◌∷◌ x) (take_more m n l) ∙ ap (λ k. take k (x ∷ l)) {x = suc (m + n)} (omega arith)

all_items-append :
    (answer : ℕ → Answer) (ps qs : List ℕ)
    → all_items answer (ps ++ qs) ≡ all_items answer ps ++ all_items answer qs
unfolding all_items
all_items-append answer [] qs = refl
all_items-append answer (p ∷ ps) qs =
    ap (λ l. results_of (answer p) ++ l) (all_items-append answer ps qs)
    ∙ sym (append_assoc (results_of (answer p)) (all_items answer ps) (all_items answer qs))

has_more-last :
    (answer : ℕ → Answer) (ps : List ℕ) (q : ℕ)
    → has_more answer (ps ++ q ∷ []) ≡ next_of (answer q)
unfolding has_more
has_more-last answer [] q = refl
has_more-last answer (p ∷ []) q = refl
has_more-last answer (p ∷ r ∷ ps) q = has_more-last answer (r ∷ ps) q

module _ (answer : ℕ → PaginatedResponse WishlistItem) (size : ℕ) (l : List WishlistItem) where
  abbrev all_upto : ℕ → List WishlistItem
  all_upto n = all_items (λ p. some (answer p)) (pages_upto n)

  all_items-pages_upto : Serves answer size l → (n : ℕ) → all_upto n ≡ take (n * size) l
  unfolding pages_upto all_items
  all_items-pages_upto s zero = ap (λ k. take k l) {x = 0} (omega arith)
  all_items-pages_upto s (suc n) =
      all_items-append (λ p. some (answer p)) (pages_upto n) (suc n ∷ [])
      ∙ ap₂ ◌++◌ (all_items-pages_upto s n) (append-nil (answer (suc n)).results ∙ s.page n)
      ∙ take_more (n * size) size l
      ∙ ap (λ k. take k l) (ground arith)

  -- After any history of events, where every page has its answer from an API that serves a list by
  -- pages, the page shows the list as far as its pages go: in order, without a gap and nothing twice.
  -- The button for more is there exactly when the list goes on. One page at least is loaded.
  pub run-all_items :
      Serves answer size l
      → (evs : List Event)
      → let pages = (run evs initial).loaded_pages in
        (all_items (λ p. some (answer p)) pages ≡ take (length pages * size) l)
        × (has_more (λ p. some (answer p)) pages ≡ ltb (length pages * size) (length l))
        × (1 ≤ length pages)
  unfolding pages_upto
  run-all_items s evs =
      let (n, e) = run-InSequence evs initial (0, refl) in
      let so_many = ap (λ (ps : List ℕ). length ps) e ∙ length-pages_upto (suc n) in
      (
        ap (all_items (λ p. some (answer p))) e
            ∙ all_items-pages_upto s (suc n)
            ∙ ap (λ k. take (k * size) l) (sym so_many),
        ap (has_more (λ p. some (answer p))) e
            ∙ has_more-last (λ p. some (answer p)) (pages_upto n) (suc n)
            ∙ s.next n
            ∙ ap (λ k. ltb (k * size) (length l)) (sym so_many),
        ground (arith, so_many),
      )
