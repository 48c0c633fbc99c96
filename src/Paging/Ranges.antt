-- ===== src/Paging/Ranges.antt =====
-- The ranges that provena-web/src/components/pagination.tsx prints, and where its buttons lead.
use provena.Base.{
  ℕ, ◌+◌, ◌-◌, ◌*◌, ◌≤◌, ◌<◌, some, ◌≡◌, ◌≢◌, ap, ◌⊎◌, inl, inr, ◌==◌, nat_eq, arith,
}
use native.Mathlib.Decide.{ℕ_discrete}
use provena.Paging.{Bar, total_pages, pagination, Click, previous, next, click, smaller}

-- Enough pages for all entries, and no page too many.
total_pages_bounds :
    (count page_size : ℕ)
    → 1 ≤ page_size
    → (count ≤ total_pages count page_size * page_size)
      × (total_pages count page_size * page_size < count + page_size)
unfolding total_pages
total_pages_bounds count page_size h = grind arith

abbrev pub bar_at : ℕ → ℕ → ℕ → Bar
bar_at page count page_size = record {
  from = (page - 1) * page_size + 1;
  to = smaller (page * page_size) count;
  of = count;
  page = page;
  total_pages = total_pages count page_size;
  previous_disabled = page == 1;
  next_disabled = page == total_pages count page_size;
}

pagination_bar :
    (page count page_size : ℕ) {bar : Bar}
    → pagination page count page_size ≡ some bar
    → (bar ≡ bar_at page count page_size) × (1 < total_pages count page_size)
unfolding pagination
pagination_bar page count page_size e = ground arith

mul_mono : (a b c : ℕ) → a ≤ b → a * c ≤ b * c
mul_mono a b c h = grind arith

page_offset :
    (page page_size : ℕ) → 1 ≤ page → (page - 1) * page_size + page_size ≡ page * page_size
page_offset page page_size h =
    omega (arith, ap (λ (n : ℕ). n * page_size) (let e : page - 1 + 1 ≡ page = omega arith in e))

-- On every page that exists the bar prints a range of entries that is not empty and lies within
-- the count; the first page starts at 1, the last ends at the count, and a page that is not the last
-- ends where the next one starts.
pub pagination_range :
    (page count page_size : ℕ) {bar : Bar}
    → 1 ≤ page_size
    → 1 ≤ page
    → page ≤ total_pages count page_size
    → pagination page count page_size ≡ some bar
    → (bar.from ≤ bar.to)
      × (bar.to ≤ count)
      × ((page ≢ 1) ⊎ (bar.from ≡ 1))
      × ((page ≢ total_pages count page_size) ⊎ (bar.to ≡ count))
      × ((page ≡ total_pages count page_size)
          ⊎ ((bar_at (page + 1) count page_size).from ≡ bar.to + 1))
pagination_range page count page_size h first last e =
    let (same, more) = pagination_bar page count page_size e in
    let (enough, tight) = total_pages_bounds count page_size h in
    let before = page_offset page page_size first in
    let within = mul_mono page (total_pages count page_size) page_size last in
    rw same (
      ground arith,
      ground arith,
      elim (ℕ_discrete page 1) [ yes one ↦ inr (ground arith) | no other ↦ inl other ],
      elim (ℕ_discrete page (total_pages count page_size)) [
        | yes end ↦ inr (let e' = ap (λ (n : ℕ). n * page_size) end in ground arith)
        | no other ↦ inl other
      ],
      elim (ℕ_discrete page (total_pages count page_size)) [
        | yes end ↦ inl end
        | no other ↦
            let next_within =
              mul_mono (page + 1) (total_pages count page_size) page_size (omega arith) in
            inr (ground arith)
      ],
    )

-- The buttons of the bar never lead to a page that does not exist.
pub click_in_range :
    (c : Click) (page count page_size : ℕ) {bar : Bar}
    → 1 ≤ page
    → page ≤ total_pages count page_size
    → pagination page count page_size ≡ some bar
    → (1 ≤ click c bar) × (click c bar ≤ total_pages count page_size)
unfolding click
click_in_range previous page count page_size first last e =
    ground (arith, pagination_bar page count page_size e)
click_in_range next page count page_size first last e =
    ground (arith, pagination_bar page count page_size e)
