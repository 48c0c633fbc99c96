-- ===== src/Paging.antt =====
-- provena-web/src/components/pagination.tsx: the bar under a list that is shown page by page. Pages
-- count from 1; `page_size` is at least 1.
pub mod Ranges
use provena.Base.{ℕ, ◌+◌, ◌-◌, ◌*◌, ◌/◌, Bool, Option, none, some, ◌==◌, nat_eq, leb, if◌then◌else◌}

pub record Bar : Type 0 where
  pub from : ℕ
  pub to : ℕ
  pub of : ℕ
  pub page : ℕ
  pub total_pages : ℕ
  pub previous_disabled : Bool
  pub next_disabled : Bool

-- `Math.ceil(count / pageSize)`
unfoldable pub total_pages : ℕ → ℕ → ℕ
total_pages count page_size = (count + page_size - 1) / page_size

abbrev pub smaller : ℕ → ℕ → ℕ
smaller a b = if leb a b then a else b

-- What is rendered; `none` where there is one page at most.
unfoldable pub pagination : ℕ → ℕ → ℕ → Option Bar
unfolding total_pages
pagination page count page_size =
    let pages = total_pages count page_size in
    if leb pages 1
    then none
    else some (record {
      from = (page - 1) * page_size + 1;
      to = smaller (page * page_size) count;
      of = count;
      page = page;
      total_pages = pages;
      previous_disabled = page == 1;
      next_disabled = page == pages;
    })

pub data Click : Type 0 where
  previous next : Click

-- `onChange`, where the button is not disabled.
unfoldable pub click : Click → Bar → ℕ
click previous bar = if bar.previous_disabled then bar.page else bar.page - 1
click next bar = if bar.next_disabled then bar.page else bar.page + 1
