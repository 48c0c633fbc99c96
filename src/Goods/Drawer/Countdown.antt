-- ===== src/Goods/Drawer/Countdown.antt =====
-- What the countdown of provena-web/src/components/cart-drawer.tsx says of the time that is left.
use provena.Base.{
  ℕ, ◌+◌, ◌-◌, ◌*◌, ◌≤◌, ◌<◌, String, true, some, ◌≡◌, ◌↔◌, subst, sym, arith, leb, if_cases,
}
use provena.Orders.Card.{DateParser}
use provena.Goods.Drawer.{Label, expired, clock, not_a_date, label_of, urgent_at, update_to, update}

-- A label that fits the times: `Expired` from the time on, and before it the whole seconds that are
-- left, with less than sixty of them after the colon.
abbrev pub Says : ℕ → ℕ → Label → Type 0
Says now time expired = time ≤ now
Says now time (clock mins secs) =
    (now < time)
    × (secs < 60)
    × ((mins * 60 + secs) * 1000 ≤ time - now)
    × (time - now < (mins * 60 + secs + 1) * 1000)
Says now time not_a_date = ⊥

label_of-Says : (now time : ℕ) → Says now time (label_of now time)
unfolding label_of
label_of-Says now time =
    if_cases (Says now time) (leb time now) (λ b. ground arith)
      (λ b. let later : now < time = ground arith in (later, omega arith, omega arith, omega arith))

urgent_at_iff : (now time : ℕ) → (urgent_at now time ≡ true) ↔ (time < now + 300000)
unfolding urgent_at
urgent_at_iff now time = ground arith

-- For a date that parses, the countdown's label fits the time that is left, and it is urgent exactly
-- in the last five minutes and after them.
pub update-Says :
    (parse : DateParser) (now time : ℕ) (expires_at : String)
    → parse expires_at ≡ some time
    → Says now time (update parse now expires_at).0
      × (((update parse now expires_at).1 ≡ true) ↔ (time < now + 300000))
unfolding update
update-Says parse now time expires_at e =
    subst
      (λ o.
        Says now time (update_to now o).0 × (((update_to now o).1 ≡ true) ↔ (time < now + 300000)))
      (sym e) (label_of-Says now time, urgent_at_iff now time)
