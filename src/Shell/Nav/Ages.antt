-- ===== src/Shell/Nav/Ages.antt =====
-- What the ages that provena-web/src/components/nav.tsx prints mean.
use provena.Base.{
  ℕ, ◌+◌, ◌-◌, ◌*◌, ◌/◌, ◌≤◌, ◌<◌, String, some, ◌≡◌, arith, ltb, if_cases, ltb-true, ltb-false,
  subst, sym,
}
use provena.Orders.Card.{DateParser}
use provena.Shell.Nav.{
  Age, just_now, minutes, hours, days, not_a_date, age_of_minutes, age_of_hours, age_since,
  time_ago,
}

-- A time difference in milliseconds that fits an age: in the age's unit, rounded down, and in the
-- largest unit of which there is a whole one.
abbrev pub Fits : ℕ → Age → Type 0
Fits ms just_now = ms < 60000
Fits ms (minutes n) = (1 ≤ n) × (n < 60) × (n * 60000 ≤ ms) × (ms < (n + 1) * 60000)
Fits ms (hours n) = (1 ≤ n) × (n < 24) × (n * 3600000 ≤ ms) × (ms < (n + 1) * 3600000)
Fits ms (days n) = (1 ≤ n) × (n * 86400000 ≤ ms) × (ms < (n + 1) * 86400000)
Fits ms not_a_date = ⊥

age_of_hours-Fits : (ms : ℕ) → 3600000 ≤ ms → Fits ms (age_of_hours (ms / 60000 / 60))
unfolding age_of_hours
age_of_hours-Fits ms h =
    let hrs = ms / 60000 / 60 in
    if_cases (Fits ms) (ltb hrs 24)
      (λ b. let below = ltb-true hrs 24 b in (omega arith, below, omega arith, omega arith))
      (λ b. let above = ltb-false hrs 24 b in (omega arith, omega arith, omega arith))

age_of_minutes-Fits : (ms : ℕ) → Fits ms (age_of_minutes (ms / 60000))
unfolding age_of_minutes
age_of_minutes-Fits ms =
    let mins = ms / 60000 in
    if_cases (Fits ms) (ltb mins 1) (λ b. let below = ltb-true mins 1 b in omega arith)
      (λ a.
        let above = ltb-false mins 1 a in
        if_cases (Fits ms) (ltb mins 60)
          (λ b. let below = ltb-true mins 60 b in (omega arith, below, omega arith, omega arith))
          (λ b. let more = ltb-false mins 60 b in age_of_hours-Fits ms (omega arith)))

-- For a date that parses and is not in the future, the age that is printed fits the time since.
pub time_ago-Fits :
    (parse : DateParser) (now time : ℕ) (iso : String)
    → parse iso ≡ some time
    → time ≤ now
    → Fits (now - time) (time_ago parse now iso)
unfolding time_ago
time_ago-Fits parse now time iso e past =
    subst (λ o. Fits (now - time) (age_since now o)) (sym e) (age_of_minutes-Fits (now - time))
