-- ===== src/Goods.antt =====
-- Where a product is shown and put into the cart: the card, the page of a product, and the drawer with
-- the cart, of provena-web/src.
pub mod Card
pub mod Drawer
pub mod Detail
pub mod Hearts
pub mod Finding
use provena.Base.{
  leb, ℕ, zero, suc, ◌-◌, String, Bool, Option, none, some, List, [], ◌∷◌, ◌<>◌, is_blank,
  if◌then◌else◌,
}
use provena.Markup.{Part, text}

-- `array.find(test)`
unfoldable pub find {ℓ} : {A : Type ℓ} → (A → Bool) → List A → Option A
find test [] = none
find test (x ∷ xs) = if test x then some x else find test xs

-- `array[0]`
abbrev pub first {ℓ} : {A : Type ℓ} → List A → Option A
first [] = none
first (x ∷ xs) = some x

-- `a ?? b`
abbrev pub or_other {ℓ} : {A : Type ℓ} → Option A → Option A → Option A
or_other none b = b
or_other (some a) b = some a

-- `a && (…)` and `a ?? ''` for a text that may be missing or empty.
abbrev pub with_text : Option String → (String → List Part) → List Part
with_text none parts = []
with_text (some s) parts = if is_blank s then [] else parts s

abbrev pub or_blank : Option String → String
or_blank none = ""
or_blank (some s) = s

-- `text.repeat(n)`
pub repeat : String → ℕ → String
repeat s zero = ""
repeat s (suc n) = s <> repeat s n

-- The stars of a card: `n` of them filled, and the rest of five.
pub stars : ℕ → String
stars n = repeat "★" n <> repeat "☆" (5 - n)

-- `StarRating`: five stars, of which the first `n` are filled.
pub star_rating : ℕ → String
star_rating n = if leb 5 n then stars 5 else stars n

abbrev pub pounds : String → Part
pounds amount = text ("£" <> amount)
