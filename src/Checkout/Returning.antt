-- ===== src/Checkout/Returning.antt =====
-- Where a payment on provena-web/src/app/checkout/page.tsx leads, with the gate of
-- provena-web/src/middleware.ts.
use provena.Base.{String, true, false, Option, none, some, List, [], ◌∷◌, ◌<>◌, ◌≡◌, refl}
use provena.Types.Auth.{UserProfile}
use provena.Types.Order.{Order}
use provena.Session.Gate.{middleware, next, session_area}
use provena.SignIn.Guard.Agreement.{cookies_for}
use provena.Checkout.Payment.{
  PaymentStep, handle_pay, pay_answered, handle_payment_success, confirmed, failed, Effect, calls,
  invalidates, push,
}

-- The path that the browser is sent to last.
abbrev pub path_of : List Effect → Option String
path_of [] = none
path_of (calls call ∷ effects) = path_of effects
path_of (invalidates key ∷ effects) = path_of effects
path_of (push path ∷ []) = some path
path_of (push path ∷ effects) = path_of effects

-- Whether Stripe sends the browser back or answers in the page, a confirmed payment leads to the same
-- page of the order, which the gate serves to the user; a payment that failed leads nowhere, and the
-- button can be pressed again.
pub pay-returns :
    (origin : String) (order : Order) (user : UserProfile) (p : PaymentStep)
    (message : Option String)
    → let path = "/orders/" <> order.reference in
      ((handle_pay true origin order p).1 ≡ some (origin <> path))
      × (path_of (pay_answered order confirmed p).1 ≡ some path)
      × (middleware (cookies_for (some user)) path ≡ next)
      × (path_of (pay_answered order (failed message) p).1 ≡ none)
      × ((pay_answered order (failed message) p).0.processing ≡ false)
unfolding handle_pay pay_answered handle_payment_success middleware session_area
pay-returns origin order user p message = (refl, refl, refl, refl, refl)
