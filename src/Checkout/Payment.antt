-- ===== src/Checkout/Payment.antt =====
-- provena-web/src/app/checkout/page.tsx, the step of the payment. Stripe's library is called with the
-- address to come back to, and answers with an error, or that the payment is confirmed.
use provena.Base.{
  String, Bool, true, false, ◌||◌, not, Option, none, some, List, [], ◌∷◌, ◌++◌, ◌<>◌, is_blank,
  if◌then◌else◌,
}
use provena.Types.Order.{Order}
use provena.Requests.Shop.{CartCall, clear_cart}
use provena.Markup.{Part, text, button}
use provena.Orders.Page.{Amounts, breakdown}

pub record PaymentStep : Type 0 where
  pub error : Option String
  pub processing : Bool

-- The form, and the `return_url` of a payment that is asked for. `ready` says that Stripe's library
-- is loaded.
unfoldable pub handle_pay : Bool → String → Order → PaymentStep → PaymentStep × Option String
handle_pay ready origin order p = if not ready then (p, none) else (
  record p { processing = true; error = none },
  some (origin <> "/orders/" <> order.reference),
)

pub data Confirmation : Type 0 where
  confirmed : Confirmation
  failed : (message : Option String) → Confirmation

abbrev or_text : Option String → String → String
or_text none b = b
or_text (some a) b = a

-- `handlePaymentSuccess`, in order: the cart is cleared, whether or not that fails, the queries are
-- invalidated, and the browser is sent to the order.
pub data Effect : Type 0 where
  calls : CartCall → Effect
  invalidates : String → Effect
  push : (path : String) → Effect

unfoldable pub handle_payment_success : Order → List Effect
handle_payment_success order =
    calls clear_cart
    ∷ invalidates "cart"
    ∷ invalidates "orders"
    ∷ push ("/orders/" <> order.reference)
    ∷ []

unfoldable pub pay_answered : Order → Confirmation → PaymentStep → PaymentStep × List Effect
pay_answered order confirmed p = (p, handle_payment_success order)
pay_answered order (failed message) p = (
  record p {
    error = some (or_text message "Payment failed. Please try again.");
    processing = false;
  },
  [],
)

error_parts : Option String → List Part
error_parts none = []
error_parts (some e) = if is_blank e then [] else text e ∷ []

-- Between the breakdown and the error stands Stripe's own form.
unfoldable pub payment_view : Amounts → Bool → Order → PaymentStep → List Part
unfolding error_parts
payment_view n ready order p =
    text "Payment" ∷ text ("Order " <> order.reference) ∷ breakdown n order
    ++ error_parts p.error
    ++ button (if p.processing then "Processing…" else "Pay £" <> order.total_amount)
        (not ready || p.processing)
      ∷ []
