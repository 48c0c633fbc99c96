-- ===== src/Checkout/Discount.antt =====
-- The discount code of provena-web/src/app/checkout/page.tsx while its validation is under way.
use provena.Base.{String, false, Option, none, some, ◌≡◌, refl, if◌then◌else◌}
use provena.Types.Order.{Cart, DiscountValidateResult}
use provena.Requests.Ordering.{BuyerCall, validate_discount}
use provena.Orders.Forms.{blank_trimmed}
use provena.Checkout.{Page, order_request, change_code, on_validated}

-- `discountCode.trim() && validateMutation.mutate()`
unfoldable pub validate_call : (String → String) → Page → Option BuyerCall
validate_call trim p =
    if blank_trimmed p.discount_code then none else some (validate_discount (trim p.discount_code))

-- If the code is changed while the validation of another one is under way, the answer is shown beside
-- the new code, and an order then sends the new code, which was never validated.
pub late_validation :
    (trim to_upper_case : String → String) (p : Page) (value : String) (cart : Option Cart)
    (r : DiscountValidateResult)
    → blank_trimmed (to_upper_case value) ≡ false
    → let late = on_validated r (change_code to_upper_case value p) in
      (late.discount_result ≡ some r)
      × (late.discount_code ≡ to_upper_case value)
      × ((order_request trim cart late).discount_code ≡ some (trim (to_upper_case value)))
unfolding change_code on_validated order_request
late_validation trim to_upper_case p value cart r full = (refl, refl, rw full refl)
