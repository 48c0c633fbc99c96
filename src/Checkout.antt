-- ===== src/Checkout.antt =====
-- provena-web/src/app/checkout/page.tsx: the checkout, from the shipping form to the payment.
pub mod Placing
pub mod Payment
pub mod Returning
pub mod View
pub mod Discount
use provena.Base.{
  ℕ, String, Bool, true, false, ◌&&◌, ◌||◌, not, Option, none, some, List, [], ◌∷◌, ◌++◌, map,
  is_empty, is_blank, if◌then◌else◌,
}
use provena.Types.Order.{Cart, CartItem, Order, DiscountValidateResult}
use provena.Types.Address.{Address}
use provena.Orders.Card.{is_some}
use provena.Orders.Forms.{blank_trimmed, or_default}

pub record ShippingForm : Type 0 where
  pub name : String
  pub line1 : String
  pub line2 : String
  pub city : String
  pub postcode : String
  pub country : String
  pub notes : String

abbrev pub empty_form : ShippingForm
empty_form = record {
  name = "";
  line1 = "";
  line2 = "";
  city = "";
  postcode = "";
  country = "GB";
  notes = "";
}

-- The state of the page, and whether the mutation that places the order is pending.
pub record Page : Type 0 where
  pub form : ShippingForm
  pub error : Option String
  pub order : Option Order
  pub client_secret : Option String
  pub selected_address_id : Option String
  pub discount_code : String
  pub discount_result : Option DiscountValidateResult
  pub is_pending : Bool

abbrev pub initial : Page
initial = record {
  form = empty_form;
  error = none;
  order = none;
  client_secret = none;
  selected_address_id = none;
  discount_code = "";
  discount_result = none;
  is_pending = false;
}

-- The body of `POST /orders/`; `discount_code` is left out where it is `undefined`.
pub record OrderRequest : Type 0 where
  pub items : List (String × ℕ)
  pub shipping_name : String
  pub shipping_line1 : String
  pub shipping_line2 : String
  pub shipping_city : String
  pub shipping_postcode : String
  pub shipping_country : String
  pub notes : String
  pub discount_code : Option String

abbrev pub cart_items : Option Cart → List CartItem
cart_items none = []
cart_items (some cart) = cart.items

-- `trim` is the text's method.
unfoldable pub order_request : (String → String) → Option Cart → Page → OrderRequest
order_request trim cart p = record {
  items = map (λ i. (i.variant, i.quantity)) (cart_items cart);
  shipping_name = p.form.name;
  shipping_line1 = p.form.line1;
  shipping_line2 = p.form.line2;
  shipping_city = p.form.city;
  shipping_postcode = p.form.postcode;
  shipping_country = p.form.country;
  notes = p.form.notes;
  discount_code = if blank_trimmed p.discount_code then none else some (trim p.discount_code);
}

-- `onChange` of the code, in upper case, and the callback of its validation.
unfoldable pub change_code : (String → String) → String → Page → Page
change_code to_upper_case value p = record p {
  discount_code = to_upper_case value;
  discount_result = none;
}

unfoldable pub on_validated : DiscountValidateResult → Page → Page
on_validated r p = record p { discount_result = some r }

unfoldable pub set_form : ShippingForm → Page → Page
set_form form p = record p { form = form }

unfoldable pub choose_address : Address → Page → Page
choose_address addr p = record p {
  selected_address_id = some addr.id;
  form = record {
    name = addr.full_name;
    line1 = addr.line1;
    line2 = addr.line2;
    city = addr.city;
    postcode = addr.postcode;
    country = addr.country;
    notes = p.form.notes;
  };
}

unfoldable pub enter_other_address : Page → Page
enter_other_address p = record p { selected_address_id = none; form = empty_form }

-- What the two calls of the mutation answer: an order, and the client secret of its payment; an
-- error carries the answer's `detail`.
pub data Answer {ℓ} (A : Type ℓ) : Type ℓ where
  ok : A → Answer A
  err : (detail : Option String) → Answer A

infixl 5 ◌>>=◌
abbrev pub ◌>>=◌ {ℓ κ} : {A : Type ℓ} {B : Type κ} → Answer A → (A → Answer B) → Answer B
ok a >>= f = f a
err detail >>= f = err detail

-- The API, as the page finds it: `place` answers the request and may keep an order of it.
pub record Api {ℓ} (Server : Type ℓ) : Type ℓ where
  pub place_order : OrderRequest → Server → Answer Order × Server
  pub create_payment_intent : String → Server → Answer String × Server

module _ {ℓ} {Server : Type ℓ} (api : Api Server) (trim : String → String) where
  open api use {place_order, create_payment_intent}

  pay_for : Order → Answer String × Server → Answer (Order × String) × Server
  pay_for placed (intent, s) = (do client_secret ← intent; ok (placed, client_secret), s)

  intend : Answer Order × Server → Answer (Order × String) × Server
  unfolding pay_for
  intend (ok placed, s) = pay_for placed (create_payment_intent placed.reference s)
  intend (err detail, s) = (err detail, s)

  -- `mutationFn`
  unfoldable pub place : OrderRequest → Server → Answer (Order × String) × Server
  unfolding intend
  place request s = intend (place_order request s)

  -- `onSuccess` and `onError`
  unfoldable pub on_settled : Answer (Order × String) → Page → Page
  on_settled (ok (placed, secret)) p = record p {
    order = some placed;
    client_secret = some secret;
    is_pending = false;
  }
  on_settled (err detail) p = record p {
    error = some (or_default detail "Something went wrong. Please try again.");
    is_pending = false;
  }

  -- `handleSubmit`, from the click to the end of the mutation. The button is disabled while one is
  -- pending.
  unfoldable pub submit : Option Cart → Page × Server → Page × Server
  unfolding place on_settled
  submit cart (p, s) =
      if p.is_pending
      then (p, s)
      else let sent = record p { error = none; is_pending = true } in
        let (answer, s') = place (order_request trim cart p) s in (on_settled answer sent, s')

pub data Screen : Type 0 where
  login loading_cart empty_cart payment shipping : Screen

abbrev pub truthy : Option String → Bool
truthy none = false
truthy (some text) = not (is_blank text)

-- Which part of the page is rendered. `user` says whether somebody is signed in.
unfoldable pub screen : (cart_loading user : Bool) → Option Cart → Page → Screen
screen cart_loading user cart p =
    if not cart_loading && not user
    then login
    else if cart_loading
    then loading_cart
    else if is_empty (cart_items cart) && not (is_some p.order)
    then empty_cart
    else if truthy p.client_secret && is_some p.order
    then payment
    else shipping
