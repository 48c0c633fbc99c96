-- ===== src/Tests/Trade.antt =====
-- Buying from and selling on provena-web/src on concrete inputs.
use provena.Base.{
  ℕ, ◌≤◌, String, true, false, Option, none, some, List, [], ◌∷◌, ◌≡◌, inl, refl, arith, ◌==◌,
  string_eq, if◌then◌else◌,
}
use provena.Types.Auth.{UserProfile, buyer, supplier, role_text}
use provena.Types.Order.{returnable}
use provena.Types.Catalogue.{Product, ProductVariant, WishlistItem, active}
use provena.Types.Stock.{StockLevel}
use provena.Session.Gate.{redirect, middleware}
use provena.Session.Sync.{MeAnswer, verified, not_ok, is_space, proto}
use provena.Session.Jar.{cookies_of}
use provena.Session.Store.{AuthState}
use provena.Session.Store.Agreement.{perform_all}
use provena.SignIn.Guard.Agreement.{answer_with, profile_of}
use provena.Shell.Links.{Answered}
use provena.Requests.Shop.{add_to_cart}
use provena.Goods.Detail.{Event, add_to_cart_call, review_disabled}
use provena.Goods.Detail as Detail
use provena.Goods.Detail.Asking.{run, Sold, run-Sold}
use provena.Sell as Sell
use provena.Sell.{SellPage, payload, apply_succeeded, panel}
use provena.Sell.Upgrade.{apply_succeeded-lands}
use provena.Security as Security
use provena.Security.{accepted, enable_ended, disable_ended}
use provena.Security.Enforced.{switched-answered}
use provena.Stock as Stock
use provena.Stock.Rows as Rows
use provena.Tests.Web.{browser, user, request}

abbrev pub variant : ProductVariant
variant = record {
  id = "v1";
  name = "100 g";
  sku = "T1";
  price = "5.00";
  compare_at_price = none;
  weight_grams = 100;
  is_active = true;
  on_sale = false;
  discount_percent = none;
}

abbrev pub tea : Product
tea = record {
  id = "p1";
  name = "Tea";
  slug = "tea";
  description = "";
  status = active;
  is_featured = false;
  supplier_slug = "teas";
  supplier_name = "Teas";
  category_slug = none;
  category_name = none;
  effective_return_policy = returnable;
  variants = variant ∷ [];
  images = [];
  average_rating = none;
  review_count = 0;
  created_at = "";
  updated_at = "";
}

run-Sold_example :
    (v : ProductVariant) × (n : ℕ) × (add_to_cart_call
        (some tea)
        (run (Event.more ∷ Event.choose variant ∷ Event.fewer ∷ []) Detail.initial)
      ≡ some (add_to_cart v.id n))
    × (1 ≤ n)
    × Sold tea v
run-Sold_example =
    run-Sold tea variant [] (Event.more ∷ Event.choose variant ∷ Event.fewer ∷ []) refl
      ((λ v e. cc e), ((λ v e. (inl (ground (arith, e)), ground (arith, e))), ((λ v e. cc e), tt)))

abbrev pub wish : WishlistItem
wish = record {
  id = "w1";
  variant = "v1";
  variant_sku = "T1";
  variant_name = "100 g";
  product_name = "Tea";
  price = "5.00";
  is_active = true;
  added_at = "";
}

abbrev shop : SellPage
shop = Sell.set_form (λ f. record f { business_name = "Teas" }) Sell.initial

-- The user sells, once the application is through.
abbrev seller : UserProfile
seller = record user { role = supplier }

abbrev knows : String → MeAnswer
knows token = if token == "t1" then verified (profile_of seller) else not_ok

abbrev held : AuthState
held = record { user = some user; access_token = some "t1"; is_initialised = true }

-- The cookies of the buyer that the user still is.
abbrev buyer_jar : String → Option String
buyer_jar name =
    if name == "has_session"
    then some "1"
    else if name == "user_role"
    then some "BUYER"
    else if name == "totp_enabled"
    then some "0"
    else none

apply_succeeded-lands_example :
    let (read, _, calls) = apply_succeeded (some seller) shop held in
    let (unread, _, no_calls) = apply_succeeded none shop held in
    Answered
      (redirect "/catalogue")
      (cookies_of browser buyer_jar)
      (panel (λ s. s) true (some supplier) false read)
    × Answered
        (answer_with false)
        (cookies_of browser (perform_all browser knows request true calls buyer_jar))
        (panel (λ s. s) true (some supplier) false read)
    × Answered
        (redirect "/catalogue")
        (cookies_of browser (perform_all browser knows request true no_calls buyer_jar))
        (panel (λ s. s) true (some buyer) false unread)
unfolding is_space proto role_text
apply_succeeded-lands_example =
    apply_succeeded-lands browser knows request true (λ s. s) shop held buyer_jar "t1" user seller
      false refl (refl, refl) refl refl refl refl refl

abbrev level : StockLevel
level = record {
  id = "s1";
  variant_sku = "T1";
  product_name = "Tea";
  quantity_available = 4;
  quantity_reserved = 1;
  quantity_on_hand = 5;
  low_stock_threshold = 2;
  is_low_stock = false;
  updated_at = "";
}

abbrev restocking : List Stock.Event
restocking =
    Stock.Event.fill_receive (λ f. record f { qty = "5" }) ∷ Stock.Event.check_low true ∷ []

abbrev recounting : List Stock.Event
recounting =
    Stock.Event.fill_adjust (λ f. record f { delta = "-1" })
    ∷ Stock.Event.fill_adjust (λ f. record f { notes = "Broken" })
    ∷ []

-- The supplier switches two-factor authentication on.
abbrev secured : UserProfile
secured = record seller { totp_enabled = true }

abbrev knows_secured : String → MeAnswer
knows_secured token = if token == "t1" then verified (profile_of secured) else not_ok

switched-answered_example :
    let enabled = enable_ended (accepted secured) Security.initial held in
    let disabled = disable_ended (accepted secured) Security.initial held in
    (middleware
        (cookies_of browser (perform_all browser knows_secured request true enabled.2 buyer_jar))
        "/supplier/orders"
      ≡ answer_with true)
    × (middleware
          (cookies_of browser (perform_all browser knows_secured request true disabled.2 buyer_jar))
          "/supplier/orders"
        ≡ answer_with true)
unfolding is_space proto
switched-answered_example =
    switched-answered browser knows_secured request true Security.initial held buyer_jar "t1"
      secured "/supplier/orders" refl (refl, refl) refl refl refl
