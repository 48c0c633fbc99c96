-- ===== src/Sell.antt =====
-- provena-web/src/app/sell/page.tsx: the application of a buyer who wants to sell.
pub mod Upgrade
pub mod Payload
use provena.Base.{
  String, Bool, true, false, ◌&&◌, ◌||◌, not, Option, none, some, List, [], ◌∷◌, ◌++◌, is_blank,
  if◌then◌else◌,
}
use provena.Types.Auth.{UserRole, buyer, supplier, admin, UserProfile}
use provena.Session.Store.{AuthState, Call, set_user}
use provena.Requests.{Fields, Value, if_given}
use provena.Requests
use provena.Requests.Management.{SupplierCall, register_supplier}
use provena.Markup.{Part, text, link, button, field, when}

pub record SellForm : Type 0 where
  pub business_name : String
  pub description : String
  pub phone : String
  pub website : String
  pub logo_url : String

pub record SellAddress : Type 0 where
  pub line1 : String
  pub line2 : String
  pub city : String
  pub county : String
  pub postcode : String
  pub country : String

pub record SellPage : Type 0 where
  pub form : SellForm
  pub addr : SellAddress
  pub error : String
  pub done : Bool

abbrev pub initial : SellPage
initial = record {
  form = record { business_name = ""; description = ""; phone = ""; website = ""; logo_url = "" };
  addr = record { line1 = ""; line2 = ""; city = ""; county = ""; postcode = ""; country = "GB" };
  error = "";
  done = false;
}

-- The changes of the fields, by `set` and by `setAddress`, with what a field becomes.
unfoldable pub set_form : (SellForm → SellForm) → SellPage → SellPage
set_form change p = record p { form = change p.form; error = "" }

unfoldable pub set_address : (SellAddress → SellAddress) → SellPage → SellPage
set_address change p = record p { addr = change p.addr }

-- What the application looks at of an error: `error.message`, the first error of the business's name,
-- and `detail`.
pub record Refusal : Type 0 where
  pub message : Option String
  pub business_name : Option String
  pub detail : Option String

-- `a ?? b`
abbrev or_text : Option String → String → String
or_text none b = b
or_text (some a) b = a

unfoldable pub extract_error : Option Refusal → String
extract_error none = "Something went wrong. Please check the form and try again."
extract_error (some r) = or_text r.message (
    or_text r.business_name
      (or_text r.detail "Something went wrong. Please check the form and try again."))

-- `trim` is the language's.
module _ (trim : String → String) where
  -- `text.trim() || undefined`, as an entry of an object.
  abbrev pub entry : String → String → List (String × String)
  entry name value = if is_blank (trim value) then [] else (name, trim value) ∷ []

  pub address_entries : SellAddress → List (String × String)
  address_entries a =
      ("line1", trim a.line1) ∷ entry "line2" a.line2
      ++ ("city", trim a.city) ∷ entry "county" a.county
      ++ ("postcode", trim a.postcode)
        ∷ ("country", if is_blank (trim a.country) then "GB" else trim a.country)
        ∷ []

  -- The test of an address that is sent.
  unfoldable pub is_complete : SellAddress → Bool
  is_complete a =
      not (is_blank (trim a.line1))
      && not (is_blank (trim a.city))
      && not (is_blank (trim a.postcode))

  unfoldable pub address_field : SellAddress → Fields
  unfolding address_entries
  address_field a = if is_complete a then ("address", Value.object (address_entries a)) ∷ [] else []

  unfoldable pub payload : SellPage → Fields
  unfolding address_field
  payload p =
      ("business_name", Requests.text (trim p.form.business_name))
        ∷ if_given "description" (some (trim p.form.description))
      ++ if_given "phone" (some (trim p.form.phone))
      ++ if_given "website" (some (trim p.form.website))
      ++ if_given "logo_url" (some (trim p.form.logo_url))
      ++ address_field p.addr

  unfoldable pub apply_call : SellPage → SupplierCall
  unfolding payload
  apply_call p = register_supplier (payload p)

  unfoldable pub apply_disabled : Bool → SellPage → Bool
  apply_disabled pending p = pending || is_blank (trim p.form.business_name)

  form_parts : Bool → SellPage → List Part
  form_parts pending p =
      text "Tell us about your business"
        ∷ field "Business name *" p.form.business_name
        ∷ field "What you sell" p.form.description
        ∷ field "Phone" p.form.phone
        ∷ field "Website" p.form.website
        ∷ text "Business address (optional)"
        ∷ field "Address line 1" p.addr.line1
        ∷ field "Address line 2" p.addr.line2
        ∷ field "City" p.addr.city
        ∷ field "County" p.addr.county
        ∷ field "Postcode" p.addr.postcode
        ∷ field "Country" p.addr.country
        ∷ when (not (is_blank p.error)) (text p.error ∷ [])
      ++ button (if pending then "Submitting…" else "Submit application") (apply_disabled pending p)
        ∷ text "Your account is upgraded to a supplier and reviewed before you can list."
        ∷ []

  -- `Panel` for a store that is initialised, by the role of its user.
  role_panel : Bool → SellPage → Option UserRole → List Part
  unfolding form_parts
  role_panel pending p none =
      text "Start your application"
      ∷ text "You need a Provena account to sell. Log in or sign up, then come back to apply."
      ∷ link "/login?next=/sell" "Log in to apply"
      ∷ link "/register?next=/sell" "Create an account"
      ∷ []
  role_panel pending p (some supplier) =
      text "You already sell on Provena"
      ∷ text "Manage your products, orders and payouts from your supplier dashboard."
      ∷ link "/supplier/dashboard" "Go to your dashboard"
      ∷ []
  role_panel pending p (some admin) =
      text "You're signed in as an admin"
      ∷ text "Suppliers are reviewed and managed from the admin area."
      ∷ link "/admin/suppliers" "Manage suppliers"
      ∷ []
  role_panel pending p (some buyer) = form_parts pending p

  unfoldable pub panel : Bool → Option UserRole → Bool → SellPage → List Part
  unfolding role_panel
  panel is_initialised role pending p =
      if p.done
      then text "Application received"
        ∷ text
            "Your supplier profile is pending review. Next, set up two-factor authentication and connect Stripe from your dashboard, and our team will verify your business."
        ∷ link "/supplier/dashboard" "Go to your dashboard"
        ∷ []
      else if not is_initialised
      then text "Loading…" ∷ []
      else role_panel pending p role

-- The ends of the call. After a success the profile is asked for again; `none` is a call of that which
-- throws. With the store and its calls, in a browser. `setUser` is not awaited: the page is done while
-- the calls are under way.
unfoldable pub apply_succeeded :
    Option UserProfile → SellPage → AuthState → SellPage × AuthState × List Call
apply_succeeded none p s = (record p { done = true }, s, [])
apply_succeeded (some profile) p s =
    let (t, calls) = set_user true profile s in (record p { done = true }, t, calls)

unfoldable pub apply_failed : Option Refusal → SellPage → SellPage
unfolding extract_error
apply_failed data_ p = record p { error = extract_error data_ }
