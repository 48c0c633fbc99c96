-- ===== src/Settings.antt =====
-- provena-web/src/app/supplier/settings/page.tsx: a supplier's charges for delivery and VAT number.
-- Settings/Saved is about what is saved.
pub mod Saved
use provena.Base.{
  String, Bool, true, false, ◌||◌, not, Option, none, some, List, [], ◌∷◌, ◌++◌, ◌==◌, string_eq,
  is_blank, if◌then◌else◌,
}
use provena.Types.Order.{FulfilmentMode, supplier_ship, platform_delivery}
use provena.Types.Supplier.{ShippingPolicy, flat, free_over_threshold, per_item}
use provena.Requests.{Fields, Value}
use provena.Requests as Requests
use provena.Requests.Management.{SupplierCall, update_my_supplier_profile}
use provena.Markup.{Part, text, button, field, when}

-- Of the profile the page reads these fields.
pub record Profile : Type 0 where
  pub fulfilment_mode : FulfilmentMode
  pub shipping_policy : ShippingPolicy
  pub shipping_flat_rate : String
  pub shipping_per_item_rate : String
  pub free_shipping_threshold : Option String
  pub vat_number : String

pub record FormState : Type 0 where
  pub shipping_policy : ShippingPolicy
  pub shipping_flat_rate : String
  pub shipping_per_item_rate : String
  pub free_shipping_threshold : String
  pub vat_number : String

abbrev pub or_blank : Option String → String
or_blank none = ""
or_blank (some s) = s

unfoldable pub form_of : Profile → FormState
form_of p = record {
  shipping_policy = p.shipping_policy;
  shipping_flat_rate = p.shipping_flat_rate;
  shipping_per_item_rate = p.shipping_per_item_rate;
  free_shipping_threshold = or_blank p.free_shipping_threshold;
  vat_number = p.vat_number;
}

unfoldable pub policy_text : ShippingPolicy → String
policy_text flat = "FLAT"
policy_text free_over_threshold = "FREE_OVER_THRESHOLD"
policy_text per_item = "PER_ITEM"

-- What the form asks the API to change, `trim` being the language's.
pub record Payload : Type 0 where
  pub shipping_policy : ShippingPolicy
  pub shipping_flat_rate : String
  pub shipping_per_item_rate : String
  pub free_shipping_threshold : Option String
  pub vat_number : String

-- `rate || '0.00'`
abbrev pub or_nought : String → String
or_nought rate = if is_blank rate then "0.00" else rate

unfoldable pub payload_of : (String → String) → FormState → Payload
payload_of trim f = record {
  shipping_policy = f.shipping_policy;
  shipping_flat_rate = or_nought f.shipping_flat_rate;
  shipping_per_item_rate = or_nought f.shipping_per_item_rate;
  free_shipping_threshold =
      if trim f.free_shipping_threshold == "" then none else some f.free_shipping_threshold;
  vat_number = trim f.vat_number;
}

abbrev or_null : Option String → Value
or_null none = Value.null
or_null (some s) = Value.text s

unfoldable pub save_call : Payload → SupplierCall
unfolding policy_text
save_call p = update_my_supplier_profile (
    ("shipping_policy", Requests.text (policy_text p.shipping_policy))
    ∷ ("shipping_flat_rate", Requests.text p.shipping_flat_rate)
    ∷ ("shipping_per_item_rate", Requests.text p.shipping_per_item_rate)
    ∷ ("free_shipping_threshold", or_null p.free_shipping_threshold)
    ∷ ("vat_number", Requests.text p.vat_number)
    ∷ [])

-- The form with its error, and its events; `failed` is a refusal, whose detail may be missing.
pub record SettingsForm : Type 0 where
  pub form : FormState
  pub error : Option String

pub data Key : Type 0 where
  flat_rate per_item_rate threshold vat : Key

pub data Event : Type 0 where
  choose_policy : ShippingPolicy → Event
  type : (key : Key) (value : String) → Event
  submit : Event
  failed : (detail : Option String) → Event

unfoldable pub set_field : Key → String → FormState → FormState
set_field flat_rate v f = record f { shipping_flat_rate = v }
set_field per_item_rate v f = record f { shipping_per_item_rate = v }
set_field threshold v f = record f { free_shipping_threshold = v }
set_field vat v f = record f { vat_number = v }

abbrev or_text : Option String → String
or_text none = "Could not save. Please check the values and try again."
or_text (some detail) = detail

unfoldable pub on_event : Event → SettingsForm → SettingsForm
unfolding set_field
on_event (choose_policy policy) s = record s { form = record s.form { shipping_policy = policy } }
on_event (type key value) s = record s { form = set_field key value s.form }
on_event submit s = record s { error = none }
on_event (failed detail) s = record s { error = some (or_text detail) }

policy_parts : FormState → ShippingPolicy → List Part
policy_parts f flat =
    field "Flat rate (£)" f.shipping_flat_rate ∷ text "Set to 0 for free delivery." ∷ []
policy_parts f free_over_threshold =
    field "Flat rate (£)" f.shipping_flat_rate
    ∷ text "Set to 0 for free delivery."
    ∷ field "Free over (£)" f.free_shipping_threshold
    ∷ text "Orders of goods at or above this value ship free."
    ∷ []
policy_parts f per_item = field "Rate per item (£)" f.shipping_per_item_rate ∷ []

shipping_parts : FormState → FulfilmentMode → List Part
unfolding policy_parts policy_text
shipping_parts f platform_delivery =
    text "Delivery handled by Provena"
    ∷ text
        "Provena arranges the courier and sets the delivery fee for your orders — you don't need to configure shipping. You fulfil the goods; we handle delivery."
    ∷ []
shipping_parts f supplier_ship =
    field "Delivery charge" (policy_text f.shipping_policy) ∷ policy_parts f f.shipping_policy

error_parts : Option String → List Part
error_parts none = []
error_parts (some e) = text e ∷ []

-- The page: its profile, once it is there, and whether saving has succeeded or is under way.
unfoldable pub settings_view : Bool → Bool → Option Profile → SettingsForm → List Part
unfolding shipping_parts error_parts
settings_view is_success is_pending none s = text "Loading…" ∷ []
settings_view is_success is_pending (some profile) s =
    text "Settings"
      ∷ text "Delivery charges and VAT details"
      ∷ text "Shipping"
      ∷ shipping_parts s.form profile.fulfilment_mode
    ++ text "VAT"
      ∷ field "VAT number" s.form.vat_number
      ∷ text "Shown on buyer receipts for orders you fulfil."
      ∷ error_parts s.error
    ++ when is_success (when (not is_pending) (text "Saved." ∷ []))
    ++ button (if is_pending then "Saving…" else "Save changes") is_pending ∷ []
