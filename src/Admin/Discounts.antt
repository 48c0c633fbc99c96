-- ===== src/Admin/Discounts.antt =====
-- provena-web/src/app/admin/discounts/page.tsx: the discount codes, with the form for a new one.
use provena.Base.{
  ℕ, String, Bool, false, ◌&&◌, not, Option, none, some, List, [], ◌∷◌, ◌++◌, ◌<>◌, ◌==◌, nat_eq,
  is_blank, is_empty, if◌then◌else◌, ℤ,
}
use provena.Requests.{Fields, Value}
use provena.Requests as Requests
use provena.Requests.Admin.{UserCall, get_admin_discounts, create_discount, update_discount}
use provena.Paging.{pagination, Bar}
use provena.Markup.{Part, text, number, button, field, when}

pub data DiscountType : Type 0 where
  percentage fixed : DiscountType

pub data DiscountFunding : Type 0 where
  platform supplier : DiscountFunding

pub record DiscountCode : Type 0 where
  pub id : String
  pub code : String
  pub discount_type : DiscountType
  pub value : String
  pub funded_by : DiscountFunding
  pub minimum_spend : String
  pub valid_from : Option String
  pub valid_until : Option String
  pub max_uses : Option ℕ
  pub max_uses_per_buyer : Option ℕ
  pub is_active : Bool
  pub times_used : ℕ
  pub total_discount : String
  pub created_at : String
  pub updated_at : String

pub record CreateState : Type 0 where
  pub code : String
  pub discount_type : DiscountType
  pub value : String
  pub funded_by : DiscountFunding
  pub minimum_spend : String
  pub max_uses : String
  pub max_uses_per_buyer : String

abbrev pub empty : CreateState
empty = record {
  code = "";
  discount_type = percentage;
  value = "";
  funded_by = platform;
  minimum_spend = "0";
  max_uses = "";
  max_uses_per_buyer = "";
}

unfoldable pub type_text : DiscountType → String
type_text percentage = "PERCENTAGE"
type_text fixed = "FIXED"

unfoldable pub funding_text : DiscountFunding → String
funding_text platform = "PLATFORM"
funding_text supplier = "SUPPLIER"

pub record CreateForm : Type 0 where
  pub form : CreateState
  pub error : Option String

-- The page; the form is there while it is shown.
pub record DiscountsPage : Type 0 where
  pub page : ℕ
  pub create : Option CreateForm

abbrev pub initial : DiscountsPage
initial = record { page = 1; create = none }

-- `created` is the success of a call, and `refused` the refusal of one that the form which is shown has
-- made, which may be without data.
pub data Event : Type 0 where
  toggle_create press_create created : Event
  change_page : ℕ → Event
  type_code type_value type_minimum type_max type_max_per_buyer : (value : String) → Event
  choose_type : DiscountType → Event
  choose_funding : DiscountFunding → Event
  refused : (json : Option String) → Event

abbrev or_text : Option String → String
or_text none = "Could not create the code."
or_text (some json) = json

abbrev in_form : (CreateForm → CreateForm) → Option CreateForm → Option CreateForm
in_form f none = none
in_form f (some c) = some (f c)

abbrev set : (CreateState → CreateState) → DiscountsPage → DiscountsPage
set f p = record p { create = in_form (λ c. record c { form = f c.form }) p.create }

abbrev toggled : Option CreateForm → Option CreateForm
toggled none = some (record { form = empty; error = none })
toggled (some c) = none

-- `upper` is `toUpperCase`.
unfoldable pub on_event : (upper : String → String) → Event → DiscountsPage → DiscountsPage
on_event upper toggle_create p = record p { create = toggled p.create }
on_event upper press_create p = record p {
  create = in_form (λ c. record c { error = none }) p.create;
}
on_event upper created p = record p { create = none }
on_event upper (change_page n) p = record p { page = n }
on_event upper (type_code v) p = set (λ f. record f { code = upper v }) p
on_event upper (type_value v) p = set (λ f. record f { value = v }) p
on_event upper (type_minimum v) p = set (λ f. record f { minimum_spend = v }) p
on_event upper (type_max v) p = set (λ f. record f { max_uses = v }) p
on_event upper (type_max_per_buyer v) p = set (λ f. record f { max_uses_per_buyer = v }) p
on_event upper (choose_type t) p = set (λ f. record f { discount_type = t }) p
on_event upper (choose_funding s) p = set (λ f. record f { funded_by = s }) p
on_event upper (refused json) p = record p {
  create = in_form (λ c. record c { error = some (or_text json) }) p.create;
}

-- `to_number` is the language's `Number`.
module _ (trim upper : String → String) (to_number : String → ℤ) where
  abbrev number_or_null : String → Value
  number_or_null s = if is_blank s then Value.null else Value.number (to_number s)

  unfoldable pub create_call : CreateState → UserCall
  unfolding type_text funding_text
  create_call f = create_discount (
      ("code", Requests.text (upper (trim f.code)))
      ∷ ("discount_type", Requests.text (type_text f.discount_type))
      ∷ ("value", Requests.text f.value)
      ∷ ("funded_by", Requests.text (funding_text f.funded_by))
      ∷ ("minimum_spend", Requests.text (if is_blank f.minimum_spend then "0" else f.minimum_spend))
      ∷ ("max_uses", number_or_null f.max_uses)
      ∷ ("max_uses_per_buyer", number_or_null f.max_uses_per_buyer)
      ∷ [])

  -- What the button asks for: nothing while a call is under way.
  unfoldable pub press_create_call : Bool → CreateState → Option UserCall
  unfolding create_call
  press_create_call is_pending f =
      if not is_pending && (not (is_blank (trim f.code)) && not (is_blank f.value))
      then some (create_call f)
      else none

unfoldable pub switch_call : DiscountCode → UserCall
switch_call c = update_discount c.id (("is_active", Value.flag (not c.is_active)) ∷ [])

unfoldable pub discounts_call : DiscountsPage → UserCall
discounts_call p = get_admin_discounts p.page

value_text : DiscountType → String → String
value_text percentage value = value <> "%"
value_text fixed value = "£" <> value

-- A limit of nothing is shown as no limit.
uses_parts : ℕ → Option ℕ → List Part
uses_parts times_used none = number times_used ∷ []
uses_parts times_used (some n) = number times_used ∷ when (not (n == 0)) (text "/" ∷ number n ∷ [])

funding_label : DiscountFunding → String
funding_label platform = "Platform"
funding_label supplier = "Supplier"

-- The row of a code, with whether its own call is under way.
unfoldable pub code_row : Bool → DiscountCode → List Part
unfolding value_text uses_parts funding_label
code_row is_pending c =
    text c.code
      ∷ text (value_text c.discount_type c.value)
      ∷ text (funding_label c.funded_by)
      ∷ text ("£" <> c.minimum_spend)
      ∷ uses_parts c.times_used c.max_uses
    ++ text ("£" <> c.total_discount)
      ∷ text (if c.is_active then "Active" else "Inactive")
      ∷ button (if c.is_active then "Deactivate" else "Reactivate") is_pending
      ∷ []

unfoldable pub code_rows : (DiscountCode → Bool) → List DiscountCode → List Part
unfolding code_row
code_rows pending [] = []
code_rows pending (c ∷ codes) = code_row (pending c) c ++ code_rows pending codes

value_hint : DiscountType → String
value_hint percentage = "% e.g. 10"
value_hint fixed = "£ e.g. 5.00"

error_parts : Option String → List Part
error_parts none = []
error_parts (some e) = text e ∷ []

unfoldable pub create_parts : Bool → Option CreateForm → List Part
unfolding value_hint error_parts type_text funding_text
create_parts is_pending none = []
create_parts is_pending (some c) =
    text "New discount code"
    ∷ field "CODE" c.form.code
    ∷ field "Type" (type_text c.form.discount_type)
    ∷ field (value_hint c.form.discount_type) c.form.value
    ∷ field "Funding" (funding_text c.form.funded_by)
    ∷ field "Min spend £" c.form.minimum_spend
    ∷ field "Max uses (blank = ∞)" c.form.max_uses
    ∷ field "Per buyer (blank = ∞)" c.form.max_uses_per_buyer
    ∷ button (if is_pending then "Creating…" else "Create") is_pending
    ∷ error_parts c.error

bar_parts : Option Bar → List Part
bar_parts none = []
bar_parts (some bar) =
    number bar.from
    ∷ number bar.to
    ∷ number bar.of
    ∷ button "Previous page" bar.previous_disabled
    ∷ button "Next page" bar.next_disabled
    ∷ []

unfoldable pub discounts_view :
    Bool → (DiscountCode → Bool) → Bool → List DiscountCode → ℕ → DiscountsPage → List Part
unfolding create_parts code_rows bar_parts
discounts_view creating pending loading codes count p =
    text "Discounts"
      ∷ text "Create and manage voucher codes"
      ∷ button "New code" false
      ∷ create_parts creating p.create
    ++ (if loading
        then text "Loading…" ∷ []
        else if is_empty codes
        then text "No discount codes yet." ∷ []
        else code_rows pending codes)
    ++ bar_parts (pagination p.page count 20)
