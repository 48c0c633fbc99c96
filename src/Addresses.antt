-- ===== src/Addresses.antt =====
-- provena-web/src/app/account/addresses/page.tsx: the addresses that a user has saved, with the form
-- for a new one and the form in place of the one that is edited. Addresses/View is what it shows.
pub mod View
pub mod Forms
use provena.Base.{
  ℕ, String, Bool, true, false, ◌&&◌, ◌||◌, not, Option, none, some, List, [], ◌∷◌, ◌==◌, string_eq,
  is_blank, is_empty, if◌then◌else◌, any,
}
use provena.Types.Address.{Address}
use provena.Requests.{Fields, text}
use provena.Requests.Account.{
  AddressCall, create_address, update_address, delete_address, set_default_address,
}
use provena.Goods.{find}

-- `COUNTRIES`: codes and names.
abbrev pub countries : List (String × String)
countries =
    ("GB", "United Kingdom")
    ∷ ("IE", "Ireland")
    ∷ ("FR", "France")
    ∷ ("DE", "Germany")
    ∷ ("NL", "Netherlands")
    ∷ []

-- `AddressPayload`; neither form has a field for `is_default`.
pub record AddressPayload : Type 0 where
  pub label : String
  pub full_name : String
  pub line1 : String
  pub line2 : String
  pub city : String
  pub postcode : String
  pub country : String

abbrev pub empty_form : AddressPayload
empty_form = record {
  label = "";
  full_name = "";
  line1 = "";
  line2 = "";
  city = "";
  postcode = "";
  country = "GB";
}

-- What the form of an address starts from.
unfoldable pub payload_of : Address → AddressPayload
payload_of addr = record {
  label = addr.label;
  full_name = addr.full_name;
  line1 = addr.line1;
  line2 = addr.line2;
  city = addr.city;
  postcode = addr.postcode;
  country = addr.country;
}

pub data Key : Type 0 where
  label full_name line1 line2 city postcode country : Key

-- `set(key)(v)`
unfoldable pub set_field : Key → String → AddressPayload → AddressPayload
set_field label v f = record f { label = v }
set_field full_name v f = record f { full_name = v }
set_field line1 v f = record f { line1 = v }
set_field line2 v f = record f { line2 = v }
set_field city v f = record f { city = v }
set_field postcode v f = record f { postcode = v }
set_field country v f = record f { country = v }

unfoldable pub entries_of : AddressPayload → Fields
entries_of f =
    ("label", text f.label)
    ∷ ("full_name", text f.full_name)
    ∷ ("line1", text f.line1)
    ∷ ("line2", text f.line2)
    ∷ ("city", text f.city)
    ∷ ("postcode", text f.postcode)
    ∷ ("country", text f.country)
    ∷ []

-- A form is submitted where no required field is empty and its button is not disabled.
unfoldable pub is_complete : AddressPayload → Bool
is_complete f =
    not (is_blank f.full_name)
    && (not (is_blank f.line1)
        && (not (is_blank f.city) && (not (is_blank f.postcode) && not (is_blank f.country))))

unfoldable pub can_submit : Bool → AddressPayload → Bool
unfolding is_complete
can_submit pending f = is_complete f && not pending

-- The page. `edit_form` holds the fields of the form that stands in the list, if one does.
pub record AddressesPage : Type 0 where
  pub show_form : Bool
  pub editing : Option Address
  pub add_form : AddressPayload
  pub edit_form : Option AddressPayload
  pub addresses : List Address
  pub is_pending : Bool

abbrev pub initial : AddressesPage
initial = record {
  show_form = false;
  editing = none;
  add_form = empty_form;
  edit_form = none;
  addresses = [];
  is_pending = true;
}

-- `created` and `updated` are the success of their calls, `listed` an answer with the list.
pub data Event : Type 0 where
  press_add press_first cancel_add created cancel_edit updated : Event
  press_edit : (addr : Address) → Event
  fill_add fill_edit : (key : Key) (value : String) → Event
  listed : (addresses : List Address) → Event

-- The form in the list, when the list has come anew: it stays as long as the address is there.
abbrev pub form_or : Option AddressPayload → Address → AddressPayload
form_or none addr = payload_of addr
form_or (some f) addr = f

abbrev pub keep_form : Option AddressPayload → Option Address → Option AddressPayload
keep_form f none = none
keep_form f (some addr) = some (form_or f addr)

abbrev pub find_edited : Option Address → List Address → Option Address
find_edited none addresses = none
find_edited (some e) addresses = find (λ (addr : Address). e.id == addr.id) addresses

abbrev pub fill : (AddressPayload → AddressPayload) → Option AddressPayload → Option AddressPayload
fill change none = none
fill change (some f) = some (change f)

unfoldable pub on_event : Event → AddressesPage → AddressesPage
on_event press_add p = record p { show_form = true; add_form = empty_form }
on_event press_first p = record p { show_form = true; add_form = empty_form }
on_event cancel_add p = record p { show_form = false }
on_event created p = record p { show_form = false }
on_event cancel_edit p = record p { editing = none; edit_form = none }
on_event updated p = record p { editing = none; edit_form = none }
on_event (press_edit addr) p = record p {
  show_form = false;
  editing = some addr;
  edit_form = some (payload_of addr);
}
on_event (fill_add key value) p = record p { add_form = set_field key value p.add_form }
on_event (fill_edit key value) p = record p { edit_form = fill (set_field key value) p.edit_form }
on_event (listed addresses) p = record p {
  addresses = addresses;
  is_pending = false;
  edit_form = keep_form p.edit_form (find_edited p.editing addresses);
}

-- The calls of the buttons: of the two forms, and of an address's card.
unfoldable pub submit_add : Bool → AddressesPage → Option AddressCall
submit_add pending p =
    if p.show_form && can_submit pending p.add_form
    then some (create_address (entries_of p.add_form))
    else none

unfoldable pub edit_call : Bool → Option Address → Option AddressPayload → Option AddressCall
edit_call pending none f = none
edit_call pending (some addr) none = none
edit_call pending (some addr) (some f) =
    if can_submit pending f then some (update_address addr.id (entries_of f)) else none

unfoldable pub submit_edit : Bool → AddressesPage → Option AddressCall
unfolding edit_call
submit_edit pending p = edit_call pending p.editing p.edit_form

abbrev pub press_delete : Address → AddressCall
press_delete addr = delete_address addr.id

abbrev pub press_default : Address → Option AddressCall
press_default addr = if addr.is_default then none else some (set_default_address addr.id)

abbrev pub is_edited : Option Address → Address → Bool
is_edited none addr = false
is_edited (some e) addr = e.id == addr.id

abbrev pub is_given : Option Address → Bool
is_given none = false
is_given (some e) = true

-- Whether the button for a new address is there.
unfoldable pub offers_add : AddressesPage → Bool
offers_add p = not p.show_form && not (is_given p.editing)

-- Whether the button for a first address is there.
unfoldable pub offers_first : AddressesPage → Bool
offers_first p = not p.is_pending && is_empty p.addresses && not p.show_form
