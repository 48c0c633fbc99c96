-- ===== src/Addresses/View.antt =====
-- What the page of provena-web/src/app/account/addresses/page.tsx shows.
use provena.Base.{
  String, Bool, false, ◌&&◌, not, Option, none, some, List, [], ◌∷◌, ◌++◌, ◌<>◌, ◌==◌, string_eq,
  nat_eq, is_blank, is_empty, length, if◌then◌else◌,
}
use provena.Types.Address.{Address}
use provena.Goods.{find}
use provena.Markup.{Part, text, number, button, field, when}
use provena.Addresses.{AddressesPage, AddressPayload, countries, is_edited, offers_add, form_or}

-- `COUNTRIES.find(…)?.name ?? address.country`
country_or : Option (String × String) → String → String
country_or none code = code
country_or (some (code, name)) other = name

unfoldable pub country_name : String → String
unfolding country_or
country_name code = country_or (find (λ (c : String × String). c.0 == code) countries) code

unfoldable pub form_parts : Bool → AddressPayload → List Part
form_parts pending f =
    field "Label (optional)" f.label
    ∷ field "Full name*" f.full_name
    ∷ field "Address line 1*" f.line1
    ∷ field "Address line 2" f.line2
    ∷ field "City*" f.city
    ∷ field "Postcode*" f.postcode
    ∷ field "Country*" f.country
    ∷ button (if pending then "Saving…" else "Save address") pending
    ∷ button "Cancel" false
    ∷ []

unfoldable pub address_card : Address → List Part
unfolding country_name
address_card a =
    text a.full_name ∷ when (not (is_blank a.label)) (text a.label ∷ [])
    ++ when a.is_default (text "Default" ∷ [])
    ++ text a.line1 ∷ when (not (is_blank a.line2)) (text (", " <> a.line2) ∷ [])
    ++ text (a.city <> ", " <> a.postcode)
      ∷ text (country_name a.country)
      ∷ when (not a.is_default) (button "Set as default" false ∷ [])
    ++ button "Edit" false ∷ button "Delete" false ∷ []

-- The addresses; the one that is edited stands as its form.
unfoldable pub list_parts : Bool → AddressesPage → List Address → List Part
unfolding form_parts address_card
list_parts updating p [] = []
list_parts updating p (addr ∷ addresses) =
    (if is_edited p.editing addr
      then form_parts updating (form_or p.edit_form addr)
      else address_card addr)
    ++ list_parts updating p addresses

unfoldable pub addresses_view : Bool → Bool → AddressesPage → List Part
unfolding list_parts form_parts
addresses_view creating updating p =
    text "Saved addresses"
      ∷ number (length p.addresses)
      ∷ text (if length p.addresses == 1 then "address saved" else "addresses saved")
      ∷ when (offers_add p) (button "Add address" false ∷ [])
    ++ when p.show_form (form_parts creating p.add_form)
    ++ (if p.is_pending
        then text "Loading…" ∷ []
        else if is_empty p.addresses && not p.show_form
        then text "No saved addresses yet." ∷ button "Add your first address" false ∷ []
        else list_parts updating p p.addresses)
