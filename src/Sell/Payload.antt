-- ===== src/Sell/Payload.antt =====
-- What an application of provena-web/src/app/sell/page.tsx sends.
use provena.Base.{
  String, Bool, true, false, some, List, [], ◌∷◌, ◌++◌, ◌≡◌, refl, arith, is_blank, if◌then◌else◌,
  string_eq, All, if_cases, All-append,
}
use provena.Requests.{Fields, Value, if_given}
use provena.Requests
use provena.Sell.{
  SellPage, SellAddress, is_complete, address_field, address_entries, payload, apply_disabled,
  entry,
}

-- An entry that holds no empty text, directly or in its object.
abbrev pub Filled : Value → Type 0
Filled (Value.text s) = is_blank s ≡ false
Filled (Value.object entries) = All (λ (e : String × String). is_blank e.1 ≡ false) entries
Filled Value.null = Unit
Filled (Value.flag b) = Unit
Filled (Value.number n) = Unit
Filled (Value.texts ss) = Unit
Filled (Value.item_list items) = Unit

abbrev AllFilled : Fields → Type 0
AllFilled fields = All (λ (f : String × Value). Filled f.1) fields

if_given-Filled : (name value : String) → AllFilled (if_given name (some value))
if_given-Filled name value = if_cases AllFilled (is_blank value) (λ _. tt) (λ full. (full, tt))

abbrev PlainFilled : List (String × String) → Type 0
PlainFilled entries = All (λ (e : String × String). is_blank e.1 ≡ false) entries

module _ (trim : String → String) where
  entry-Filled : (name value : String) → PlainFilled (entry trim name value)
  entry-Filled name value =
      if_cases PlainFilled (is_blank (trim value)) (λ _. tt) (λ full. (full, tt))

  country-Filled : (c : String) → is_blank (if is_blank c then "GB" else c) ≡ false
  country-Filled c = if_cases (λ s. is_blank s ≡ false) (is_blank c) (λ _. refl) (λ full. full)

  address-Filled :
      (a : SellAddress) → is_complete trim a ≡ true → PlainFilled (address_entries trim a)
  unfolding is_complete address_entries
  address-Filled a h =
      let P = λ (e : String × String). is_blank e.1 ≡ false in
      let street = ("line1", trim a.line1) ∷ entry trim "line2" a.line2 in
      let town = ("city", trim a.city) ∷ entry trim "county" a.county in
      let rest =
        ("postcode", trim a.postcode)
        ∷ ("country", if is_blank (trim a.country) then "GB" else trim a.country)
        ∷ [] in
      All-append P (street ++ town) rest
        (All-append P street town (ground (arith, h), entry-Filled "line2" a.line2)
          (ground (arith, h), entry-Filled "county" a.county))
        (ground (arith, h), (country-Filled (trim a.country), tt))

  address_field-Filled : (a : SellAddress) → AllFilled (address_field trim a)
  unfolding address_field
  address_field-Filled a =
      if_cases AllFilled (is_complete trim a) (λ full. (address-Filled a full, tt)) (λ _. tt)

  -- If the button can be pressed, the application that is sent holds no empty text, neither among its
  -- own fields nor in its address.
  pub payload-Filled :
      (pending : Bool) (p : SellPage)
      → apply_disabled trim pending p ≡ false
      → All (λ (f : String × Value). Filled f.1) (payload trim p)
  unfolding apply_disabled payload
  payload-Filled pending p h =
      let P = λ (f : String × Value). Filled f.1 in
      let name =
        ("business_name", Requests.text (trim p.form.business_name))
        ∷ if_given "description" (some (trim p.form.description)) in
      let phone = if_given "phone" (some (trim p.form.phone)) in
      let website = if_given "website" (some (trim p.form.website)) in
      let logo = if_given "logo_url" (some (trim p.form.logo_url)) in
      All-append P (name ++ phone ++ website ++ logo) (address_field trim p.addr)
        (All-append P (name ++ phone ++ website) logo
          (All-append P (name ++ phone) website
            (All-append P name phone
              (ground (arith, h), if_given-Filled "description" (trim p.form.description))
              (if_given-Filled "phone" (trim p.form.phone)))
            (if_given-Filled "website" (trim p.form.website)))
          (if_given-Filled "logo_url" (trim p.form.logo_url)))
        (address_field-Filled p.addr)
