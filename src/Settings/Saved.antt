-- ===== src/Settings/Saved.antt =====
-- What the form of provena-web/src/app/supplier/settings/page.tsx saves, against the profile. The API
-- keeps the charges as decimals (provena-api/apps/suppliers/models.py).
use provena.Base.{
  String, false, Option, none, some, ◌≡◌, ◌≢◌, refl, sym, ap, ◌∙◌, arith, eq_iff, is_blank, ◌==◌,
  string_eq, if◌then◌else◌,
}
use provena.Settings.{Profile, FormState, Payload, form_of, payload_of, or_nought, or_blank}

-- What the API does with an amount: a decimal field reads what is typed and writes it with a fixed
-- number of places. What it writes is not empty, has no white space around it, and is read and written
-- again as the same.
pub record Decimals (trim : String → String) : Type 1 where
  pub IsAmount : String → Type 0
  pub written : String → String
  pub filled : (s : String) → IsAmount s → is_blank (written s) ≡ false
  pub trimmed : (s : String) → IsAmount s → trim (written s) ≡ written s
  pub settled : (s : String) → IsAmount s → written (written s) ≡ written s

module _ (trim : String → String) (decimals : Decimals trim) where
  open decimals use {IsAmount, written, filled, trimmed, settled}

  abbrev pub written_if : Option String → Option String
  written_if none = none
  written_if (some s) = some (written s)

  abbrev pub IsAmountIf : Option String → Type 0
  IsAmountIf none = Unit
  IsAmountIf (some s) = IsAmount s

  -- A call that the API takes, and the fields that it then has.
  abbrev pub IsTaken : Payload → Type 0
  IsTaken c =
      IsAmount c.shipping_flat_rate
      × IsAmount c.shipping_per_item_rate
      × IsAmountIf c.free_shipping_threshold

  abbrev pub kept : Payload → Payload
  kept c = record c {
    shipping_flat_rate = written c.shipping_flat_rate;
    shipping_per_item_rate = written c.shipping_per_item_rate;
    free_shipping_threshold = written_if c.free_shipping_threshold;
  }

  -- The profile after such a call.
  abbrev pub saved : Payload → Profile → Profile
  saved c p = record p {
    shipping_policy = c.shipping_policy;
    shipping_flat_rate = written c.shipping_flat_rate;
    shipping_per_item_rate = written c.shipping_per_item_rate;
    free_shipping_threshold = written_if c.free_shipping_threshold;
    vat_number = c.vat_number;
  }

  -- A field that shows an amount as it was written is sent unchanged.
  rate_again : (s : String) → IsAmount s → or_nought (written s) ≡ written s
  rate_again s h = ground (arith, filled s h)

  not_empty : (s : String) → IsAmount s → trim (written s) ≢ ""
  not_empty s h e = cc (sym (filled s h) ∙ ap is_blank (sym (trimmed s h) ∙ e))

  threshold_again :
      (t : Option String)
      → trim "" ≡ ""
      → IsAmountIf t
      → (if trim (or_blank (written_if t)) == "" then none else some (or_blank (written_if t)))
        ≡ written_if t
  threshold_again none blank h = ground (arith, blank, eq_iff (trim "") "")
  threshold_again (some s) blank h = ground (arith, not_empty s h, eq_iff (trim (written s)) "")

  written_if-settled : (t : Option String) → IsAmountIf t → written_if (written_if t) ≡ written_if t
  written_if-settled none h = refl
  written_if-settled (some s) h = ap some (settled s h)

  -- The form that is opened anew asks for what the API has kept.
  asks_again :
      (c : Payload) (p : Profile)
      → trim "" ≡ ""
      → trim c.vat_number ≡ c.vat_number
      → IsTaken c
      → payload_of trim (form_of (saved c p)) ≡ kept c
  unfolding payload_of form_of
  asks_again c p blank vat (flat_rate, per_item, threshold) i = record (kept c) {
    shipping_flat_rate = rate_again c.shipping_flat_rate flat_rate i;
    shipping_per_item_rate = rate_again c.shipping_per_item_rate per_item i;
    free_shipping_threshold = threshold_again c.free_shipping_threshold blank threshold i;
    vat_number = vat i;
  }

  saved_again : (c : Payload) (p : Profile) → IsTaken c → saved (kept c) (saved c p) ≡ saved c p
  saved_again c p (flat_rate, per_item, threshold) i = record (saved c p) {
    shipping_flat_rate = settled c.shipping_flat_rate flat_rate i;
    shipping_per_item_rate = settled c.shipping_per_item_rate per_item i;
    free_shipping_threshold = written_if-settled c.free_shipping_threshold threshold i;
  }

  vat_trimmed :
      (f : FormState)
      → ((s : String) → trim (trim s) ≡ trim s)
      → trim (payload_of trim f).vat_number ≡ (payload_of trim f).vat_number
  unfolding payload_of
  vat_trimmed f twice = twice f.vat_number

  -- Whatever was typed, if the API takes what the form asks for: the form that is opened anew asks for
  -- the same policy and VAT number and for the same amounts, as the API writes them, and saving it
  -- changes nothing in the profile.
  pub payload_of-saved :
      (f : FormState) (p : Profile)
      → trim "" ≡ ""
      → ((s : String) → trim (trim s) ≡ trim s)
      → IsTaken (payload_of trim f)
      → let q = saved (payload_of trim f) p in
        (payload_of trim (form_of q) ≡ kept (payload_of trim f))
        × (saved (payload_of trim (form_of q)) q ≡ q)
  payload_of-saved f p blank twice taken =
      let again = asks_again (payload_of trim f) p blank (vat_trimmed f twice) taken in
      (
        again,
        ap (λ c. saved c (saved (payload_of trim f) p)) again
            ∙ saved_again (payload_of trim f) p taken,
      )
