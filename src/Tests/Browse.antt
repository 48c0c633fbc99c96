-- ===== src/Tests/Browse.antt =====
-- The catalogue, the saved addresses, the imports, the wishlist and the selection of products of
-- provena-web/src on concrete inputs.
use Prim.Native.String.{[] as nil_text, ◌∷◌ as char_and}
use mathlib.Core.List.{Perm}
use provena.Base.{
  ℕ, zero, suc, ◌+◌, ◌-◌, ◌*◌, ◌≤◌, String, true, false, not, none, some, List, [], ◌∷◌, ◌≡◌, refl,
  ap, arith, inl, ◌==◌, string_eq, nat_eq, eq_iff, keep, take, length, ltb, if◌then◌else◌, ◌<>◌,
  is_blank, ◌⊎◌, inr, sym, ◌∙◌,
}
use provena.Types.Address.{Address}
use provena.Types.Catalogue.{Product, PaginatedResponse, WishlistItem}
use provena.Requests.{text}
use provena.Requests.Shop.{confirm_upload}
use provena.Cart.{LocalCart, cart_count}
use provena.Cart.Grouping.{all_products, Separate, group_of, own_products}
use provena.Browse.{
  Amounts, SortKey, price_asc, grouped, is_offered, cart_items, cart_total, items_count,
  product_params,
}
use provena.Browse as Browse
use provena.Browse.Ordered.{Arranged, slug_of, name_of, grouped-Arranged}
use provena.Browse.Items.{Faithful, worth, is_at_hand, RoundTrip, cart_items-Faithful}
use provena.Browse.Asking as Asking
use provena.Browse.Asking.{Asks, run-Asks}
use provena.Addresses as Addresses
use provena.Addresses.{offers_add, offers_first}
use provena.Addresses.Forms as Forms
use provena.Addresses.Forms.{open_forms, run-open_forms, edit_deleted}
use provena.Listing as Listing
use provena.Listing.{PreviewResult, UploadStep, opened, upload_call}
use provena.Listing.Importing as Importing
use provena.Listing.Importing.{Reviewed, run-Reviewed, late_preview}
use provena.Wishes as Wishes
use provena.Wishes.{all_items, has_more}
use provena.Wishes.Pages as Pages
use provena.Wishes.Pages.{Serves, drop, run-all_items}
use provena.Admin.Products as Products
use provena.Admin.Products.{has}
use provena.Admin.Products.Selection.{Once, expected, on_event-selects}
use provena.Types.Order.{supplier_ship, SubOrderListItem, confirmed}
use provena.Requests.Ordering.{dispatch_sub_order}
use provena.Fulfil as Fulfil
use provena.Fulfil.{dispatch_call, is_dispatching}
use provena.Fulfil.Tracking as Tracking
use provena.Fulfil.Tracking.{typed as typed_for, run-dispatch_call}
use provena.Types.Supplier.{flat, free_over_threshold}
use provena.Settings.{FormState, Profile, form_of, payload_of}
use provena.Settings.Saved.{Decimals, kept, saved, payload_of-saved}
use provena.Tests.Sorting.{insertion, insertion-Sorts}
use provena.Tests.Trade.{tea, variant, wish}

-- Amounts as tallies: as many strokes as pence.
abbrev strokes : ℕ → String
strokes zero = ""
strokes (suc n) = "i" <> strokes n

abbrev count_strokes : String → ℕ
count_strokes nil_text = 0
count_strokes (char_and c s) = suc (count_strokes s)

abbrev tallies : Amounts
tallies = record { pence = count_strokes; fixed = strokes }

tallies-RoundTrip : RoundTrip tallies
tallies-RoundTrip zero = refl
tallies-RoundTrip (suc n) = ap suc (tallies-RoundTrip n)

-- A cheaper tea of the same supplier.
abbrev green : Product
green = record tea {
  id = "p2";
  slug = "green";
  variants = record variant { id = "v2"; price = "iii" } ∷ [];
}

grouped-Arranged_example :
    Perm
      (all_products slug_of name_of (grouped tallies insertion (tea ∷ green ∷ []) price_asc))
      (keep is_offered (tea ∷ green ∷ []))
    × Separate slug_of name_of (grouped tallies insertion (tea ∷ green ∷ []) price_asc)
    × Arranged tallies price_asc 3
        (group_of slug_of name_of "teas" (grouped tallies insertion (tea ∷ green ∷ []) price_asc))
        (own_products slug_of name_of "teas" (keep is_offered (tea ∷ green ∷ [])))
grouped-Arranged_example =
    grouped-Arranged tallies insertion insertion-Sorts (tea ∷ green ∷ []) price_asc "teas" 3

abbrev two_entries : LocalCart
two_entries = ("v2", 2) ∷ ("gone", 1) ∷ []

cart_items-Faithful_example :
    Faithful tallies
      (tea ∷ green ∷ [])
      two_entries
      (cart_items tallies false none two_entries (tea ∷ green ∷ []))
    × (cart_total tallies false none (cart_items tallies false none two_entries (tea ∷ green ∷ []))
        ≡ strokes (worth tallies (cart_items tallies false none two_entries (tea ∷ green ∷ []))))
    × (items_count (cart_items tallies false none two_entries (tea ∷ green ∷ []))
          + cart_count (keep (λ e. not (is_at_hand (tea ∷ green ∷ []) e.0)) two_entries)
        ≡ cart_count two_entries)
cart_items-Faithful_example =
    cart_items-Faithful tallies tallies-RoundTrip none two_entries (tea ∷ green ∷ [])

abbrev searching : List Browse.Event
searching = Browse.Event.type "tea" ∷ Browse.Event.type_min "3" ∷ Browse.Event.select "drinks" ∷ []

run-Asks_example :
    Asks text (Browse.on_event Browse.Event.timer_ends (Asking.run searching Browse.initial)) (
      product_params text
        (Browse.on_event Browse.Event.timer_ends (Asking.run searching Browse.initial)))
run-Asks_example = run-Asks text searching

abbrev dwelling : Address
dwelling = record {
  id = "a1";
  label = "Home";
  full_name = "Ann";
  line1 = "1 High Street";
  line2 = "";
  city = "York";
  postcode = "YO1";
  country = "GB";
  is_default = true;
  created_at = "";
  updated_at = "";
}

abbrev office : Address
office = record dwelling { id = "a2"; label = "Work" }

abbrev editing : List Addresses.Event
editing =
    Addresses.Event.listed (dwelling ∷ [])
    ∷ Addresses.Event.press_edit dwelling
    ∷ Addresses.Event.fill_edit Addresses.Key.city "Leeds"
    ∷ Addresses.Event.updated
    ∷ []

run-open_forms_example :
    (open_forms (Forms.run editing Addresses.initial) ≤ 1)
    × (offers_add (Forms.run editing Addresses.initial)
        ≡ (open_forms (Forms.run editing Addresses.initial) == 0))
unfolding Addresses.on_event
run-open_forms_example = run-open_forms editing (((tt, tt), tt), ((refl, inl refl), (tt, (tt, tt))))

edit_deleted_example :
    (open_forms (
        Forms.run
          (Addresses.Event.press_edit dwelling ∷ Addresses.Event.listed (office ∷ []) ∷ [])
          Addresses.initial)
      ≡ 0)
    × (offers_add (
          Forms.run
            (Addresses.Event.press_edit dwelling ∷ Addresses.Event.listed (office ∷ []) ∷ [])
            Addresses.initial)
        ≡ false)
    × (offers_first (
          Forms.run
            (Addresses.Event.press_edit dwelling ∷ Addresses.Event.listed (office ∷ []) ∷ [])
            Addresses.initial)
        ≡ false)
edit_deleted_example =
    edit_deleted dwelling (office ∷ []) Addresses.initial
      ((λ e. ground (arith, e, eq_iff "a2" "a1")), tt)

abbrev sound_file : PreviewResult
sound_file = record {
  valid = true;
  products = some [];
  row_count = some 1;
  product_count = some 1;
  errors = none;
}

abbrev importing : List Listing.Event
importing = Listing.Event.choose "a.csv" ∷ Listing.Event.previewed "a.csv" sound_file ∷ []

run-Reviewed_example : Reviewed (λ f. sound_file) (Importing.run importing opened)
unfolding Importing.run Listing.on_event
run-Reviewed_example =
    run-Reviewed (λ f. sound_file) importing ((refl, refl), ((inl refl, refl), tt)) refl

late_preview_example :
    let v =
      Importing.run
        (Listing.Event.choose "a.csv"
          ∷ Listing.Event.choose "b.csv"
          ∷ Listing.Event.previewed "a.csv" sound_file
          ∷ [])
        opened in
    (v.step ≡ UploadStep.preview)
    × (v.preview ≡ some sound_file)
    × (upload_call Listing.Event.press_import v ≡ some (confirm_upload "b.csv"))
late_preview_example = late_preview "a.csv" "b.csv" sound_file opened refl refl

abbrev wishes : List WishlistItem
wishes = wish ∷ record wish { id = "w2" } ∷ record wish { id = "w3" } ∷ []

abbrev by_two : ℕ → PaginatedResponse WishlistItem
by_two n = record {
  count = 3;
  next = if ltb (n * 2) (length wishes) then some "next" else none;
  previous = none;
  results = take 2 (drop ((n - 1) * 2) wishes);
}

by_two-Serves : Serves by_two 2 wishes
by_two-Serves = record {
  page = λ n. ap (λ k. take 2 (drop (k * 2) wishes)) {x = suc n - 1} (omega arith);
  next = λ n. ground arith;
}

abbrev loading : List Wishes.Event
loading = Wishes.Event.load_more ∷ Wishes.Event.open_cart ∷ []

run-all_items_example :
    let pages = (Pages.run loading Wishes.initial).loaded_pages in
    (all_items (λ p. some (by_two p)) pages ≡ take (length pages * 2) wishes)
    × (has_more (λ p. some (by_two p)) pages ≡ ltb (length pages * 2) (length wishes))
    × (1 ≤ length pages)
run-all_items_example = run-all_items by_two 2 wishes by_two-Serves loading

abbrev two_rows : Products.ProductsPage
two_rows = record Products.initial { selected = "tea" ∷ []; products = tea ∷ green ∷ [] }

on_event-selects_example :
    (has "green" (Products.on_event (λ s t. s == t) Products.Event.check_all two_rows).selected
      ≡ expected (λ s t. s == t) Products.Event.check_all two_rows "green")
    × Once (Products.on_event (λ s t. s == t) Products.Event.check_all two_rows).selected
unfolding has
on_event-selects_example =
    on_event-selects (λ s t. s == t) Products.Event.check_all two_rows "green" (refl, tt)

abbrev typed : FormState
typed = record {
  shipping_policy = free_over_threshold;
  shipping_flat_rate = "";
  shipping_per_item_rate = "1.00";
  free_shipping_threshold = "40";
  vat_number = "GB1";
}

abbrev shop_profile : Profile
shop_profile = record {
  fulfilment_mode = supplier_ship;
  shipping_policy = flat;
  shipping_flat_rate = "2.00";
  shipping_per_item_rate = "0.00";
  free_shipping_threshold = none;
  vat_number = "";
}

-- An API that takes three amounts and writes them with two places.
abbrev two_places : String → String
two_places s = if s == "40" then "40.00" else s

abbrev IsTyped : String → Type 0
IsTyped s = (s ≡ "40") ⊎ (s ≡ "0.00") ⊎ (s ≡ "1.00")

two_places-filled : (s : String) → IsTyped s → is_blank (two_places s) ≡ false
two_places-filled s (inl e) = ap (λ t. is_blank (two_places t)) e
two_places-filled s (inr (inl e)) = ap (λ t. is_blank (two_places t)) e
two_places-filled s (inr (inr e)) = ap (λ t. is_blank (two_places t)) e

two_places-settled : (s : String) → IsTyped s → two_places (two_places s) ≡ two_places s
two_places-settled s (inl e) = ap (λ t. two_places (two_places t)) e ∙ sym (ap two_places e)
two_places-settled s (inr (inl e)) = ap (λ t. two_places (two_places t)) e ∙ sym (ap two_places e)
two_places-settled s (inr (inr e)) = ap (λ t. two_places (two_places t)) e ∙ sym (ap two_places e)

abbrev decimals : Decimals (λ s. s)
decimals = record {
  IsAmount = IsTyped;
  written = two_places;
  filled = two_places-filled;
  trimmed = λ s h. refl;
  settled = two_places-settled;
}

payload_of-saved_example :
    let q = saved (λ s. s) decimals (payload_of (λ s. s) typed) shop_profile in
    (payload_of (λ s. s) (form_of q) ≡ kept (λ s. s) decimals (payload_of (λ s. s) typed))
    × (saved (λ s. s) decimals (payload_of (λ s. s) (form_of q)) q ≡ q)
unfolding payload_of
payload_of-saved_example =
    payload_of-saved (λ s. s) decimals typed shop_profile refl (λ s. refl)
      (inr (inl refl), inr (inr refl), inl refl)

abbrev parcel : SubOrderListItem
parcel = record {
  id = "s1";
  order_reference = "PRV-1";
  buyer_email = "ada@example.com";
  supplier_name = "Teas";
  status = confirmed;
  subtotal = "5.00";
  tracking_number = "";
  created_at = "";
}

abbrev dispatching : List Fulfil.Event
dispatching = Fulfil.Event.press_dispatch "s1" ∷ Fulfil.Event.type_tracking "T1" ∷ []

run-dispatch_call_example : dispatch_call false (Tracking.run dispatching Fulfil.initial) parcel ≡ (
    if is_dispatching (Tracking.run dispatching Fulfil.initial).dispatching parcel.id
    then some (dispatch_sub_order parcel.id (some (typed_for dispatching "")))
    else none)
unfolding Fulfil.on_event
run-dispatch_call_example = run-dispatch_call dispatching parcel (refl, ((λ e. cc e), tt))
