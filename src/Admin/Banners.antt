-- ===== src/Admin/Banners.antt =====
-- provena-web/src/app/admin/banners/page.tsx: the banners of the home page, with the dialog for a new
-- or an old one. Banners/Dialog is about what the dialog saves.
pub mod Dialog
use provena.Base.{
  ℕ, String, Bool, true, false, ◌||◌, not, Option, none, some, List, [], ◌∷◌, ◌++◌, ◌<>◌, is_blank,
  is_empty, if◌then◌else◌, ℤ, pos,
}
use provena.Requests.{Fields, text, flag, number}
use provena.Requests.Admin.{UserCall, create_banner, update_banner, delete_banner}
use provena.Markup as Markup
use provena.Markup.{Part, link, button, field, when}

pub record Banner : Type 0 where
  pub id : String
  pub title : String
  pub subtitle : String
  pub image_url : String
  pub link : String
  pub is_active : Bool
  pub position : ℤ
  pub created_at : String
  pub updated_at : String

pub record BannerFormValues : Type 0 where
  pub title : String
  pub subtitle : String
  pub image_url : String
  pub link : String
  pub is_active : Bool
  pub position : ℤ

abbrev pub empty_values : BannerFormValues
empty_values = record {
  title = "";
  subtitle = "";
  image_url = "";
  link = "";
  is_active = true;
  position = pos 0;
}

unfoldable pub values_of : Banner → BannerFormValues
values_of b = record {
  title = b.title;
  subtitle = b.subtitle;
  image_url = b.image_url;
  link = b.link;
  is_active = b.is_active;
  position = b.position;
}

-- `set(k, v)`
pub data Change : Type 0 where
  set_title set_subtitle set_image_url set_link : (value : String) → Change
  set_active : Bool → Change
  set_position : (value : String) → Change

-- `parseInt(value, 10) || 0`, where `none` stands for NaN.
abbrev or_zero : Option ℤ → ℤ
or_zero none = pos 0
or_zero (some n) = n

unfoldable pub set_value : (String → Option ℤ) → Change → BannerFormValues → BannerFormValues
set_value parse_int (set_title v) f = record f { title = v }
set_value parse_int (set_subtitle v) f = record f { subtitle = v }
set_value parse_int (set_image_url v) f = record f { image_url = v }
set_value parse_int (set_link v) f = record f { link = v }
set_value parse_int (set_active b) f = record f { is_active = b }
set_value parse_int (set_position v) f = record f { position = or_zero (parse_int v) }

unfoldable pub payload_of : BannerFormValues → Fields
payload_of f =
    ("title", text f.title)
    ∷ ("subtitle", text f.subtitle)
    ∷ ("image_url", text f.image_url)
    ∷ ("link", text f.link)
    ∷ ("is_active", flag f.is_active)
    ∷ ("position", number f.position)
    ∷ []

-- The dialog that is open, with the banner that it was opened for and what it started from.
pub record BannerModal : Type 0 where
  pub banner : Option Banner
  pub initial : BannerFormValues
  pub form : BannerFormValues

abbrev pub BannersPage : Type 0
BannersPage = Option BannerModal

-- `created` and `updated` are the success of their calls.
pub data Event : Type 0 where
  press_new press_cancel created updated : Event
  press_edit : (banner : Banner) → Event
  change : Change → Event

abbrev pub open_for : Option Banner → BannerFormValues → BannersPage
open_for banner values = some (record { banner = banner; initial = values; form = values })

abbrev change_form : (BannerFormValues → BannerFormValues) → BannersPage → BannersPage
change_form f none = none
change_form f (some m) = some (record m { form = f m.form })

unfoldable pub on_event : (String → Option ℤ) → Event → BannersPage → BannersPage
unfolding set_value
on_event parse_int press_new p = open_for none empty_values
on_event parse_int press_cancel p = none
on_event parse_int created p = none
on_event parse_int updated p = none
on_event parse_int (press_edit banner) p = open_for (some banner) (values_of banner)
on_event parse_int (change c) p = change_form (set_value parse_int c) p

save_of : Option Banner → Fields → UserCall
save_of none payload = create_banner payload
save_of (some b) payload = update_banner b.id payload

unfoldable pub handle_save : BannerModal → UserCall
unfolding save_of
handle_save m = save_of m.banner (payload_of m.form)

unfoldable pub save_disabled : (String → String) → Bool → BannerModal → Bool
save_disabled trim saving m =
    saving || (is_blank (trim m.form.title) || is_blank (trim m.form.image_url))

-- The call of the dialog's last button: none where it is disabled.
abbrev pub save_call : (String → String) → Bool → BannersPage → Option UserCall
save_call trim saving none = none
save_call trim saving (some m) = if save_disabled trim saving m then none else some (handle_save m)

-- The buttons of a row: its switch, and its removal, which the user confirms.
unfoldable pub toggle_call : Banner → UserCall
toggle_call b = update_banner b.id (("is_active", flag (not b.is_active)) ∷ [])

unfoldable pub delete_call : (confirmed : Bool) → Banner → Option UserCall
delete_call confirmed b = if confirmed then some (delete_banner b.id) else none

unfoldable pub modal_parts : (ℤ → String) → (String → String) → Bool → BannerModal → List Part
modal_parts digits trim saving m =
    Markup.text (if is_blank m.initial.title then "New banner" else "Edit banner")
    ∷ field "Title" m.form.title
    ∷ field "Subtitle" m.form.subtitle
    ∷ field "Image URL" m.form.image_url
    ∷ field "Link (optional)" m.form.link
    ∷ field "Position" (digits m.form.position)
    ∷ field "Active" (if m.form.is_active then "on" else "")
    ∷ button "Cancel" false
    ∷ button (if saving then "Saving…" else "Save banner") (save_disabled trim saving m)
    ∷ []

unfoldable pub banner_row : (ℤ → String) → Banner → List Part
banner_row digits b =
    Markup.text b.title ∷ when (not (is_blank b.subtitle)) (Markup.text b.subtitle ∷ [])
    ++ Markup.text ("Position " <> digits b.position)
      ∷ when (not (is_blank b.link)) (link b.link b.link ∷ [])
    ++ button (if b.is_active then "Deactivate" else "Activate") false
      ∷ button "Edit" false
      ∷ button "Delete" false
      ∷ []

unfoldable pub banner_rows : (ℤ → String) → List Banner → List Part
unfolding banner_row
banner_rows digits [] = []
banner_rows digits (b ∷ banners) = banner_row digits b ++ banner_rows digits banners

abbrev dialog_parts : (ℤ → String) → (String → String) → Bool → BannersPage → List Part
dialog_parts digits trim saving none = []
dialog_parts digits trim saving (some m) = modal_parts digits trim saving m

unfoldable pub banners_view :
    (ℤ → String) → (String → String) → Bool → Bool → List Banner → BannersPage → List Part
unfolding banner_rows modal_parts
banners_view digits trim is_loading saving banners p =
    Markup.text "Banners"
      ∷ button "New banner" false
      ∷ when is_loading (Markup.text "Loading…" ∷ [])
    ++ (if is_empty banners
        then (if is_loading
            then []
            else Markup.text "No banners yet. Create one to feature content on the homepage." ∷ [])
        else banner_rows digits banners)
    ++ dialog_parts digits trim saving p
