-- ===== src/Admin/Banners/Dialog.antt =====
-- The last button of the dialog of provena-web/src/app/admin/banners/page.tsx.
use provena.Base.{String, Bool, false, none, some, ◌≡◌, refl, arith, is_blank}
use provena.Requests.Admin.{UserCall}
use provena.Admin.Banners.{BannerModal, BannersPage, handle_save, save_call, save_disabled}

-- What is saved is the form of the dialog that is open, where no call is under way and where the title
-- and the address of the image are more than white space.
pub save_call-Filled :
    (trim : String → String) (saving : Bool) (p : BannersPage) (call : UserCall)
    → save_call trim saving p ≡ some call
    → (m : BannerModal) × (p ≡ some m)
      × (call ≡ handle_save m)
      × (saving ≡ false)
      × (is_blank (trim m.form.title) ≡ false)
      × (is_blank (trim m.form.image_url) ≡ false)
unfolding save_disabled
save_call-Filled trim saving none call e = cc
save_call-Filled trim saving (some m) call e =
    (m, refl, ground (arith, e), ground (arith, e), ground (arith, e), ground (arith, e))
