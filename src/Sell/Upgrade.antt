-- ===== src/Sell/Upgrade.antt =====
-- Where a successful application on provena-web/src/app/sell/page.tsx leaves the user: the store, the
-- session-sync handler, the browser's cookies and the gate.
use provena.Base.{String, Bool, true, false, none, some, ◌≡◌, refl, ap, ◌∙◌}
use provena.Types.Auth.{buyer, supplier, role_text, UserProfile}
use provena.Session.Gate.{redirect, middleware, role_area}
use provena.Session.Sync.{MeAnswer, verified, Request}
use provena.Session.Sync.Verified.{verdict, Honest}
use provena.Session.Jar.{CookieJar, cookies_of}
use provena.Session.Store.{AuthState, set_user, resync}
use provena.Session.Store.Agreement.{IsToken, perform_all, perform-sync}
use provena.SignIn.Guard.Agreement.{answer_with, profile_of, cookies_for, cookies_with}
use provena.Shell.Links.{Answered}
use provena.Sell.{SellPage, panel, apply_succeeded}

dashboard_supplier :
    (t : Bool) → middleware (cookies_with supplier t) "/supplier/dashboard" ≡ answer_with t
unfolding middleware role_area role_text
dashboard_supplier true = refl
dashboard_supplier false = refl

dashboard_buyer :
    (t : Bool) → middleware (cookies_with buyer t) "/supplier/dashboard" ≡ redirect "/catalogue"
unfolding middleware role_area role_text
dashboard_buyer true = refl
dashboard_buyer false = refl

as_supplier :
    (user : UserProfile)
    → user.role ≡ supplier
    → middleware (cookies_for (some user)) "/supplier/dashboard" ≡ answer_with user.totp_enabled
as_supplier user is =
    ap (λ role. middleware (cookies_with role user.totp_enabled) "/supplier/dashboard") is
    ∙ dashboard_supplier user.totp_enabled

as_buyer :
    (user : UserProfile)
    → user.role ≡ buyer
    → middleware (cookies_for (some user)) "/supplier/dashboard" ≡ redirect "/catalogue"
as_buyer user is =
    ap (λ role. middleware (cookies_with role user.totp_enabled) "/supplier/dashboard") is
    ∙ dashboard_buyer user.totp_enabled

-- The browser, the API's answer to each token after the application, and what the server sees of the
-- page's address.
module _ (browser : CookieJar) (me : String → MeAnswer) (page : Request) (secure_page : Bool) where
  open browser use {Jar}

  pub set_user-cookies :
      (token : String) (profile : UserProfile) (s : AuthState) (jar : Jar)
      → Honest page secure_page
      → IsToken token
      → s.access_token ≡ some token
      → cookies_of browser (perform_all browser me page secure_page (set_user true profile s).1 jar)
        ≡ verdict (me token)
  unfolding set_user resync perform_all
  set_user-cookies token profile s jar honest issued held =
      ap (λ o. cookies_of browser (perform_all browser me page secure_page (resync o) jar)) held
      ∙ rw (issued.0) (perform-sync browser me page secure_page token jar honest issued)

  -- If a buyer's application succeeds and the profile that the API then gives is read, the page offers
  -- its link to the dashboard while the call of `/session-sync` is still under way: until that call is
  -- finished the gate sends the link to the catalogue, and once it has got through the link has the
  -- gate's answer for suppliers, which is the page with two-factor authentication on, and with it off
  -- the security page. If the profile cannot be read, no call is made, the cookies stay those of a
  -- buyer, and the gate sends the same link to the catalogue.
  pub apply_succeeded-lands :
      (trim : String → String) (p : SellPage) (s : AuthState) (jar : Jar) (token : String)
      (before after : UserProfile) (pending : Bool)
      → Honest page secure_page
      → IsToken token
      → s.access_token ≡ some token
      → me token ≡ verified (profile_of after)
      → before.role ≡ buyer
      → after.role ≡ supplier
      → cookies_of browser jar ≡ cookies_for (some before)
      → let (read, _, calls) = apply_succeeded (some after) p s in
        let (unread, _, no_calls) = apply_succeeded none p s in
        Answered
          (redirect "/catalogue")
          (cookies_of browser jar)
          (panel trim true (some supplier) pending read)
        × Answered
            (answer_with after.totp_enabled)
            (cookies_of browser (perform_all browser me page secure_page calls jar))
            (panel trim true (some supplier) pending read)
        × Answered
            (redirect "/catalogue")
            (cookies_of browser (perform_all browser me page secure_page no_calls jar))
            (panel trim true (some buyer) pending unread)
  unfolding apply_succeeded panel perform_all
  apply_succeeded-lands trim p s jar token before after pending honest issued held owner was now
        kept =
      (
        (ap (λ c. middleware c "/supplier/dashboard") kept ∙ as_buyer before was, tt),
        (
          ap (λ c. middleware c "/supplier/dashboard")
                (set_user-cookies token after s jar honest issued held ∙ ap verdict owner)
              ∙ as_supplier after now,
          tt,
        ),
        (ap (λ c. middleware c "/supplier/dashboard") kept ∙ as_buyer before was, tt),
      )
