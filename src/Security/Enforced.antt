-- ===== src/Security/Enforced.antt =====
-- The gate of provena-web/src/middleware.ts before and after two-factor authentication is switched on
-- provena-web/src/app/account/security/page.tsx.
use provena.Base.{
  String, Bool, true, false, some, ◌≡◌, refl, ap, ◌∙◌, arith, starts_with, string_eq, eq_iff,
}
use provena.Types.Auth.{UserRole, buyer, supplier, admin, role_text, UserProfile}
use provena.Session.Gate.{middleware, role_area}
use provena.Session.Gate.Access.{admin_apart, supplier_apart, security_apart}
use provena.Session.Sync.{MeAnswer, verified, Request}
use provena.Session.Sync.Verified.{verdict, Honest}
use provena.Session.Jar.{CookieJar, cookies_of}
use provena.Session.Store.{AuthState}
use provena.Session.Store.Agreement.{IsToken, perform_all}
use provena.SignIn.Guard.Agreement.{answer_with, profile_of, cookies_with}
use provena.Sell.Upgrade.{set_user-cookies}
use provena.Security.{SecurityPage, accepted, enable_ended, disable_ended}

supplier_answered :
    (t : Bool) (p : String)
    → starts_with p "/supplier" ≡ true
    → middleware (cookies_with supplier t) p ≡ answer_with t
unfolding middleware role_area role_text
supplier_answered true p h = ground (arith, supplier_apart p h)
supplier_answered false p h =
    ground
      (arith, supplier_apart p h, security_apart "/supplier" p refl h, eq_iff p "/account/security")

admin_answered :
    (t : Bool) (p : String)
    → starts_with p "/admin" ≡ true
    → middleware (cookies_with admin t) p ≡ answer_with t
unfolding middleware role_area role_text
admin_answered true p h = ground (arith, admin_apart p h)
admin_answered false p h =
    ground (arith, admin_apart p h, security_apart "/admin" p refl h, eq_iff p "/account/security")

-- The path is one of the area of the role.
abbrev pub InArea : UserRole → String → Type 0
InArea buyer p = ⊥
InArea supplier p = starts_with p "/supplier" ≡ true
InArea admin p = starts_with p "/admin" ≡ true

answer_withed :
    (role : UserRole) (t : Bool) (p : String)
    → InArea role p
    → middleware (cookies_with role t) p ≡ answer_with t
answer_withed buyer t p h = elim h [ ]
answer_withed supplier t p h = supplier_answered t p h
answer_withed admin t p h = admin_answered t p h

-- The browser, the API's answer to each token after the change, and what the server sees of the page's
-- address.
module _ (browser : CookieJar) (me : String → MeAnswer) (page : Request) (secure_page : Bool) where
  open browser use {Jar}

  -- Once two-factor authentication is switched and the profile read again, and the call of
  -- `/session-sync` has got through, the gate answers every page
  -- of the user's area by the new setting, with nothing left of the cookies from before: with it on
  -- the page is served, and with it off the user is sent to set it up.
  pub switched-answered :
      (p : SecurityPage) (s : AuthState) (jar : Jar) (token : String) (after : UserProfile)
      (path : String)
      → Honest page secure_page
      → IsToken token
      → s.access_token ≡ some token
      → me token ≡ verified (profile_of after)
      → InArea after.role path
      → let enabled = enable_ended (accepted after) p s in
        let disabled = disable_ended (accepted after) p s in
        (middleware
            (cookies_of browser (perform_all browser me page secure_page enabled.2 jar))
            path
          ≡ answer_with after.totp_enabled)
        × (middleware
              (cookies_of browser (perform_all browser me page secure_page disabled.2 jar))
              path
            ≡ answer_with after.totp_enabled)
  unfolding enable_ended disable_ended
  switched-answered p s jar token after path honest issued held owner area =
      let answered =
        ap (λ c. middleware c path)
          (set_user-cookies browser me page secure_page token after s jar honest issued held
            ∙ ap verdict owner)
        ∙ answer_withed after.role after.totp_enabled path area in
      (answered, answered)
