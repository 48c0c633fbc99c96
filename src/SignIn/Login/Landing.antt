-- ===== src/SignIn/Login/Landing.antt =====
-- Where a sign-in on provena-web/src/app/(auth)/login/page.tsx leads, through the store, the
-- session-sync handler, the browser's cookies and the gate.
use provena.Base.{
  String, Bool, true, false, Option, none, some, List, [], ◌∷◌, ◌≡◌, ◌≢◌, refl, ap, sym, ◌∙◌, subst,
  ◌⊎◌, inl, inr, arith,
}
use provena.Types.Auth.{UserRole, buyer, supplier, admin, role_text, UserProfile}
use provena.Session.Gate.{
  Cookies, next, redirect, redirect_login, middleware, role_area, session_area, under,
  protected_prefixes,
}
use provena.Session.Gate.Access.{protected_apart}
use provena.Session.Sync.{MeAnswer, verified, Request}
use provena.Session.Sync.Verified.{signed_in, verdict, Honest}
use provena.Session.Jar.{CookieJar, cookies_of}
use provena.Session.Store.{AuthState, login}
use provena.Session.Store.Agreement.{IsToken, perform_all, perform-sync}
use provena.Session.Navigation.{safe_next}
use provena.Session.Navigation.SafeNext.{NoBackslash, safe_next-middleware}
use provena.SignIn.{Effect, merge_guest_cart, store_login, push, fallback_for}
use provena.SignIn.Login.{LoginForm, LoginAnswer, login_answered, totp_answered, accepted, finish}
use provena.SignIn.Guard.Agreement.{profile_of, cookies_with}

-- A page is served, or the gate asks a supplier or an administrator for two-factor authentication.
abbrev pub Welcome : UserRole → Bool → Cookies → String → Type 0
Welcome role t c p =
    (middleware c p ≡ next)
    ⊎ ((role ≢ buyer) × (t ≡ false) × (middleware c p ≡ redirect "/account/security?enforce=1"))

fallback-Welcome :
    (role : UserRole) (t : Bool) → Welcome role t (cookies_with role t) (fallback_for role)
unfolding middleware role_area role_text fallback_for
fallback-Welcome buyer t = inl refl
fallback-Welcome supplier true = inl refl
fallback-Welcome supplier false = inr (ground arith, refl, refl)
fallback-Welcome admin true = inl refl
fallback-Welcome admin false = inr (ground arith, refl, refl)

protected-Welcome :
    (role : UserRole) (t : Bool) (p : String)
    → under protected_prefixes p ≡ true
    → middleware (cookies_with role t) p ≡ next
unfolding middleware session_area
protected-Welcome role t p h = ground (arith, protected_apart p h)

-- The browser, the API's answer to each token, and what the server sees of the page's address.
module _ (browser : CookieJar) (me : String → MeAnswer) (page : Request) (secure_page : Bool) where
  open browser use {Jar}

  -- The store, the cookies, and the path that the browser was sent to.
  pub record Browser : Type 0 where
    pub store : AuthState
    pub jar : Jar
    pub path : String

  -- The effects in order. The guest cart is kept by the API.
  pub carry_out : List Effect → Browser → Browser
  carry_out [] b = b
  carry_out (merge_guest_cart access_token ∷ effects) b = carry_out effects b
  carry_out (store_login user access_token ∷ effects) b =
      let (s, calls) = login true user access_token b.store in
      carry_out effects
        (record b { store = s; jar = perform_all browser me page secure_page calls b.jar })
  carry_out (push path ∷ effects) b = carry_out effects (record b { path = path })

  module _ (honest : Honest page secure_page) (user : UserProfile) (access : String)
      (issued : IsToken access) (owner : me access ≡ verified (profile_of user)) where
    finish-cookies :
        (param : Option String) (b : Browser)
        → cookies_of browser (carry_out (finish param access user) b).jar
          ≡ signed_in (profile_of user)
    unfolding carry_out finish perform_all login
    finish-cookies param b =
        perform-sync browser me page secure_page access b.jar honest issued ∙ ap verdict owner

    finish-path :
        (param : Option String) (b : Browser)
        → (carry_out (finish param access user) b).path ≡ safe_next param (fallback_for user.role)
    unfolding carry_out finish
    finish-path param b = refl

    -- A user who signs in without having been sent to the login page is sent to the page of their
    -- role, and the gate, with the cookies that the sign-in left, serves it, unless a supplier or an
    -- administrator has no two-factor authentication: then it sends them to set it up. The call of
    -- `/session-sync` gets through.
    pub login_answered-lands :
        (f : LoginForm) (b : Browser)
        → let after = carry_out (login_answered none (LoginAnswer.signed_in access user) f).1 b in
          (after.path ≡ fallback_for user.role)
          × Welcome user.role user.totp_enabled (cookies_of browser after.jar) after.path
    unfolding login_answered safe_next
    login_answered-lands f b = (
      finish-path none b,
      subst
          (λ c. Welcome user.role user.totp_enabled c (carry_out (finish none access user) b).path)
          (sym (finish-cookies none b))
          (subst (Welcome user.role user.totp_enabled (signed_in (profile_of user)))
            (sym (finish-path none b)) (fallback-Welcome user.role user.totp_enabled)),
    )

    -- A visitor whom the gate has sent to the login page from a page that asks for a session only is
    -- sent back to that page after the second step, and the gate then serves it, where the call of
    -- `/session-sync` gets through and the page's path holds no backslash.
    pub totp_answered-returns :
        (f : LoginForm) (b : Browser) (c : Cookies) (p param : String)
        → under protected_prefixes p ≡ true
        → NoBackslash p
        → middleware c p ≡ redirect_login param
        → let after = carry_out (totp_answered (some param) (accepted access user) f).1 b in
          (after.path ≡ p) × (middleware (cookies_of browser after.jar) p ≡ next)
    unfolding totp_answered
    totp_answered-returns f b c p param h k sent = (
      finish-path (some param) b ∙ safe_next-middleware c p param (fallback_for user.role) sent k,
      ap (λ d. middleware d p) (finish-cookies (some param) b)
          ∙ protected-Welcome user.role user.totp_enabled p h,
    )
