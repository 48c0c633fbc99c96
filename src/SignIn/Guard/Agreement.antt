-- ===== src/SignIn/Guard/Agreement.antt =====
-- The guard of provena-web/src/hooks/use-auth-guard.ts against the gate of
-- provena-web/src/middleware.ts.
use provena.Base.{
  String, Bool, true, false, Option, none, some, ◌≡◌, refl, arith, eq_iff, starts_with, string_eq,
  if◌then◌else◌,
}
use provena.Types.Auth.{UserRole, buyer, supplier, admin, role_text, UserProfile}
use provena.Session.Gate.{
  Cookies, Outcome, next, redirect, redirect_login, middleware, under, protected_prefixes,
  role_area, session_area,
}
use provena.Session.Gate.Access.{admin_apart, security_apart, supplier_apart, protected_apart}
use provena.Session.Sync.{Profile}
use provena.Session.Sync.Verified.{signed_out, signed_in}
use provena.SignIn.Guard.{Guarded, stay, to_login, to_catalogue, lacks, use_auth_guard}

-- The API's profile of a user, and the cookies of a browser whose user is known.
abbrev pub profile_of : UserProfile → Profile
profile_of user = record {
  role = some (role_text user.role);
  totp_enabled = some user.totp_enabled;
}

abbrev pub cookies_for : Option UserProfile → Cookies
cookies_for none = signed_out
cookies_for (some user) = signed_in (profile_of user)

-- The cookies of a user, by role and two-factor authentication.
abbrev pub cookies_with : UserRole → Bool → Cookies
cookies_with role t = signed_in (record { role = some (role_text role); totp_enabled = some t })

-- The gate's answer where the guard gives its own; `allowed` is the gate's where the guard lets the
-- path be.
abbrev pub answer_of : Outcome → Guarded → Outcome
answer_of allowed stay = allowed
answer_of allowed (to_login next_param) = redirect_login next_param
answer_of allowed to_catalogue = redirect "/catalogue"

-- What the gate answers to a user of an area who has two-factor authentication or not.
abbrev pub answer_with : Bool → Outcome
answer_with totp_enabled = if totp_enabled then next else redirect "/account/security?enforce=1"

abbrev pub totp_of : Option UserProfile → Bool
totp_of none = false
totp_of (some user) = user.totp_enabled

-- The guard's answer for a user with the role, as the gate gives it, and the gate's own.
abbrev guarded : Option UserRole → UserRole → Outcome → Outcome
guarded required role allowed =
    answer_of allowed (if lacks role required then to_catalogue else stay)

abbrev gated : UserRole → Bool → String → Outcome
gated role totp_enabled p = middleware (cookies_with role totp_enabled) p

admin_guard :
    (role : UserRole) (t : Bool) (p : String)
    → starts_with p "/admin" ≡ true
    → guarded (some admin) role (answer_with t) ≡ gated role t p
unfolding middleware role_area role_text
admin_guard buyer true p h = ground (arith, admin_apart p h)
admin_guard buyer false p h = ground (arith, admin_apart p h)
admin_guard supplier true p h = ground (arith, admin_apart p h)
admin_guard supplier false p h = ground (arith, admin_apart p h)
admin_guard admin true p h = ground (arith, admin_apart p h)
admin_guard admin false p h =
    ground (arith, admin_apart p h, eq_iff p "/account/security", security_apart "/admin" p refl h)

supplier_guard :
    (role : UserRole) (t : Bool) (p : String)
    → starts_with p "/supplier" ≡ true
    → guarded (some supplier) role (answer_with t) ≡ gated role t p
unfolding middleware role_area role_text
supplier_guard buyer true p h = ground (arith, supplier_apart p h)
supplier_guard buyer false p h = ground (arith, supplier_apart p h)
supplier_guard supplier true p h = ground (arith, supplier_apart p h)
supplier_guard supplier false p h =
    ground
      (arith, supplier_apart p h, eq_iff p "/account/security", security_apart "/supplier" p refl h)
supplier_guard admin true p h = ground (arith, supplier_apart p h)
supplier_guard admin false p h = ground (arith, supplier_apart p h)

protected_guard :
    (role : UserRole) (t : Bool) (p : String)
    → under protected_prefixes p ≡ true
    → next ≡ gated role t p
unfolding middleware session_area
protected_guard role t p h = ground (arith, protected_apart p h)

module _ (p : String) where
  out_admin : starts_with p "/admin" ≡ true → redirect_login p ≡ middleware signed_out p
  unfolding middleware role_area
  out_admin h = ground (arith, admin_apart p h)

  out_supplier : starts_with p "/supplier" ≡ true → redirect_login p ≡ middleware signed_out p
  unfolding middleware role_area
  out_supplier h = ground (arith, supplier_apart p h)

  out_protected : under protected_prefixes p ≡ true → redirect_login p ≡ middleware signed_out p
  unfolding middleware session_area
  out_protected h = ground (arith, protected_apart p h)

-- Once the store is initialised, the guard of each layout and the gate, with the cookies of the same
-- user, answer a path of the layout's area alike: where the guard sends to the login page with that
-- path, so does the gate; where it sends to the catalogue, so does the gate; and where it lets the
-- path be, the gate serves it, except that in the areas of administrators and suppliers it sends a
-- user without two-factor authentication to the security page, with `enforce=1`.
pub use_auth_guard-middleware :
    (user : Option UserProfile) (a s p : String)
    → starts_with a "/admin" ≡ true
    → starts_with s "/supplier" ≡ true
    → under protected_prefixes p ≡ true
    → (answer_of (answer_with (totp_of user)) (use_auth_guard true user (some admin) a)
        ≡ middleware (cookies_for user) a)
      × (answer_of (answer_with (totp_of user)) (use_auth_guard true user (some supplier) s)
          ≡ middleware (cookies_for user) s)
      × (answer_of next (use_auth_guard true user none p) ≡ middleware (cookies_for user) p)
unfolding use_auth_guard
use_auth_guard-middleware none a s p h k l = (out_admin a h, out_supplier s k, out_protected p l)
use_auth_guard-middleware (some user) a s p h k l = (
  admin_guard user.role user.totp_enabled a h,
  supplier_guard user.role user.totp_enabled s k,
  protected_guard user.role user.totp_enabled p l,
)
