-- ===== src/Session/Gate/Access.antt =====
-- Who is let through by the gate of provena-web/src/middleware.ts.
use Prim.Native.String.{[], ◌∷◌}
use provena.Base.{
  String, true, false, Option, none, some, ◌≡◌, refl, ◌↔◌, ◌≢◌, ◌⊎◌, arith, eq_iff, starts_with,
}
use provena.Session.Gate.{
  Cookies, next, redirect_login, cookie_is, under, protected_prefixes, auth_only_paths, middleware,
  role_area, session_area,
}

-- The areas and the sign-in pages do not overlap.
pub admin_apart : (p : String) → starts_with p "/admin" ≡ true → under auth_only_paths p ≡ false
admin_apart [] h = ground arith
admin_apart (a ∷ []) h = ground arith
admin_apart (a ∷ b ∷ s) h = ground arith

pub supplier_apart :
    (p : String)
    → starts_with p "/supplier" ≡ true
    → (under auth_only_paths p ≡ false) × (starts_with p "/admin" ≡ false)
supplier_apart [] h = ground arith
supplier_apart (a ∷ []) h = ground arith
supplier_apart (a ∷ b ∷ s) h = ground arith

pub protected_apart :
    (p : String)
    → under protected_prefixes p ≡ true
    → (under auth_only_paths p ≡ false)
      × (starts_with p "/admin" ≡ false)
      × (starts_with p "/supplier" ≡ false)
protected_apart [] h = ground arith
protected_apart (a ∷ []) h = ground arith
protected_apart (a ∷ b ∷ []) h = ground arith
protected_apart (a ∷ b ∷ c ∷ s) h = ground arith

cookie_is_iff : (o : Option String) (t : String) → (cookie_is o t ≡ true) ↔ (o ≡ some t)
cookie_is_iff none t = ground arith
cookie_is_iff (some v) t = ground (arith, eq_iff v t)

-- `/account/security` lies in neither area, so the exemption of that page is never taken there.
pub security_apart :
    (area p : String)
    → starts_with "/account/security" area ≡ false
    → starts_with p area ≡ true
    → p ≢ "/account/security"
security_apart area p out h e = cc (rw e at h)

-- The cookies of a session with the role and with two-factor authentication on.
abbrev pub Trusted : String → Cookies → Type 0
Trusted role c =
    (c.has_session ≡ some "1") × (c.user_role ≡ some role) × (c.totp_enabled ≡ some "1")

role_area_iff :
    (c : Cookies) (role p : String)
    → p ≢ "/account/security"
    → (role_area c role p ≡ next) ↔ Trusted role c
unfolding role_area
role_area_iff c role p h = ground (
  arith,
  eq_iff p "/account/security",
  cookie_is_iff c.has_session "1",
  cookie_is_iff c.user_role role,
  cookie_is_iff c.totp_enabled "1",
)

-- A path under `/admin` is served exactly to a session whose role cookie is ADMIN and which has
-- two-factor authentication on; no page of the area is exempt.
pub middleware-admin_iff :
    (c : Cookies) (p : String)
    → starts_with p "/admin" ≡ true
    → (middleware c p ≡ next) ↔ Trusted "ADMIN" c
unfolding middleware
middleware-admin_iff c p h =
    ground (arith, admin_apart p h, role_area_iff c "ADMIN" p (security_apart "/admin" p refl h))

-- A path under `/supplier` is served exactly to a session whose role cookie is SUPPLIER and which
-- has two-factor authentication on.
pub middleware-supplier_iff :
    (c : Cookies) (p : String)
    → starts_with p "/supplier" ≡ true
    → (middleware c p ≡ next) ↔ Trusted "SUPPLIER" c
unfolding middleware
middleware-supplier_iff c p h =
    ground (
      arith,
      supplier_apart p h,
      role_area_iff c "SUPPLIER" p (security_apart "/supplier" p refl h),
    )

-- A path under `/admin` is served exactly to a session whose role cookie is ADMIN, and one under
-- `/supplier` exactly to one whose role cookie is SUPPLIER; both ask for two-factor authentication
-- on, and no page of either area is exempt.
pub middleware-roles_iff :
    (c : Cookies) (a s : String)
    → starts_with a "/admin" ≡ true
    → starts_with s "/supplier" ≡ true
    → ((middleware c a ≡ next) ↔ Trusted "ADMIN" c)
      × ((middleware c s ≡ next) ↔ Trusted "SUPPLIER" c)
middleware-roles_iff c a s h k = (middleware-admin_iff c a h, middleware-supplier_iff c s k)

-- A path under one of the buyer-facing protected prefixes is served exactly to a session, whatever
-- its role; otherwise the browser is sent to the login page, which is told the path.
pub middleware-protected_iff :
    (c : Cookies) (p : String)
    → under protected_prefixes p ≡ true
    → ((middleware c p ≡ next) ↔ (c.has_session ≡ some "1"))
      × ((middleware c p ≡ next) ⊎ (middleware c p ≡ redirect_login p))
unfolding middleware session_area
middleware-protected_iff c p h =
    ground (arith, protected_apart p h, cookie_is_iff c.has_session "1")
