-- ===== src/Session/Gate.antt =====
-- provena-web/src/middleware.ts: the gate in front of the pages. A request is its path name and the
-- three cookies that the gate reads; `redirect_login` is the redirect to the login page, whose `next`
-- parameter is the path that was asked for.
pub mod Access
pub mod Hops
use provena.Base.{
  String, Bool, false, ◌&&◌, not, Option, none, some, List, [], ◌∷◌, ◌==◌, string_eq, any,
  starts_with, if◌then◌else◌,
}

abbrev pub auth_only_paths : List String
auth_only_paths = "/login" ∷ "/register" ∷ []

abbrev pub protected_prefixes : List String
protected_prefixes = "/orders" ∷ "/checkout" ∷ "/wishlist" ∷ "/account" ∷ []

abbrev pub supplier_prefixes : List String
supplier_prefixes = "/supplier" ∷ []

abbrev pub admin_prefixes : List String
admin_prefixes = "/admin" ∷ []

pub record Cookies : Type 0 where
  pub has_session : Option String
  pub user_role : Option String
  pub totp_enabled : Option String

pub data Outcome : Type 0 where
  next : Outcome
  redirect : (pathname : String) → Outcome
  redirect_login : (next_param : String) → Outcome

-- `getCookie(req, name) === text`
abbrev pub cookie_is : Option String → String → Bool
cookie_is none text = false
cookie_is (some value) text = value == text

abbrev pub under : List String → String → Bool
under prefixes pathname = any (λ p. starts_with pathname p) prefixes

-- The path that a signed-in user is sent to instead of the login page.
unfoldable pub home : Option String → String
home role =
    if cookie_is role "ADMIN"
    then "/admin/dashboard"
    else if cookie_is role "SUPPLIER"
    then "/supplier/dashboard"
    else "/catalogue"

-- The body that the branches for `/admin` and `/supplier` share, over the role that each requires.
unfoldable pub role_area : Cookies → String → String → Outcome
role_area c role pathname =
    if not (cookie_is c.has_session "1")
    then redirect_login pathname
    else if not (cookie_is c.user_role role)
    then redirect "/catalogue"
    else if not (cookie_is c.totp_enabled "1") && not (pathname == "/account/security")
    then redirect "/account/security?enforce=1"
    else next

unfoldable pub session_area : Cookies → String → Outcome
session_area c pathname =
    if not (cookie_is c.has_session "1") then redirect_login pathname else next

unfoldable pub middleware : Cookies → String → Outcome
unfolding home role_area session_area
middleware c pathname =
    if cookie_is c.has_session "1" && under auth_only_paths pathname
    then redirect (home c.user_role)
    else if under admin_prefixes pathname
    then role_area c "ADMIN" pathname
    else if under supplier_prefixes pathname
    then role_area c "SUPPLIER" pathname
    else if under protected_prefixes pathname
    then session_area c pathname
    else next
