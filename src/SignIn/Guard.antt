-- ===== src/SignIn/Guard.antt =====
-- provena-web/src/hooks/use-auth-guard.ts: the guard that runs in the browser, in the layouts of the
-- account, checkout, orders and wishlist pages and in the shells of suppliers and administrators.
pub mod Agreement
use provena.Base.{
  String, Bool, true, false, not, Option, none, some, if◌then◌else◌, ◌==◌, string_eq,
}
use provena.Types.Auth.{UserRole, role_text, UserProfile}

-- What the effect does: nothing, or a redirect. `next` is the path, before it is encoded.
pub data Guarded : Type 0 where
  stay : Guarded
  to_login : (next : String) → Guarded
  to_catalogue : Guarded

-- `requiredRole && user.role !== requiredRole`
abbrev pub lacks : UserRole → Option UserRole → Bool
lacks role none = false
lacks role (some required) = not (role_text role == role_text required)

unfoldable pub use_auth_guard : Bool → Option UserProfile → Option UserRole → String → Guarded
use_auth_guard is_initialised none required_role pathname =
    if not is_initialised then stay else to_login pathname
use_auth_guard is_initialised (some user) required_role pathname =
    if not is_initialised
    then stay
    else if lacks user.role required_role
    then to_catalogue
    else stay
