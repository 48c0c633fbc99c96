-- ===== src/Shell.antt =====
-- What stands around the pages of provena-web: the bar at the top, and the navigation of the areas of
-- suppliers and administrators.
pub mod Nav
pub mod Areas
pub mod Links
use provena.Base.{List, []}
use provena.Requests.Account.{AuthCall, logout}
use provena.Session.Store.{AuthState}
use provena.Session.Store
use provena.Base.{String, true}
use provena.Session.Store.{Call}

-- `handleLogout` of the bar and of the two areas, in a browser: the call of the API that is not waited
-- for, the store with its calls, and the path that the browser is sent to.
pub record LoggedOut : Type 0 where
  pub api_call : AuthCall
  pub store : AuthState
  pub calls : List Call
  pub path : String

unfoldable pub handle_logout : AuthState → LoggedOut
handle_logout s =
    let (s', calls) = Store.logout true s in
    record { api_call = logout; store = s'; calls = calls; path = "/login" }
