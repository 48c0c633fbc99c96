-- ===== src/Session/Store.antt =====
-- provena-web/src/store/auth.ts: the store of the signed-in user. A method returns the new state and
-- the calls of `/session-sync` that it makes, in order; `window` says whether it runs in a browser.
pub mod Agreement
use provena.Base.{
  String, Bool, true, false, ◌&&◌, not, Option, none, some, List, [], ◌∷◌, is_blank, if◌then◌else◌,
}
use provena.Types.Auth.{UserProfile}

pub record AuthState : Type 0 where
  pub user : Option UserProfile
  pub access_token : Option String
  pub is_initialised : Bool

-- `syncSessionCookies(accessToken)` and `clearSessionCookies()`.
pub data Call : Type 0 where
  sync_session_cookies : (access_token : String) → Call
  clear_session_cookies : Call

abbrev pub initial : AuthState
initial = record { user = none; access_token = none; is_initialised = false }

abbrev in_browser : Bool → List Call → List Call
in_browser window calls = if window then calls else []

unfoldable pub login : Bool → UserProfile → String → AuthState → AuthState × List Call
login window user access_token s = (
  record s { user = some user; access_token = some access_token },
  in_browser window (sync_session_cookies access_token ∷ []),
)

unfoldable pub logout : Bool → AuthState → AuthState × List Call
logout window s =
    (record s { user = none; access_token = none }, in_browser window (clear_session_cookies ∷ []))

unfoldable pub set_access_token : String → AuthState → AuthState
set_access_token token s = record s { access_token = some token }

-- `token && …`: a missing and an empty token are both falsy.
abbrev pub truthy : Option String → Bool
truthy none = false
truthy (some token) = not (is_blank token)

unfoldable pub resync : Option String → List Call
resync none = []
resync (some token) = if is_blank token then [] else sync_session_cookies token ∷ []

unfoldable pub set_user : Bool → UserProfile → AuthState → AuthState × List Call
unfolding resync
set_user window user s = (record s { user = some user }, in_browser window (resync s.access_token))

-- `refreshed` is the access token that the refresh call answers, and `profile` what `/auth/me/`
-- answers with that token; `none` where the call throws.
unfoldable pub initialise :
    Bool → Option String → (String → Option UserProfile) → AuthState → AuthState × List Call
initialise false refreshed me s = (record s { is_initialised = true }, [])
initialise true none me s = (record s { is_initialised = true }, clear_session_cookies ∷ [])
initialise true (some access) me s = elim (me access) [
  | none ↦ (record s { is_initialised = true }, clear_session_cookies ∷ [])
  | some profile ↦ (
    record { user = some profile; access_token = some access; is_initialised = true },
    sync_session_cookies access ∷ [],
  )
]
