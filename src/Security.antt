-- ===== src/Security.antt =====
-- provena-web/src/app/account/security/page.tsx: two-factor authentication, and closing the account.
pub mod Enforced
use provena.Base.{
  ℕ, String, Bool, true, false, ◌&&◌, ◌||◌, not, Option, none, some, List, [], ◌∷◌, ◌++◌, ltb,
  is_blank, if◌then◌else◌,
}
use provena.Types.Auth.{UserProfile}
use provena.Session.Store.{AuthState, Call, set_user, logout}
use provena.Requests.Account.{AuthCall}
use provena.Markup.{Part, text, link, button, field, when}
use provena.SignIn.{digits_only, text_length}

pub record SecurityPage : Type 0 where
  pub setup_uri : Option String
  pub code : String
  pub error : String
  pub show_delete : Bool
  pub del_password : String
  pub del_code : String
  pub del_error : String

abbrev pub initial : SecurityPage
initial = record {
  setup_uri = none;
  code = "";
  error = "";
  show_delete = false;
  del_password = "";
  del_code = "";
  del_error = "";
}

-- `extractSecret(otpauthUri)`, where the language's `URL` gives the parameter, if the text is one.
unfoldable pub extract_secret : (String → Option String) → String → String
extract_secret secret_of uri = or_blank (secret_of uri)
  where
    or_blank : Option String → String
    or_blank none = ""
    or_blank (some s) = s

-- The handlers of the page's fields and plain buttons.
pub data Event : Type 0 where
  set_up : (otpauth_uri : String) → Event
  type_code type_password type_del_code : (value : String) → Event
  cancel_setup ask_delete cancel_delete : Event

unfoldable pub on_event : Event → SecurityPage → SecurityPage
on_event (set_up otpauth_uri) p = record p { setup_uri = some otpauth_uri }
on_event (type_code value) p = record p { code = digits_only value; error = "" }
on_event (type_password value) p = record p { del_password = value; del_error = "" }
on_event (type_del_code value) p = record p { del_code = digits_only value; del_error = "" }
on_event cancel_setup p = record p { setup_uri = none; code = ""; error = "" }
on_event ask_delete p = record p { show_delete = true }
on_event cancel_delete p = record p {
  show_delete = false;
  del_password = "";
  del_code = "";
  del_error = "";
}

-- The calls of the three buttons.
unfoldable pub enable_call : SecurityPage → AuthCall
enable_call p = AuthCall.enable_totp p.code

unfoldable pub disable_call : SecurityPage → AuthCall
disable_call p = AuthCall.disable_totp p.code

unfoldable pub delete_call : SecurityPage → AuthCall
delete_call p = AuthCall.delete_account p.del_password (some p.del_code)

-- The end of enabling or disabling: the code is accepted and the profile read again, or one of the
-- calls throws, which the mutation reports as its error.
pub data Ended : Type 0 where
  accepted : (profile : UserProfile) → Ended
  thrown : Ended

-- In a browser, with the store and its calls.
unfoldable pub enable_ended :
    Ended → SecurityPage → AuthState → SecurityPage × AuthState × List Call
enable_ended (accepted profile) p s =
    let (t, calls) = set_user true profile s in
    (record p { setup_uri = none; code = ""; error = "" }, t, calls)
enable_ended thrown p s = (record p { error = "Invalid code. Please try again." }, s, [])

unfoldable pub disable_ended :
    Ended → SecurityPage → AuthState → SecurityPage × AuthState × List Call
disable_ended (accepted profile) p s =
    let (t, calls) = set_user true profile s in (record p { code = ""; error = "" }, t, calls)
disable_ended thrown p s = (record p { error = "Invalid code. Please try again." }, s, [])

-- The end of closing the account, with the path that the browser is sent to.
pub data Closed : Type 0 where
  closed : Closed
  refused : (detail : Option String) → Closed

or_text : Option String → String → String
or_text none b = b
or_text (some a) b = a

unfoldable pub delete_ended :
    Closed → SecurityPage → AuthState → SecurityPage × (AuthState × List Call) × Option String
unfolding or_text
delete_ended closed p s = (p, logout true s, some "/")
delete_ended (refused detail) p s = (
  record p { del_error = or_text detail "Could not delete your account. Please try again." },
  (s, []),
  none,
)

-- `user?.totp_enabled ?? false`
abbrev pub totp_enabled : Option UserProfile → Bool
totp_enabled none = false
totp_enabled (some user) = user.totp_enabled

unfoldable pub code_disabled : Bool → SecurityPage → Bool
code_disabled is_pending p = is_pending || ltb (text_length p.code) 6

unfoldable pub delete_disabled : Bool → Bool → SecurityPage → Bool
delete_disabled is_pending enabled p =
    is_pending || is_blank p.del_password || enabled && ltb (text_length p.del_code) 6

-- Which calls are under way.
pub record Pending : Type 0 where
  pub setup : Bool
  pub enable : Bool
  pub disable : Bool
  pub delete : Bool

error_parts : String → List Part
error_parts e = when (not (is_blank e)) (text e ∷ [])

setup_parts : (String → Option String) → Pending → SecurityPage → Option String → List Part
unfolding error_parts
setup_parts secret_of w p none =
    button (if w.setup then "Loading…" else "Set up authenticator app") w.setup ∷ []
setup_parts secret_of w p (some uri) =
    text "1. Open your authenticator app and add a new account."
      ∷ text "2. Tap Enter a setup key and paste the key below, or tap"
      ∷ link uri "open in app"
      ∷ text "on a mobile device."
      ∷ text (extract_secret secret_of uri)
      ∷ text "3. Enter the 6-digit code from your app to confirm setup."
      ∷ field "000000" p.code
      ∷ error_parts p.error
    ++ button (if w.enable then "Verifying…" else "Enable two-factor authentication")
        (code_disabled w.enable p)
      ∷ button "Cancel" false
      ∷ []

enabled_parts : Pending → SecurityPage → List Part
unfolding error_parts
enabled_parts w p =
    text "Enter a code from your authenticator app to disable two-factor authentication."
      ∷ field "000000" p.code
      ∷ error_parts p.error
    ++ button (if w.disable then "Disabling…" else "Disable two-factor authentication")
        (code_disabled w.disable p)
      ∷ []

delete_parts : Bool → Pending → SecurityPage → List Part
unfolding error_parts
delete_parts enabled w p =
    if not p.show_delete
    then button "Delete my account" false ∷ []
    else field "Confirm your password" p.del_password
        ∷ when enabled (field "2FA code" p.del_code ∷ [])
      ++ error_parts p.del_error
      ++ button (if w.delete then "Deleting…" else "Permanently delete")
          (delete_disabled w.delete enabled p)
        ∷ button "Cancel" false
        ∷ []

-- `enforce` says whether the gate has sent the user here.
unfoldable pub security_view :
    (String → Option String) → Bool → Pending → Option UserProfile → SecurityPage → List Part
unfolding setup_parts enabled_parts delete_parts
security_view secret_of enforce w user p =
    let enabled = totp_enabled user in
    text "Security"
      ∷ when (enforce && not enabled) (
          text
            "Your account role requires two-factor authentication before you can access that area. Set up an authenticator app below to continue."
          ∷ [])
    ++ text "Authenticator app (TOTP)"
      ∷ text (if enabled then "Enabled" else "Not set up")
      ∷ text "Use Google Authenticator, Authy, or any TOTP-compatible app."
      ∷ (if enabled then enabled_parts w p else setup_parts secret_of w p p.setup_uri)
    ++ text "Delete account"
      ∷ text
          "Permanently erase your personal data and close your account. Order and payment records are kept as required by law but stripped of your details. This cannot be undone."
      ∷ delete_parts enabled w p
