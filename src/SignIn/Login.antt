-- ===== src/SignIn/Login.antt =====
-- provena-web/src/app/(auth)/login/page.tsx: the login form and its second step. A handler is split at
-- its `await`: what it does when it is called, and what it does with the API's answer.
pub mod Landing
pub mod Steps
use provena.Base.{
  ℕ, String, Bool, true, false, ◌||◌, not, Option, none, some, List, [], ◌∷◌, ◌++◌, ltb, is_blank,
  if◌then◌else◌,
}
use provena.Types.Auth.{UserProfile, UserRole}
use provena.Session.Navigation.{safe_next}
use provena.Markup.{Part, text, link, button, field, when}
use provena.SignIn.{
  ErrorData, stated, or_text, digits_only, text_length, fallback_for, Effect, merge_guest_cart,
  store_login, push,
}

pub record LoginForm : Type 0 where
  pub email : String
  pub password : String
  pub error : String
  pub loading : Bool
  pub totp_step : Bool
  pub totp_token : String
  pub totp_code : String
  pub totp_error : String
  pub totp_loading : Bool

abbrev pub initial : LoginForm
initial = record {
  email = "";
  password = "";
  error = "";
  loading = false;
  totp_step = false;
  totp_token = "";
  totp_code = "";
  totp_error = "";
  totp_loading = false;
}

-- The ends of the two calls: a second step is asked for, the user is signed in, or an error.
pub data LoginAnswer : Type 0 where
  totp_required : (totp_session_token : String) → LoginAnswer
  signed_in : (access : String) (user : UserProfile) → LoginAnswer
  refused : Option ErrorData → LoginAnswer

pub data TotpAnswer : Type 0 where
  accepted : (access : String) (user : UserProfile) → TotpAnswer
  invalid : TotpAnswer

-- `param` is `searchParams.get('next')`.
unfoldable pub finish : Option String → String → UserProfile → List Effect
finish param access user =
    merge_guest_cart access
    ∷ store_login user access
    ∷ push (safe_next param (fallback_for user.role))
    ∷ []

unfoldable pub handle_login : LoginForm → LoginForm
handle_login f = record f { error = ""; loading = true }

unfoldable pub login_answered : Option String → LoginAnswer → LoginForm → LoginForm × List Effect
login_answered param (totp_required totp_session_token) f =
    (record f { totp_token = totp_session_token; totp_step = true; loading = false }, [])
login_answered param (signed_in access user) f =
    (record f { loading = false }, finish param access user)
login_answered param (refused data_) f =
    (record f { error = or_text (stated data_) "Invalid email or password."; loading = false }, [])

unfoldable pub handle_totp : LoginForm → LoginForm
handle_totp f = record f { totp_error = ""; totp_loading = true }

unfoldable pub totp_answered : Option String → TotpAnswer → LoginForm → LoginForm × List Effect
totp_answered param (accepted access user) f =
    (record f { totp_loading = false }, finish param access user)
totp_answered param invalid f =
    (record f { totp_error = "Invalid code. Please try again."; totp_loading = false }, [])

-- The changes of the fields, and the button of the second step that leads back.
unfoldable pub set_email : String → LoginForm → LoginForm
set_email value f = record f { email = value }

unfoldable pub set_password : String → LoginForm → LoginForm
set_password value f = record f { password = value }

unfoldable pub set_totp_code : String → LoginForm → LoginForm
set_totp_code value f = record f { totp_code = digits_only value }

unfoldable pub back_to_login : LoginForm → LoginForm
back_to_login f = record f { totp_step = false }

unfoldable pub totp_disabled : LoginForm → Bool
totp_disabled f = f.totp_loading || ltb (text_length f.totp_code) 6

totp_view : LoginForm → List Part
totp_view f =
    text "Two-step verification"
      ∷ text "Enter the code from your authenticator app."
      ∷ field "Authentication code" f.totp_code
      ∷ when (not (is_blank f.totp_error)) (text f.totp_error ∷ [])
    ++ button (if f.totp_loading then "Verifying…" else "Verify") (totp_disabled f)
      ∷ button "Back to login" false
      ∷ []

login_view : LoginForm → List Part
login_view f =
    text "Sign in"
      ∷ field "Email" f.email
      ∷ field "Password" f.password
      ∷ when (not (is_blank f.error)) (text f.error ∷ [])
    ++ button (if f.loading then "Signing in…" else "Sign in") f.loading
      ∷ link "/register" "Create account"
      ∷ link "/reset-password" "Forgot password?"
      ∷ []

unfoldable pub view : LoginForm → List Part
unfolding totp_view login_view
view f = link "/catalogue" "Provena" ∷ (if f.totp_step then totp_view f else login_view f)
