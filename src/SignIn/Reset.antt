-- ===== src/SignIn/Reset.antt =====
-- provena-web/src/app/(auth)/reset-password/page.tsx: the form that asks for a link, and the form that
-- the link leads to.
use provena.Base.{
  String, Bool, true, false, not, Option, none, some, List, [], ◌∷◌, ◌++◌, ltb, ◌==◌, string_eq,
  is_blank, if◌then◌else◌,
}
use provena.Requests.Account.{AuthCall}
use provena.Markup.{Part, text, link, button, field, when}
use provena.SignIn.{ErrorData, extract_error, text_length}

pub record RequestForm : Type 0 where
  pub email : String
  pub sent : Bool
  pub error : String
  pub loading : Bool

-- The end of a call: it succeeds, or it throws.
pub data Ended : Type 0 where
  done : Ended
  thrown : Option ErrorData → Ended

unfoldable pub request_submit : RequestForm → RequestForm × AuthCall
request_submit f =
    (record f { error = ""; loading = true }, AuthCall.request_password_reset f.email)

unfoldable pub request_answered : Ended → RequestForm → RequestForm
request_answered done f = record f { sent = true; loading = false }
request_answered (thrown data_) f = record f {
  error = extract_error data_ "Could not send the reset link. Please try again.";
  loading = false;
}

unfoldable pub request_view : RequestForm → List Part
request_view f =
    if f.sent
    then text "Check your email"
      ∷ text "If an account exists for"
      ∷ text f.email
      ∷ text ", we have sent a link to reset your password. The link expires in one hour."
      ∷ link "/login" "Back to sign in"
      ∷ []
    else text "Reset your password"
        ∷ text "Enter your email and we will send you a reset link."
        ∷ field "Email" f.email
        ∷ when (not (is_blank f.error)) (text f.error ∷ [])
      ++ button (if f.loading then "Sending…" else "Send reset link") f.loading
        ∷ text "Remembered it?"
        ∷ link "/login" "Sign in"
        ∷ []

pub record ConfirmForm : Type 0 where
  pub password : String
  pub password_confirm : String
  pub finished : Bool
  pub error : String
  pub loading : Bool

-- Up to the call: the form, and the call that is made.
unfoldable pub confirm_submit : String → ConfirmForm → ConfirmForm × Option AuthCall
unfolding text_length
confirm_submit token f =
    if not (f.password == f.password_confirm)
    then (record f { error = "Passwords do not match." }, none)
    else if ltb (text_length f.password) 12
    then (record f { error = "Password must be at least 12 characters." }, none)
    else (
      record f { error = ""; loading = true },
      some (AuthCall.confirm_password_reset token f.password f.password_confirm),
    )

-- With the path that the browser is sent to, after a while.
unfoldable pub confirm_answered : Ended → ConfirmForm → ConfirmForm × Option String
confirm_answered done f = (record f { finished = true; loading = false }, some "/login")
confirm_answered (thrown data_) f = (
  record f {
    error = extract_error data_ "This reset link is invalid or has expired. Request a new one.";
    loading = false;
  },
  none,
)

unfoldable pub confirm_view : ConfirmForm → List Part
confirm_view f =
    if f.finished
    then text "Password updated"
      ∷ text "You can now sign in with your new password. Redirecting…"
      ∷ link "/login" "Sign in"
      ∷ []
    else text "Set a new password"
        ∷ text "Choose a password of at least 12 characters."
        ∷ field "New password" f.password
        ∷ field "Confirm password" f.password_confirm
        ∷ when (not (is_blank f.error)) (text f.error ∷ [])
      ++ button (if f.loading then "Updating…" else "Update password") f.loading
        ∷ link "/login" "Back to sign in"
        ∷ []

-- `token ? <ConfirmForm token={token} /> : <RequestForm />`
unfoldable pub reset_view : Option String → RequestForm → ConfirmForm → List Part
unfolding request_view confirm_view
reset_view none r c = link "/catalogue" "Provena" ∷ request_view r
reset_view (some token) r c =
    link "/catalogue" "Provena" ∷ (if is_blank token then request_view r else confirm_view c)
