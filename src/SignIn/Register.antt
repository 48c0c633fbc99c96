-- ===== src/SignIn/Register.antt =====
-- provena-web/src/app/(auth)/register/page.tsx.
use provena.Base.{
  String, Bool, true, false, not, Option, none, some, List, [], ◌∷◌, ◌++◌, ltb, ◌==◌, string_eq,
  is_blank, if◌then◌else◌,
}
use provena.Types.Auth.{UserProfile}
use provena.Session.Navigation.{safe_next}
use provena.Requests.{Fields}
use provena.Requests
use provena.Requests.Account.{AuthCall}
use provena.Markup.{Part, text, link, button, field, when}
use provena.SignIn.{
  ErrorData, extract_error, text_length, Effect, merge_guest_cart, store_login, push,
}

pub record RegisterForm : Type 0 where
  pub first_name : String
  pub last_name : String
  pub email : String
  pub password : String
  pub password_confirm : String
  pub error : String
  pub loading : Bool

abbrev pub initial : RegisterForm
initial = record {
  first_name = "";
  last_name = "";
  email = "";
  password = "";
  password_confirm = "";
  error = "";
  loading = false;
}

abbrev pub register_call : RegisterForm → AuthCall
register_call f = AuthCall.register (
    ("email", Requests.text f.email)
    ∷ ("password", Requests.text f.password)
    ∷ ("password_confirm", Requests.text f.password_confirm)
    ∷ ("first_name", Requests.text f.first_name)
    ∷ ("last_name", Requests.text f.last_name)
    ∷ [])

-- Up to the call: the form, and the call that is made.
unfoldable pub handle_register : RegisterForm → RegisterForm × Option AuthCall
unfolding text_length
handle_register f =
    if not (f.password == f.password_confirm)
    then (record f { error = "Passwords do not match." }, none)
    else if ltb (text_length f.password) 12
    then (record f { error = "Password must be at least 12 characters." }, none)
    else (record f { error = ""; loading = true }, some (register_call f))

pub data RegisterAnswer : Type 0 where
  registered : (access : String) (user : UserProfile) → RegisterAnswer
  refused : Option ErrorData → RegisterAnswer

unfoldable pub register_answered :
    Option String → RegisterAnswer → RegisterForm → RegisterForm × List Effect
register_answered param (registered access user) f = (
  record f { loading = false },
  merge_guest_cart access ∷ store_login user access ∷ push (safe_next param "/catalogue") ∷ [],
)
register_answered param (refused data_) f = (
  record f {
    error = extract_error data_ "Could not create your account. Please try again.";
    loading = false;
  },
  [],
)

unfoldable pub view : RegisterForm → List Part
view f =
    link "/catalogue" "Provena"
      ∷ text "Create your account"
      ∷ field "First name" f.first_name
      ∷ field "Last name" f.last_name
      ∷ field "Email" f.email
      ∷ field "Password" f.password
      ∷ field "Confirm password" f.password_confirm
      ∷ when (not (is_blank f.error)) (text f.error ∷ [])
    ++ button (if f.loading then "Creating account…" else "Create account") f.loading
      ∷ text "Already have an account?"
      ∷ link "/login" "Sign in"
      ∷ []
