-- ===== src/SignIn/Login/Steps.antt =====
-- The two steps of the form of provena-web/src/app/(auth)/login/page.tsx over a history of events.
use Prim.Native.Char.{code}
use Prim.Native.String.{[], ◌∷◌}
use provena.Base.{String, true, false, Option, [], ◌∷◌, ◌≡◌, refl, ◌⊎◌, inl, inr, if_cases}
use provena.SignIn.{digits_only, is_digit}
use provena.SignIn.Login.{
  LoginForm, initial, LoginAnswer, TotpAnswer, invalid, totp_required, handle_login, login_answered,
  handle_totp, totp_answered, set_email, set_password, set_totp_code, back_to_login,
}

abbrev pub AllDigits : String → Type 0
AllDigits [] = Unit
AllDigits (c ∷ s) = (is_digit (code c) ≡ true) × AllDigits s

digits_only-AllDigits : (s : String) → AllDigits (digits_only s)
unfolding digits_only
digits_only-AllDigits [] = tt
digits_only-AllDigits (c ∷ s) =
    if_cases AllDigits (is_digit (code c)) (λ yes. (yes, digits_only-AllDigits s))
      (λ _. digits_only-AllDigits s)

-- What can happen on the page. A form is submitted with its button, which is disabled while a call
-- of it is under way, and an answer comes only while one is.
pub data Step (f : LoginForm) : LoginForm → Type 0 where
  types_email : (value : String) → Step f (set_email value f)
  types_password : (value : String) → Step f (set_password value f)
  types_code : (value : String) → Step f (set_totp_code value f)
  submits : f.totp_step ≡ false → f.loading ≡ false → Step f (handle_login f)
  answers :
      (param : Option String) (a : LoginAnswer)
      → f.loading ≡ true
      → Step f (login_answered param a f).0
  submits_code : f.totp_step ≡ true → f.totp_loading ≡ false → Step f (handle_totp f)
  answers_code :
      (param : Option String) (a : TotpAnswer)
      → f.totp_loading ≡ true
      → Step f (totp_answered param a f).0
  goes_back : f.totp_step ≡ true → Step f (back_to_login f)

pub data Reach : LoginForm → Type 0 where
  start : Reach initial
  step : {f g : LoginForm} → Reach f → Step f g → Reach g

-- The code holds digits only, and a message is shown only where no call of its step is under way.
pub record Tidy (f : LoginForm) : Type 0 where
  pub digits : AllDigits f.totp_code
  pub quiet : (f.loading ≡ false) ⊎ (f.error ≡ "")
  pub totp_quiet : (f.totp_loading ≡ false) ⊎ (f.totp_error ≡ "")

Step-Tidy : {f g : LoginForm} → Step f g → Tidy f → Tidy g
unfolding set_email set_password set_totp_code handle_login login_answered handle_totp totp_answered
    back_to_login
Step-Tidy (types_email value) t = record {
  digits = t.digits;
  quiet = t.quiet;
  totp_quiet = t.totp_quiet;
}
Step-Tidy (types_password value) t = record {
  digits = t.digits;
  quiet = t.quiet;
  totp_quiet = t.totp_quiet;
}
Step-Tidy (types_code value) t = record {
  digits = digits_only-AllDigits value;
  quiet = t.quiet;
  totp_quiet = t.totp_quiet;
}
Step-Tidy (submits a b) t = record {
  digits = t.digits;
  quiet = inr refl;
  totp_quiet = t.totp_quiet;
}
Step-Tidy (answers param (LoginAnswer.totp_required token) e) t = record {
  digits = t.digits;
  quiet = inl refl;
  totp_quiet = t.totp_quiet;
}
Step-Tidy (answers param (LoginAnswer.signed_in access user) e) t = record {
  digits = t.digits;
  quiet = inl refl;
  totp_quiet = t.totp_quiet;
}
Step-Tidy (answers param (LoginAnswer.refused data_) e) t = record {
  digits = t.digits;
  quiet = inl refl;
  totp_quiet = t.totp_quiet;
}
Step-Tidy (submits_code a b) t = record {
  digits = t.digits;
  quiet = t.quiet;
  totp_quiet = inr refl;
}
Step-Tidy (answers_code param (TotpAnswer.accepted access user) e) t = record {
  digits = t.digits;
  quiet = t.quiet;
  totp_quiet = inl refl;
}
Step-Tidy (answers_code param TotpAnswer.invalid e) t = record {
  digits = t.digits;
  quiet = t.quiet;
  totp_quiet = inl refl;
}
Step-Tidy (goes_back a) t = record { digits = t.digits; quiet = t.quiet; totp_quiet = t.totp_quiet }

-- Whatever happens on the page, the code that the second step would send holds digits only, and no
-- message of an earlier try is shown while a try is under way.
pub Reach-Tidy : {f : LoginForm} → Reach f → Tidy f
Reach-Tidy start = record { digits = tt; quiet = inl refl; totp_quiet = inl refl }
Reach-Tidy (step r s) = Step-Tidy s (Reach-Tidy r)

-- If a code is refused and the user goes back and signs in once more, the second step opens with the
-- refused code and its message, before anything is sent.
pub totp_again :
    (f : LoginForm) (param : Option String) (token : String)
    → let again = handle_login (back_to_login (totp_answered param invalid f).0) in
      let g = (login_answered param (totp_required token) again).0 in
      (g.totp_step ≡ true)
      × (g.totp_token ≡ token)
      × (g.totp_code ≡ f.totp_code)
      × (g.totp_error ≡ "Invalid code. Please try again.")
unfolding handle_login back_to_login totp_answered login_answered
totp_again f param token = (refl, refl, refl, refl)
