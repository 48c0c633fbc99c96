-- ===== src/SignIn/Passwords.antt =====
-- What provena-web/src/app/(auth)/register/page.tsx and provena-web/src/app/(auth)/reset-password/page.tsx
-- ask of a new password before they call the API.
use provena.Base.{
  ◌≤◌, String, true, false, not, Option, none, some, ◌≡◌, ◌⊎◌, inl, inr, if_cases, ltb-true,
  ltb-false, refl, arith, eq_iff, ltb, ◌==◌, string_eq, is_blank, if◌then◌else◌,
}
use provena.Requests.Account.{AuthCall}
use provena.SignIn.{text_length}
use provena.SignIn.Register.{RegisterForm, register_call, handle_register}
use provena.SignIn.Reset.{ConfirmForm, confirm_submit}

-- The two entries of a new password fit: they are equal and at least twelve characters long.
abbrev pub Fit : String → String → Type 0
Fit password confirm = (password ≡ confirm) × (12 ≤ text_length password)

fit_cases :
    {A : Type 0} (P : A → Type 0) (password confirm : String) (a b c : A)
    → ((Fit password confirm → ⊥) → P a)
    → ((Fit password confirm → ⊥) → P b)
    → (Fit password confirm → P c)
    → P (if not (password == confirm) then a else if ltb (text_length password) 12 then b else c)
fit_cases P password confirm a b c h k l =
    if_cases P (not (password == confirm))
      (λ apart. h (λ fit. ground (arith, apart, fit.0, eq_iff password confirm)))
      (λ same.
        let equal : password ≡ confirm = ground (arith, same, eq_iff password confirm) in
        if_cases P (ltb (text_length password) 12)
          (λ short.
            let below = ltb-true (text_length password) 12 short in
            k (λ fit. omega (arith, below, fit.1)))
          (λ long. l (equal, ltb-false (text_length password) 12 long)))

-- Each of the two forms makes its call, and waits for it, if the entries fit; and if they do not, it
-- makes no call and shows a message.
pub submits :
    (f : RegisterForm) (token : String) (g : ConfirmForm)
    → let (f', register) = handle_register f in
      let (g', confirm) = confirm_submit token g in
      (Fit f.password f.password_confirm × (register ≡ some (register_call f)) × (f'.loading ≡ true)
        ⊎ (Fit f.password f.password_confirm → ⊥) × (register ≡ none) × (is_blank f'.error ≡ false))
      × (Fit g.password g.password_confirm
            × (confirm ≡ some (AuthCall.confirm_password_reset token g.password g.password_confirm))
            × (g'.loading ≡ true)
          ⊎ (Fit g.password g.password_confirm → ⊥)
            × (confirm ≡ none)
            × (is_blank g'.error ≡ false))
unfolding handle_register confirm_submit
submits f token g = (
  fit_cases
      (λ (r : RegisterForm × Option AuthCall).
        Fit f.password f.password_confirm × (r.1 ≡ some (register_call f)) × (r.0.loading ≡ true)
        ⊎ (Fit f.password f.password_confirm → ⊥) × (r.1 ≡ none) × (is_blank r.0.error ≡ false))
      f.password f.password_confirm _ _ _ (λ bad. inr (bad, refl, refl))
      (λ bad. inr (bad, refl, refl)) (λ fit. inl (fit, refl, refl)),
  fit_cases
      (λ (r : ConfirmForm × Option AuthCall).
        Fit g.password g.password_confirm
          × (r.1 ≡ some (AuthCall.confirm_password_reset token g.password g.password_confirm))
          × (r.0.loading ≡ true)
        ⊎ (Fit g.password g.password_confirm → ⊥) × (r.1 ≡ none) × (is_blank r.0.error ≡ false))
      g.password g.password_confirm _ _ _ (λ bad. inr (bad, refl, refl))
      (λ bad. inr (bad, refl, refl)) (λ fit. inl (fit, refl, refl)),
)
