-- ===== src/Tests/Visits.antt =====
-- Visits to provena-web/src on concrete inputs: signing in, moving about, filling a cart.
use provena.Base.{
  String, true, false, none, some, List, [], ◌∷◌, ◌≡◌, refl, ◌==◌, string_eq, if◌then◌else◌, pos,
}
use provena.Types.Auth.{supplier, admin}
use provena.Session.Gate.{middleware, next}
use provena.Session.Sync.{MeAnswer, verified, not_ok, is_space, proto}
use provena.Session.Sync.Verified.{signed_out}
use provena.Session.Jar.{cookies_of}
use provena.Session.Store as Store
use provena.Session.Navigation.SafeNext.{NoBackslash-sound}
use provena.SignIn.{fallback_for}
use provena.SignIn.Login.{
  LoginForm, LoginAnswer, totp_required, accepted, invalid, login_answered, totp_answered,
  handle_login, back_to_login, set_totp_code,
}
use provena.SignIn.Login
use provena.SignIn.Login.Landing.{
  Browser, carry_out, Welcome, login_answered-lands, totp_answered-returns,
}
use provena.SignIn.Guard.{use_auth_guard}
use provena.SignIn.Guard.Agreement.{
  profile_of, cookies_for, cookies_with, answer_of, answer_with, totp_of, use_auth_guard-middleware,
}
use provena.Client.System as Requests
use provena.Client.System.Progress.{Finished, Reach-Finished}
use provena.Cart.Quantities.{Event, adds, updates, removes, run}
use provena.Cart.Basket.{basket_of, basket_run, run-refines}
use provena.Shell.Nav.{Bell, nav_view}
use provena.Shell.Areas.{Counts, admin_view, supplier_view}
use provena.Shell.Links.{Answered, links-Answered}
use provena.Tests.Web.{browser, user, earlier, request}
use provena.Tests.Api.{expired, reached}
use provena.Tests.Pages.{visitor, parse}

Reach-Finished_example : (t : Requests.System) × Requests.Reach expired t × Finished t
Reach-Finished_example = Reach-Finished reached

abbrev history : List Event
history = adds "jam" ∷ updates "tea" (pos 5) ∷ removes "jam" ∷ []

run-refines_example :
    (basket_of (run history visitor) ≡ basket_run history (basket_of visitor))
    × ((run history visitor).mutations ≡ [])
run-refines_example = run-refines history visitor refl

use_auth_guard-middleware_example :
    (answer_of
        (answer_with (totp_of (some user)))
        (use_auth_guard true (some user) (some admin) "/admin/users")
      ≡ middleware (cookies_for (some user)) "/admin/users")
    × (answer_of
          (answer_with (totp_of (some user)))
          (use_auth_guard true (some user) (some supplier) "/supplier/orders")
        ≡ middleware (cookies_for (some user)) "/supplier/orders")
    × (answer_of next (use_auth_guard true (some user) none "/orders")
        ≡ middleware (cookies_for (some user)) "/orders")
use_auth_guard-middleware_example =
    use_auth_guard-middleware (some user) "/admin/users" "/supplier/orders" "/orders" refl refl refl

-- An API that knows the user's token.
abbrev knows : String → MeAnswer
knows token = if token == "t1" then verified (profile_of user) else not_ok

abbrev opened_at_login : Browser browser knows request true
opened_at_login = record { store = Store.initial; jar = earlier; path = "/login" }

login_answered-lands_example :
    let after =
      carry_out browser knows request true
        (login_answered none (LoginAnswer.signed_in "t1" user) Login.initial).1
        opened_at_login in
    (after.path ≡ fallback_for user.role)
    × Welcome user.role user.totp_enabled (cookies_of browser after.jar) after.path
unfolding is_space proto
login_answered-lands_example =
    login_answered-lands browser knows request true refl user "t1" (refl, refl) refl Login.initial
      opened_at_login

totp_answered-returns_example :
    let after =
      carry_out browser knows request true
        (totp_answered (some "/orders") (accepted "t1" user) Login.initial).1
        opened_at_login in
    (after.path ≡ "/orders") × (middleware (cookies_of browser after.jar) "/orders" ≡ next)
unfolding is_space proto middleware
totp_answered-returns_example =
    totp_answered-returns browser knows request true refl user "t1" (refl, refl) refl Login.initial
      opened_at_login signed_out "/orders" "/orders" refl (NoBackslash-sound "/orders" refl) refl

abbrev bell : Bell
bell = record { open_ = true; notifications = []; unread_count = 3; mark_all_pending = false }

abbrev counts : Counts
counts = record { pending = 1; open_disputes = 0; approved_returns = 2; pending_reviews = 0 }

links-Answered_example :
    Answered next (cookies_for (some user)) (nav_view parse 2000 (some user) bell true 2)
    × Answered (answer_with true) (cookies_with admin true) (admin_view (λ s. s) (some user) counts)
    × Answered (answer_with true) (cookies_with supplier true) (supplier_view (some user) 4)
links-Answered_example = links-Answered parse 2000 (some user) bell true 2 (λ s. s) counts 4 true
