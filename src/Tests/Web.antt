-- ===== src/Tests/Web.antt =====
-- The gate, the session cookies and the auth store of provena-web/src on concrete inputs.
use Prim.Native.Char.{Char, code}
use Prim.Native.String.{[], ◌∷◌}
use Prim.Native.String
use text.Mathlib.TextLemmas.{nil-append, cons-append}
use provena.Base.{
  String, true, false, Option, some, ◌≡◌, ◌↔◌, ◌⊎◌, refl, ap, ◌∙◌, sym, ◌==◌, nat_eq, ◌≢◌,
  string_eq, is_blank, if◌then◌else◌, Bool, ◌||◌, ◌&&◌, not, arith,
}
use provena.Types.Auth.{UserProfile, buyer, supplier}
use provena.Session.Gate.{Cookies, next, redirect_login, middleware}
use provena.Session.Gate.Access.{Trusted, middleware-roles_iff, middleware-protected_iff}
use provena.Session.Gate.Hops.{Settles, follow-Settles}
use provena.Session.Navigation.{safe_next}
use provena.Session.Navigation.SafeNext.{
  UrlParser, SitePaths, NoBreaks-sound, safe_next_stays, NoBackslash-sound, safe_next-middleware,
  safe_next-foreign,
}
use provena.Session.Sync.{
  MeAnswer, not_ok, Request, bearer_token, post, strip_bearer, proto, is_space,
}
use provena.Session.Sync.Verified.{
  signed_out, verdict, full, cookies_after, middleware-post, cookies-post,
}
use provena.Session.Jar.{CookieJar, value_of, cookies_of}
use provena.Session.Store.{initial, initialise, set_user, set_access_token}
use provena.Session.Store.Agreement.{settle, sets_user, refreshes, here, step, Reach-initialise}

-- A browser that keeps its cookies as a function from names to values.
abbrev pub browser : CookieJar
browser = record {
  Jar = String → Option String;
  read = λ name jar. jar name;
  store = λ secure_page c jar name. if c.name == name then value_of c else jar name;
  read-store = λ secure_page c jar name h. refl;
}

-- The cookies of an administrator who used the browser before.
abbrev pub earlier : String → Option String
earlier name = if name == "user_role" then some "ADMIN" else some "1"

-- An API that knows one token, a supplier's.
abbrev pub me : String → MeAnswer
me token = if token == "t1" then full "SUPPLIER" else not_ok

abbrev pub request : Request
request = record {
  authorization = some "bearer  t1";
  x_forwarded_proto = some "https";
  protocol = "http:";
}

abbrev admin_cookies : Cookies
admin_cookies = record { has_session = some "1"; user_role = some "ADMIN"; totp_enabled = some "0" }

middleware-post_example :
    ((middleware (cookies_after browser earlier true (post me request)) "/admin/users" ≡ next)
      ↔ (me (bearer_token request.authorization) ≡ full "ADMIN"))
    × ((middleware (cookies_after browser earlier true (post me request)) "/supplier/orders" ≡ next)
        ↔ (me (bearer_token request.authorization) ≡ full "SUPPLIER"))
unfolding strip_bearer proto
middleware-post_example =
    middleware-post browser earlier true me request "/admin/users" "/supplier/orders" refl refl refl
      refl

cookies-post_example : cookies_after browser earlier true (post me request) ≡ (
    if is_blank (bearer_token request.authorization)
    then signed_out
    else verdict (me (bearer_token request.authorization)))
unfolding proto
cookies-post_example = cookies-post browser earlier true me request refl

abbrev pub user : UserProfile
user = record {
  id = "u1";
  email = "ada@example.com";
  first_name = "Ada";
  last_name = "Byron";
  role = buyer;
  totp_enabled = false;
  created_at = "";
}

-- An API that knows one account, to which every token belongs, with the role.
abbrev owner : String → String
owner token = "ada"

abbrev profiles : String → String → MeAnswer
profiles role account = if account == "ada" then full role else not_ok

-- A session is taken up again, its user becomes a supplier, and then its token is refreshed.
Reach-initialise_example :
    let resumed =
      settle browser request true owner
        (initialise true (some "t1") (λ _. some user) initial)
        earlier
        (profiles "BUYER") in
    cookies_of browser
      (settle browser request true owner
        (set_user true (record user { role = supplier }) resumed.store)
        resumed.jar
        (profiles "SUPPLIER")).jar
    ≡ verdict (full "SUPPLIER")
unfolding initialise set_user set_access_token proto strip_bearer is_space
Reach-initialise_example =
    Reach-initialise browser request true owner refl (some "t1") (λ _. some user) earlier
      (profiles "BUYER") _ (refl, refl)
      (step (step here (sets_user (record user { role = supplier }) (profiles "SUPPLIER")))
        (refreshes "t1" "t2" refl (refl, refl) refl))

middleware-roles_example :
    ((middleware admin_cookies "/admin/users" ≡ next) ↔ Trusted "ADMIN" admin_cookies)
    × ((middleware admin_cookies "/supplier/orders" ≡ next) ↔ Trusted "SUPPLIER" admin_cookies)
middleware-roles_example =
    middleware-roles_iff admin_cookies "/admin/users" "/supplier/orders" refl refl

middleware-protected_example :
    ((middleware signed_out "/orders/7" ≡ next) ↔ (signed_out.has_session ≡ some "1"))
    × ((middleware signed_out "/orders/7" ≡ next)
        ⊎ (middleware signed_out "/orders/7" ≡ redirect_login "/orders/7"))
middleware-protected_example = middleware-protected_iff signed_out "/orders/7" refl

follow-Settles_example : Settles 2 admin_cookies "/login"
follow-Settles_example = follow-Settles admin_cookies "/login"

safe_next-middleware_example : safe_next (some "/orders") "/catalogue" ≡ "/orders"
unfolding middleware
safe_next-middleware_example =
    safe_next-middleware signed_out "/orders" "/orders" "/catalogue" refl
      (NoBackslash-sound "/orders" refl)

-- A parser that skips tabs, and takes what is left to be where the browser goes.
abbrev skip_tabs : String → String
skip_tabs [] = []
skip_tabs (c ∷ s) = let rest = skip_tabs s in if code c == 9 then rest else c ∷ rest

skip_tabs-append :
    (a b : String) → skip_tabs (String.◌++◌ a ("\t" ∷ b)) ≡ skip_tabs (String.◌++◌ a b)
skip_tabs-append [] b = ap skip_tabs (nil-append ("\t" ∷ b)) ∙ sym (ap skip_tabs (nil-append b))
skip_tabs-append (c ∷ a) b =
    ap skip_tabs (cons-append c a ("\t" ∷ b))
    ∙ ap (λ rest. if code c == 9 then rest else c ∷ rest) (skip_tabs-append a b)
    ∙ sym (ap skip_tabs (cons-append c a b))

abbrev parser : UrlParser
parser = record {
  Origin = String;
  origin = skip_tabs;
  foreign = λ host. "/" ∷ "/" ∷ skip_tabs host;
  skips_tabs = skip_tabs-append;
  scheme_relative = λ host. refl;
}

safe_next-foreign_example :
    skip_tabs (safe_next (some ("/" ∷ "\t" ∷ "/" ∷ "evil")) "/catalogue")
    ≡ "/" ∷ "/" ∷ skip_tabs "evil"
safe_next-foreign_example =
    safe_next-foreign parser "evil" "/catalogue" (NoBackslash-sound "evil" refl)

-- A parser that knows whether a location stays on the site: one slash is followed by neither kind of
-- slash.
abbrev stays : String → Bool
stays [] = true
stays (a ∷ []) = true
stays (a ∷ c ∷ s) = not (code a == 47 && (code c == 47 || code c == 92))

stays_path : (a c : Char) (s : String) → code c ≢ 47 → code c ≢ 92 → stays (a ∷ c ∷ s) ≡ true
stays_path a c s ne ne' = ground arith

abbrev site : SitePaths
site = record {
  Origin = Bool;
  origin = stays;
  page = true;
  path = λ a c s slash ne ne' plain. stays_path a c s ne ne';
  root = λ a slash. refl;
}

safe_next_stays_example : stays (safe_next (some "//evil.example") "/catalogue") ≡ true
safe_next_stays_example =
    safe_next_stays site (some "//evil.example") "/catalogue" (NoBreaks-sound "//evil.example" refl)
      refl
