-- ===== src/Session/Jar.antt =====
-- The browser's cookie store, as far as provena-web relies on it, and the three cookies that
-- provena-web/src/middleware.ts reads from it.
use provena.Base.{
  String, Bool, true, ◌||◌, not, Option, none, some, List, [], ◌∷◌, ◌≡◌, ◌==◌, nat_eq, string_eq,
  if◌then◌else◌,
}
use provena.Session.Gate.{Cookies}
use provena.Session.Sync.{SetCookie}

-- A cookie with a `Max-Age` of 0 is removed.
abbrev pub value_of : SetCookie → Option String
value_of c = elim c.max_age [
  | none ↦ some c.value
  | some age ↦ if age == 0 then none else some c.value
]

-- The cookies of one site. `store secure_page` keeps a `Set-Cookie` of a page that came over
-- https or not: one that is marked secure is kept on an https page only.
pub record CookieJar : Type 1 where
  pub Jar : Type 0
  pub read : String → Jar → Option String
  pub store : Bool → SetCookie → Jar → Jar
  pub read-store :
      (secure_page : Bool) (c : SetCookie) (jar : Jar) (name : String)
      → (not c.secure || secure_page) ≡ true
      → read name (store secure_page c jar) ≡ (if c.name == name then value_of c else read name jar)

module _ (browser : CookieJar) where
  open browser use {Jar, read, store}

  unfoldable pub store_all : Bool → List SetCookie → Jar → Jar
  store_all secure_page [] jar = jar
  store_all secure_page (c ∷ cs) jar = store_all secure_page cs (store secure_page c jar)

  -- The request's cookies, as the gate reads them.
  abbrev pub cookies_of : Jar → Cookies
  cookies_of jar = record {
    has_session = read "has_session" jar;
    user_role = read "user_role" jar;
    totp_enabled = read "totp_enabled" jar;
  }
