-- ===== src/Session/Sync/Verified.antt =====
-- What the gate sees after a call of provena-web/src/app/session-sync/route.ts.
use provena.Base.{
  String, Bool, true, false, ◌||◌, not, Option, none, some, [], ◌≡◌, ◌≢◌, ◌↔◌, refl, sym, subst,
  eq_iff, arith, ◌==◌, string_eq, is_blank, if◌then◌else◌, Bool-cases, inl, inr, starts_with, ◌∙◌,
  ap,
}
use provena.Session.Gate.{Cookies, next, middleware}
use provena.Session.Gate.Access.{Trusted, middleware-admin_iff, middleware-supplier_iff}
use provena.Session.Sync.{
  MeAnswer, unreachable, not_ok, verified, Profile, Request, bearer_token, post, delete, proto,
  accept, clear_on, refuse, or_text, flag_text, Response,
}
use provena.Session.Jar.{CookieJar, store_all, cookies_of}

abbrev pub signed_out : Cookies
signed_out = record { has_session = none; user_role = none; totp_enabled = none }

abbrev pub signed_in : Profile → Cookies
signed_in profile = record {
  has_session = some "1";
  user_role = some (or_text profile.role "");
  totp_enabled = some (flag_text profile.totp_enabled);
}

-- What the cookies say after the handler's answer, by what the API says of the token.
abbrev pub verdict : MeAnswer → Cookies
verdict unreachable = signed_out
verdict not_ok = signed_out
verdict (verified profile) = signed_in profile

flag_text-eq : (flag : Option Bool) → flag_text flag ≡ "1" → flag ≡ some true
flag_text-eq none h = ground (arith, eq_iff "0" "1")
flag_text-eq (some true) h = refl
flag_text-eq (some false) h = ground (arith, eq_iff "0" "1")

or_text-eq : (o : Option String) (role : String) → role ≢ "" → or_text o "" ≡ role → o ≡ some role
or_text-eq none role h e = absurd (h (sym e))
or_text-eq (some r) role h e = ap some e

-- The API's answer for a user with the role and with two-factor authentication on.
abbrev pub full : String → MeAnswer
full role = verified (record { role = some role; totp_enabled = some true })

verdict-Trusted :
    (role : String) (a : MeAnswer) → role ≢ "" → Trusted role (verdict a) ↔ (a ≡ full role)
verdict-Trusted role unreachable h = ground arith
verdict-Trusted role not_ok h = ground arith
verdict-Trusted role (verified profile) h =
    ground (arith, or_text-eq profile.role role h, flag_text-eq profile.totp_enabled)

iff_of :
    {c : Cookies} {a : MeAnswer}
    → c ≡ verdict a
    → (role : String) → role ≢ ""
    → Trusted role c ↔ (a ≡ full role)
iff_of {a} e role h =
    subst (λ k. Trusted role k ↔ (a ≡ full role)) (sym e) (verdict-Trusted role a h)

iff_trans : {A B C : Type 0} → A ↔ B → B ↔ C → A ↔ C
iff_trans f g = (λ a. g.0 (f.0 a), λ c. f.1 (g.1 c))

-- The secure flag fits the page: the site is served over https where the handler believes so.
abbrev pub Honest : Request → Bool → Type 0
Honest req secure_page = (not (proto req == "https") || secure_page) ≡ true

module _ (browser : CookieJar) (jar : browser.Jar) (secure_page : Bool) where
  open browser use {read-store}

  abbrev pub cookies_after : Response → Cookies
  cookies_after res = cookies_of browser (store_all browser secure_page res.cookies jar)

  cookies-clear_on : (res : Response) → res.cookies ≡ [] → cookies_after (clear_on res) ≡ signed_out
  unfolding store_all clear_on
  cookies-clear_on res e = rw (e, clear_on) (simp (read-store))

  cookies-accept :
      (req : Request) (profile : Profile)
      → Honest req secure_page
      → cookies_after (accept req profile) ≡ signed_in profile
  unfolding store_all accept
  cookies-accept req profile h = simp (read-store)

  -- After a POST the gate's cookies say exactly what the API said of the token: signed out if there
  -- was no token, if the API could not be asked or refused it, and otherwise the verified role and
  -- two-factor flag. A cookie of an earlier session does not survive.
  pub cookies-post :
      (me : String → MeAnswer) (req : Request)
      → Honest req secure_page
      → cookies_after (post me req) ≡ (
          if is_blank (bearer_token req.authorization)
          then signed_out
          else verdict (me (bearer_token req.authorization)))
  unfolding post
  cookies-post me req h = elim (Bool-cases (is_blank (bearer_token req.authorization))) [
    | inl blank ↦ rw blank (cookies-clear_on (refuse 401) refl)
    | inr token ↦ rw token (by_answer (me (bearer_token req.authorization)))
  ]
    where
      by_answer :
          (a : MeAnswer)
          → cookies_after (elim a [
            | unreachable ↦ clear_on (refuse 502)
            | not_ok ↦ clear_on (refuse 401)
            | verified profile ↦ accept req profile
          ])
            ≡ verdict a
      by_answer unreachable = cookies-clear_on (refuse 502) refl
      by_answer not_ok = cookies-clear_on (refuse 401) refl
      by_answer (verified profile) = cookies-accept req profile h

  -- After a DELETE the gate sees no session.
  pub cookies-delete : cookies_after delete ≡ signed_out
  unfolding delete
  cookies-delete = cookies-clear_on (record { ok = true; status = 200; cookies = [] }) refl

  -- After a POST with a token, a page under `/admin` is served exactly if the API verified the
  -- token and answered that its owner is an ADMIN with two-factor authentication on, and a page
  -- under `/supplier` exactly if it answered so with SUPPLIER: cookies of an earlier session let
  -- nobody in.
  pub middleware-post :
      (me : String → MeAnswer) (req : Request) (p q : String)
      → Honest req secure_page
      → is_blank (bearer_token req.authorization) ≡ false
      → starts_with p "/admin" ≡ true
      → starts_with q "/supplier" ≡ true
      → ((middleware (cookies_after (post me req)) p ≡ next)
          ↔ (me (bearer_token req.authorization) ≡ full "ADMIN"))
        × ((middleware (cookies_after (post me req)) q ≡ next)
            ↔ (me (bearer_token req.authorization) ≡ full "SUPPLIER"))
  middleware-post me req p q h token under under' =
      let answer = me (bearer_token req.authorization) in
      let e = cookies-post me req h ∙ ap (λ b. if b then signed_out else verdict answer) token in
      (
        iff_trans (middleware-admin_iff _ p under)
            (iff_of e "ADMIN" (λ k. ground (arith, eq_iff "ADMIN" ""))),
        iff_trans (middleware-supplier_iff _ q under')
            (iff_of e "SUPPLIER" (λ k. ground (arith, eq_iff "SUPPLIER" ""))),
      )
