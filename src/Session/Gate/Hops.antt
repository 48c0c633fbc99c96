-- ===== src/Session/Gate/Hops.antt =====
-- The redirects of provena-web/src/middleware.ts, followed by a browser that keeps its cookies.
use Prim.Native.Char.{code}
use Prim.Native.String.{[], ◌∷◌}
use provena.Base.{
  ℕ, zero, suc, String, true, false, Option, none, some, ◌≡◌, ◌⊎◌, inl, inr, refl, arith, ◌==◌,
  nat_eq, if◌then◌else◌,
}
use provena.Session.Gate.{
  Cookies, Outcome, next, redirect, redirect_login, cookie_is, middleware, home,
}

-- The path name of a redirect's location: what stands before the query.
abbrev pub before_query : String → String
before_query [] = []
before_query (c ∷ s) = let rest = before_query s in if code c == 63 then [] else c ∷ rest

abbrev pub target : Outcome → Option String
target next = none
target (redirect location) = some (before_query location)
target (redirect_login next_param) = some "/login"

-- The page that is served after at most `fuel` redirects.
pub follow : ℕ → Cookies → String → Option String
follow zero c p = elim (middleware c p) [ next ↦ some p | _ ↦ none ]
follow (suc fuel) c p = elim (target (middleware c p)) [ none ↦ some p | some q ↦ follow fuel c q ]

catalogue_served : (c : Cookies) → middleware c "/catalogue" ≡ next
unfolding middleware
catalogue_served c = ground arith

login_served : (c : Cookies) → cookie_is c.has_session "1" ≡ false → middleware c "/login" ≡ next
unfolding middleware
login_served c h = ground arith

security_served :
    (c : Cookies) → cookie_is c.has_session "1" ≡ true → middleware c "/account/security" ≡ next
unfolding middleware
security_served c h = ground arith

-- Where one request can be sent.
Sent : Cookies → String → Type 0
Sent c p =
    (middleware c p ≡ next)
    ⊎ (cookie_is c.has_session "1" ≡ false) × (middleware c p ≡ redirect_login p)
    ⊎ (middleware c p ≡ redirect "/catalogue")
    ⊎ (cookie_is c.has_session "1" ≡ true)
      × (middleware c p ≡ redirect "/account/security?enforce=1")
    ⊎ (cookie_is c.has_session "1" ≡ true) × (middleware c p ≡ redirect (home c.user_role))

middleware-Sent : (c : Cookies) (p : String) → Sent c p
unfolding Sent middleware
middleware-Sent c p = ground arith

-- The three pages that a signed-in user can be sent to, each served or answered by the security
-- page.
dashboard_Sent :
    (c : Cookies)
    → cookie_is c.has_session "1" ≡ true
    → (home c.user_role ≡ "/catalogue")
      ⊎ (home c.user_role ≡ "/admin/dashboard")
        × ((middleware c "/admin/dashboard" ≡ next)
            ⊎ (middleware c "/admin/dashboard" ≡ redirect "/account/security?enforce=1"))
      ⊎ (home c.user_role ≡ "/supplier/dashboard")
        × ((middleware c "/supplier/dashboard" ≡ next)
            ⊎ (middleware c "/supplier/dashboard" ≡ redirect "/account/security?enforce=1"))
unfolding middleware
dashboard_Sent c h = ground arith

abbrev pub Settles : ℕ → Cookies → String → Type 0
Settles fuel c p = (q : String) × (follow fuel c p ≡ some q) × (middleware c q ≡ next)

module _ (c : Cookies) (p q : String) {o : Outcome} (sent : middleware c p ≡ o)
    (t : target o ≡ some q) where
  one_hop : middleware c q ≡ next → Settles 2 c p
  unfolding follow
  one_hop served = (q, rw (sent, follow, t, served, follow), served)

  two_hops :
      (r : String) {o' : Outcome}
      → middleware c q ≡ o'
      → target o' ≡ some r
      → middleware c r ≡ next
      → Settles 2 c p
  unfolding follow
  two_hops r again t' served = (r, rw (sent, follow, t, again, follow, t', served, follow), served)

dashboard-Settles :
    (c : Cookies) (p : String)
    → cookie_is c.has_session "1" ≡ true
    → middleware c p ≡ redirect (home c.user_role)
    → Settles 2 c p
dashboard-Settles c p session sent = elim (dashboard_Sent c session) [
  | inl e ↦ one_hop c p "/catalogue" sent (rw e) (catalogue_served c)
  | inr (inl (e, inl served)) ↦ one_hop c p "/admin/dashboard" sent (rw e) served
  | inr (inl (e, inr again)) ↦
      two_hops c p "/admin/dashboard" sent (rw e) "/account/security" again refl
        (security_served c session)
  | inr (inr (e, inl served)) ↦ one_hop c p "/supplier/dashboard" sent (rw e) served
  | inr (inr (e, inr again)) ↦
      two_hops c p "/supplier/dashboard" sent (rw e) "/account/security" again refl
        (security_served c session)
]

-- For every path and every content of the cookies, a browser that follows the gate's redirects
-- reaches a page that is served after two redirects at most: there is no redirect loop.
pub follow-Settles : (c : Cookies) (p : String) → Settles 2 c p
unfolding Sent follow
follow-Settles c p = elim (middleware-Sent c p) [
  | inl served ↦ (p, rw (served, follow), served)
  | inr (inl (none_yet, sent)) ↦ one_hop c p "/login" sent refl (login_served c none_yet)
  | inr (inr (inl sent)) ↦ one_hop c p "/catalogue" sent refl (catalogue_served c)
  | inr (inr (inr (inl (session, sent)))) ↦
      one_hop c p "/account/security" sent refl (security_served c session)
  | inr (inr (inr (inr (session, sent)))) ↦ dashboard-Settles c p session sent
]
