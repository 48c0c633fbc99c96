-- ===== src/Session/Navigation/SafeNext.antt =====
-- What provena-web/src/lib/navigation.ts lets through, and how it meets the `next` parameter that
-- the gate of provena-web/src/middleware.ts writes.
use Prim.Native.Char.{Char, code}
use Prim.Native.String.{[], ◌∷◌}
use Prim.Native.String
use text.Mathlib.TextLemmas.{nil-append, cons-append}
use provena.Base.{
  ℕ, String, ◌⊎◌, ◌==◌, subst, Bool, true, false, Option, none, some, ◌≡◌, ◌≢◌, refl, ap, sym, ◌∙◌,
  arith, starts_with, includes_char, is_blank, nat_eq, ◌||◌, not, Bool-cases, inl, inr,
}
use provena.Session.Gate.{
  Cookies, redirect_login, middleware, role_area, session_area, under, protected_prefixes,
  supplier_prefixes, admin_prefixes,
}
use provena.Session.Navigation.{safe_next}

abbrev pub NoBackslash : String → Type 0
NoBackslash [] = Unit
NoBackslash (c ∷ s) = (code c ≢ 92) × NoBackslash s

-- What the check lets through: a slash, then no second one, and no backslash anywhere. A parser may
-- still take such a text off the site.
abbrev pub IsLocal : String → Type 0
IsLocal [] = ⊥
IsLocal (a ∷ []) = code a ≡ 47
IsLocal (a ∷ b ∷ s) = (code a ≡ 47) × (code b ≢ 47) × (code b ≢ 92) × NoBackslash s

pub NoBackslash-sound : (s : String) → includes_char s 92 ≡ false → NoBackslash s
NoBackslash-sound [] h = tt
NoBackslash-sound (c ∷ s) h = ground (arith, NoBackslash-sound s)

NoBackslash-complete : (s : String) → NoBackslash s → includes_char s 92 ≡ false
NoBackslash-complete [] h = refl
NoBackslash-complete (c ∷ s) h = ground (arith, NoBackslash-complete s h.1)

abbrev pub refused : String → Bool
refused next =
    is_blank next || not (starts_with next "/") || starts_with next "//" || includes_char next 92

pub refused_sound : (s : String) → refused s ≡ false → IsLocal s
refused_sound [] h = cc
refused_sound (a ∷ []) h = ground arith
refused_sound (a ∷ b ∷ s) h = ground (arith, NoBackslash-sound s)

refused_complete : (s : String) → IsLocal s → refused s ≡ false
refused_complete [] h = absurd h
refused_complete (a ∷ []) h = ground arith
refused_complete (a ∷ b ∷ s) h = ground (arith, NoBackslash-complete s h.3)

safe_next-IsLocal :
    (param : Option String) (fallback : String)
    → (safe_next param fallback ≡ fallback)
      ⊎ ((next : String) × (param ≡ some next) × (safe_next param fallback ≡ next) × IsLocal next)
unfolding safe_next
safe_next-IsLocal none fallback = inl refl
safe_next-IsLocal (some next) fallback = elim (Bool-cases (refused next)) [
  | inl bad ↦ rw bad (inl refl)
  | inr good ↦ rw good (inr (next, refl, refl, refused_sound next good))
]

-- No tab and no line break, which the URL standard has removed from a location before it is read.
abbrev pub is_break : ℕ → Bool
is_break c = c == 9 || c == 10 || c == 13

abbrev pub NoBreaks : String → Type 0
NoBreaks [] = Unit
NoBreaks (c ∷ s) = (is_break (code c) ≡ false) × NoBreaks s

abbrev pub any_break : String → Bool
any_break [] = false
any_break (c ∷ s) = is_break (code c) || any_break s

pub NoBreaks-sound : (s : String) → any_break s ≡ false → NoBreaks s
NoBreaks-sound [] h = tt
NoBreaks-sound (c ∷ s) h = (ground (arith, h), NoBreaks-sound s (ground (arith, h)))

abbrev pub Unbroken : Option String → Type 0
Unbroken none = Unit
Unbroken (some s) = NoBreaks s

-- What the URL standard says of a location relative to the page: a slash, and a slash that is followed
-- by neither kind of slash, begin a path on the page's own origin.
pub record SitePaths : Type 1 where
  pub Origin : Type 0
  pub origin : String → Origin
  pub page : Origin
  pub root : (a : Char) → code a ≡ 47 → origin (a ∷ []) ≡ page
  pub path :
      (a c : Char) (s : String)
      → code a ≡ 47
      → code c ≢ 47
      → code c ≢ 92
      → NoBreaks (a ∷ c ∷ s)
      → origin (a ∷ c ∷ s) ≡ page

-- Without breaks it stays on the origin.
local_stays : (u : SitePaths) (s : String) → IsLocal s → NoBreaks s → u.origin s ≡ u.page
local_stays u [] h k = absurd h
local_stays u (a ∷ []) h k = u.root a h
local_stays u (a ∷ c ∷ s) (slash, other, straight, rest) k = u.path a c s slash other straight k

-- A parameter without tabs and line breaks never leads off the site: whatever it is, the browser stays
-- on the page's origin, if the fallback is on it.
pub safe_next_stays :
    (u : SitePaths) (param : Option String) (fallback : String)
    → Unbroken param
    → u.origin fallback ≡ u.page
    → u.origin (safe_next param fallback) ≡ u.page
safe_next_stays u param fallback k h = elim (safe_next-IsLocal param fallback) [
  | inl same ↦ ap u.origin same ∙ h
  | inr (next, given, same, is_local) ↦
      ap u.origin same ∙ local_stays u next is_local (subst Unbroken given k)
]

-- A parameter that the check lets through is used unchanged.
pub safe_next_of_IsLocal :
    (next fallback : String) → IsLocal next → safe_next (some next) fallback ≡ next
unfolding safe_next
safe_next_of_IsLocal next fallback h = rw (refused_complete next h)

gated-IsLocal :
    (p : String)
    → (under protected_prefixes p || (under supplier_prefixes p || under admin_prefixes p)) ≡ true
    → NoBackslash p
    → IsLocal p
gated-IsLocal [] h k = ground arith
gated-IsLocal (a ∷ []) h k = ground arith
gated-IsLocal (a ∷ b ∷ s) h k = (ground arith, ground arith, k.1.0, k.1.1)

-- If the gate sends the browser from the path `p` to the login page, then after signing in
-- `safe_next` sends it back to `p`, whatever the fallback, provided that `p` holds no backslash.
pub safe_next-middleware :
    (c : Cookies) (p param fallback : String)
    → middleware c p ≡ redirect_login param
    → NoBackslash p
    → safe_next (some param) fallback ≡ p
unfolding middleware role_area session_area
safe_next-middleware c p param fallback h k =
    ground (arith, safe_next_of_IsLocal p fallback, gated-IsLocal p)

-- What a browser's URL parser promises of a location relative to the page: tabs in it are skipped,
-- and `//host` names another host.
pub record UrlParser : Type 1 where
  pub Origin : Type 0
  pub origin : String → Origin
  pub foreign : String → Origin
  pub skips_tabs : (a b : String) → origin (String.◌++◌ a ("\t" ∷ b)) ≡ origin (String.◌++◌ a b)
  pub scheme_relative : (host : String) → origin ("/" ∷ "/" ∷ host) ≡ foreign host

-- A parameter that starts with a slash, a tab and a slash is let through, and every such parser
-- takes it to another host: the check does not keep the browser on the site.
pub safe_next-foreign :
    (u : UrlParser) (host fallback : String)
    → NoBackslash host
    → u.origin (safe_next (some ("/" ∷ "\t" ∷ "/" ∷ host)) fallback) ≡ u.foreign host
safe_next-foreign u host fallback k =
    ap u.origin (safe_next_of_IsLocal _ fallback (refl, omega arith, omega arith, (omega arith, k)))
    ∙ sym (ap u.origin (cons-append _ _ _ ∙ ap (◌∷◌ "/") (nil-append _)))
    ∙ u.skips_tabs "/" ("/" ∷ host)
    ∙ ap u.origin (cons-append _ _ _ ∙ ap (◌∷◌ "/") (nil-append _))
    ∙ u.scheme_relative host
