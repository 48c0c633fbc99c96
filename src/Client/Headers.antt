-- ===== src/Client/Headers.antt =====
-- Which token a request carries that is sent again by provena-web/src/lib/api/client.ts.
use provena.Base.{
  String, Option, none, some, List, [], ◌∷◌, ◌++◌, ℕ, ap, map, ◌≡◌, refl, arith, is_blank, All,
  if◌then◌else◌,
}
use provena.Client.{
  Config, Client, initial, bearer, authorize, on_request, on_refreshed, on_refresh_failed,
}

-- The token that the request interceptor leaves on a request that was given a new one: the store's
-- has precedence, if it is there and not empty.
abbrev pub winner : Option String → String → String
winner none new_access = new_access
winner (some token) new_access = if is_blank token then new_access else token

on_request-authorize :
    (store : Option String) (new_access : String) (r : Config)
    → (on_request store (authorize new_access r)).authorization
      ≡ some (bearer (winner store new_access))
unfolding on_request
on_request-authorize none new_access r = refl
on_request-authorize (some token) new_access r = ground arith

abbrev pub Carries : Option String → String → Config → Type 0
Carries store new_access r =
    (on_request store r).authorization ≡ some (bearer (winner store new_access))

authorize-Carries :
    (store : Option String) (new_access : String) (rs : List Config)
    → All (Carries store new_access) (map (authorize new_access) rs)
authorize-Carries store new_access [] = tt
authorize-Carries store new_access (r ∷ rs) =
    (on_request-authorize store new_access r, authorize-Carries store new_access rs)

-- Every request that is sent again after a refresh leaves the request interceptor with the store's
-- token, and with the new one only if the store holds none (or the empty text). So they all carry
-- the new token exactly if the store has taken it over by then.
pub on_refreshed-Carries :
    (store : Option String) (new_access : String) (original : Config) (c : Client)
    → All (Carries store new_access) (on_refreshed new_access original c).1
unfolding on_refreshed
on_refreshed-Carries store new_access original c =
    (on_request-authorize store new_access original, authorize-Carries store new_access c.queue)

abbrev pub ids : List Config → List ℕ
ids rs = map (λ r. r.id) rs

ids-authorize : (token : String) (rs : List Config) → ids (map (authorize token) rs) ≡ ids rs
ids-authorize token [] = refl
ids-authorize token (r ∷ rs) = ap (◌∷◌ r.id) (ids-authorize token rs)

-- When the refresh call ends, in either way, the request that asked and all that waited are dealt
-- with, each once and in the order in which they came to wait: sent again if there is a new token,
-- failed if there is none. Nobody waits any more, and the next expired token starts a new refresh.
pub refresh_ends :
    (new_access : String) (original : Config) (c : Client)
    → (ids (on_refreshed new_access original c).1 ≡ original.id ∷ ids c.queue)
      × ((on_refresh_failed original c).1 ≡ c.queue ++ original ∷ [])
      × ((on_refreshed new_access original c).0 ≡ initial)
      × ((on_refresh_failed original c).0 ≡ initial)
unfolding on_refreshed on_refresh_failed
refresh_ends new_access original c =
    (ap (◌∷◌ original.id) (ids-authorize new_access c.queue), refl, refl, refl)
