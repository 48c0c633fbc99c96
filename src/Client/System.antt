-- ===== src/Client/System.antt =====
-- The client of provena-web/src/lib/api/client.ts among the requests that are under way: a step
-- relation for a network that answers in any order, while the user signs in and out.
pub mod Calm
pub mod Conservation
pub mod Progress
use provena.Base.{
  ℕ, suc, ◌+◌, String, Bool, true, false, Option, none, some, List, [], ◌∷◌, ◌++◌, map, ◌≡◌,
  if◌then◌else◌,
}
use provena.Client.{
  Config, Client, initial, on_request, Reaction, reject, wait, refresh, on_error, on_refreshed,
  on_refresh_failed,
}

-- `in_flight` are the requests that wait for the API, `asking` is the request that waits for the
-- answer to the refresh call, `settled` are those whose caller has its answer. `token` is the
-- store's; `issued` and `refreshes` count the callers' requests and the refresh calls.
pub record System : Type 0 where
  pub client : Client
  pub token : Option String
  pub in_flight : List Config
  pub asking : Option Config
  pub settled : List Config
  pub issued : ℕ
  pub refreshes : ℕ

abbrev pub start : Option String → System
start token = record {
  client = initial;
  token = token;
  in_flight = [];
  asking = none;
  settled = [];
  issued = 0;
  refreshes = 0;
}

-- A request as a caller makes it.
abbrev pub fresh : ℕ → Option String → Config
fresh id url = record { id = id; url = url; retry = false; authorization = none }

unfoldable pub send : Option String → System → System
send url s = record s {
  in_flight = on_request s.token (fresh s.issued url) ∷ s.in_flight;
  issued = s.issued + 1;
}

-- What follows from the reaction to an error of the request `r`, which is no longer in flight.
follow_up : Config → System → Client × Reaction → System
follow_up r s (c, reject) = record s { client = c; settled = r ∷ s.settled }
follow_up r s (c, wait) = record s { client = c }
follow_up r s (c, refresh original) = record s {
  client = c;
  asking = some original;
  refreshes = s.refreshes + 1;
}

pub fail : Option ℕ → Config → System → System
unfolding follow_up
fail status r s = follow_up r s (on_error status r s.client)

-- `listening`: the store takes the new token over, as `AuthProvider` makes it.
pub refreshed : Bool → String → Config → System → System
refreshed listening new_access original s =
    let (c, resent) = on_refreshed new_access original s.client in
    let token = if listening then some new_access else s.token in
    record s {
      client = c;
      token = token;
      asking = none;
      in_flight = map (on_request token) resent ++ s.in_flight;
    }

-- The store is logged out.
pub refresh_failed : Config → System → System
refresh_failed original s =
    let (c, failed) = on_refresh_failed original s.client in
    record s { client = c; token = none; asking = none; settled = failed ++ s.settled }

pub data Step (s : System) : System → Type 0 where
  sends : (url : Option String) → Step s (send url s)
  succeeds :
      (before after : List Config) (r : Config)
      → s.in_flight ≡ before ++ r ∷ after
      → Step s (record s { in_flight = before ++ after; settled = r ∷ s.settled })
  fails :
      (before after : List Config) (r : Config) (status : Option ℕ)
      → s.in_flight ≡ before ++ r ∷ after
      → Step s (fail status r (record s { in_flight = before ++ after }))
  refreshes_token :
      (original : Config) (listening : Bool) (new_access : String)
      → s.asking ≡ some original
      → Step s (refreshed listening new_access original s)
  refresh_fails :
      (original : Config) → s.asking ≡ some original → Step s (refresh_failed original s)
  store_changes : (token : Option String) → Step s (record s { token = token })

pub data Reach (s : System) : System → Type 0 where
  here : Reach s s
  next : {t u : System} → Reach s t → Step t u → Reach s u
