-- ===== src/Client.antt =====
-- provena-web/src/lib/api/client.ts: the interceptors of the API client, which attach the access
-- token, and on an expired one ask for a new token once while other requests wait.
pub mod Headers
pub mod System
use Prim.Native.String
use provena.Base.{
  ℕ, String, Bool, true, false, ◌||◌, not, Option, none, some, List, [], ◌∷◌, ◌++◌, map, ◌==◌,
  nat_eq, is_blank, starts_with, if◌then◌else◌,
}

-- The configuration of a request. `id` tells requests apart; `retry` is the flag `_retry`.
pub record Config : Type 0 where
  pub id : ℕ
  pub url : Option String
  pub retry : Bool
  pub authorization : Option String

-- The variables of the module: `_refreshing` and `_queue`. A waiting entry holds the two callbacks
-- of a promise whose continuation sends its request again: it is given here by that request.
pub record Client : Type 0 where
  pub refreshing : Bool
  pub queue : List Config

abbrev pub initial : Client
initial = record { refreshing = false; queue = [] }

abbrev pub bearer : String → String
bearer token = String.◌++◌ "Bearer " token

abbrev pub authorize : String → Config → Config
authorize token original = record original { authorization = some (bearer token) }

-- The request interceptor, over the token that `_getToken()` answers.
unfoldable pub on_request : Option String → Config → Config
on_request none config = config
on_request (some token) config = if is_blank token then config else authorize token config

abbrev pub url_starts_with : Option String → String → Bool
url_starts_with none prefix = false
url_starts_with (some url) prefix = starts_with url prefix

unfoldable pub is_auth_endpoint : Config → Bool
is_auth_endpoint original =
    url_starts_with original.url "/auth/login" || url_starts_with original.url "/auth/totp"

-- What the response interceptor does with an error, up to its first `await`: it rejects, it lets
-- the request wait, or it asks for a new token, with the request's flag set.
pub data Reaction : Type 0 where
  reject : Reaction
  wait : Reaction
  refresh : (original : Config) → Reaction

-- `error.response?.status !== 401`
abbrev pub is_unauthorized : Option ℕ → Bool
is_unauthorized none = false
is_unauthorized (some status) = status == 401

abbrev pub start_refresh : Config → Client → Client × Reaction
start_refresh original c =
    (record c { refreshing = true }, refresh (record original { retry = true }))

unfoldable pub on_error : Option ℕ → Config → Client → Client × Reaction
unfolding is_auth_endpoint
on_error status original c =
    if not (is_unauthorized status) || original.retry || is_auth_endpoint original
    then (c, reject)
    else if c.refreshing
    then (record c { queue = c.queue ++ original ∷ [] }, wait)
    else start_refresh original c

-- `drainQueue`: what becomes of the entries, in order, and the empty queue.
pub data Drained : Type 0 where
  resolved : (resent : List Config) → Drained
  rejected : (failed : List Config) → Drained

unfoldable pub drain_queue : Option String → Client → Client × Drained
drain_queue none c = (record c { queue = [] }, rejected c.queue)
drain_queue (some token) c = (record c { queue = [] }, resolved (map (authorize token) c.queue))

abbrev pub resent_of : Drained → List Config
resent_of (resolved resent) = resent
resent_of (rejected failed) = []

abbrev pub failed_of : Drained → List Config
failed_of (resolved resent) = []
failed_of (rejected failed) = failed

-- After the `await`, with the new token: the requests that are sent again, the one that asked
-- first; the `finally` block included.
unfoldable pub on_refreshed : String → Config → Client → Client × List Config
unfolding drain_queue
on_refreshed new_access original c =
    let (c', drained) = drain_queue (some new_access) c in
    (record c' { refreshing = false }, authorize new_access original ∷ resent_of drained)

-- After the `await`, where it throws: the requests that fail, the one that asked last. The caller
-- logs out (`_onLogout`).
unfoldable pub on_refresh_failed : Config → Client → Client × List Config
unfolding drain_queue
on_refresh_failed original c =
    let (c', drained) = drain_queue none c in
    (record c' { refreshing = false }, failed_of drained ++ original ∷ [])
