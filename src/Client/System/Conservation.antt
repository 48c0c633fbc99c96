-- ===== src/Client/System/Conservation.antt =====
-- No request is lost by the client of provena-web/src/lib/api/client.ts, and it asks for a new token
-- at most once on behalf of each request.
use provena.Base.{
  ℕ, ◌+◌, ◌*◌, ◌≤◌, String, Bool, true, false, Option, none, some, List, [], ◌∷◌, ◌++◌, map, ◌≡◌,
  refl, arith, sum_by, sum_by-append, if◌then◌else◌, if_cases, ap, sym, ◌∙◌, is_blank, ltb, ◌==◌,
  nat_eq,
}
use provena.Client.{Config, bearer, authorize, on_request, on_refreshed, on_refresh_failed}
use provena.Client.System.{
  System, start, fresh, send, follow_up, fail, refreshed, refresh_failed, Step, sends, succeeds,
  fails, refreshes_token, refresh_fails, store_changes, Reach, here, next,
}
use provena.Client.System.Calm.{Calm, is_asking, on_error_cases, Reach-Calm}

abbrev pub one_of {ℓ} : {A : Type ℓ} → (A → ℕ) → Option A → ℕ
one_of f none = 0
one_of f (some a) = f a

-- A number for each request that the state knows, added up.
abbrev pub weight : (Config → ℕ) → System → ℕ
weight f s = sum_by f s.in_flight + sum_by f s.client.queue + one_of f s.asking + sum_by f s.settled

-- `f` does not look at the header, gains `d` when the flag `_retry` is set, and of a fresh request
-- is what `b` grows by.
module _ (f : Config → ℕ) (b : ℕ → ℕ) (d : ℕ)
    (header : (r : Config) (a : Option String) → f (record r { authorization = a }) ≡ f r)
    (flag : (r : Config) → r.retry ≡ false → f (record r { retry = true }) ≡ f r + d)
    (grows : (n : ℕ) (url : Option String) → b (n + 1) ≡ b n + f (fresh n url)) where
  on_request-weight : (token : Option String) (r : Config) → f (on_request token r) ≡ f r
  unfolding on_request
  on_request-weight none r = refl
  on_request-weight (some token) r =
      if_cases (λ k. f k ≡ f r) (is_blank token) (λ _. refl) (λ _. header r (some (bearer token)))

  resend-weight :
      (token : Option String) (rs : List Config)
      → sum_by f (map (on_request token) rs) ≡ sum_by f rs
  resend-weight token [] = refl
  resend-weight token (r ∷ rs) = omega (arith, on_request-weight token r, resend-weight token rs)

  authorize-weight :
      (token : String) (rs : List Config) → sum_by f (map (authorize token) rs) ≡ sum_by f rs
  authorize-weight token [] = refl
  authorize-weight token (r ∷ rs) =
      omega (arith, header r (some (bearer token)), authorize-weight token rs)

  abbrev Balanced : System → Type 0
  Balanced s = weight f s ≡ b s.issued + d * s.refreshes

  fail-weight :
      (status : Option ℕ) (r : Config) (s : System)
      → Calm s
      → weight f s + f r ≡ b s.issued + d * s.refreshes
      → Balanced (fail status r s)
  unfolding fail follow_up
  fail-weight status r s v e =
      on_error_cases (λ a. Balanced (follow_up r s a)) status r s.client (omega arith)
        (λ busy. omega (arith, sum_by-append f s.client.queue (r ∷ [])))
        (λ idle unset. grind (arith, flag r unset, quiet s.asking (sym v.one ∙ idle)))
    where
      quiet : (o : Option Config) → is_asking o ≡ false → one_of f o ≡ 0
      quiet none h = refl
      quiet (some a) h = cc

  refreshed-weight :
      (listening : Bool) (new_access : String) (r : Config) (s : System)
      → s.asking ≡ some r
      → Balanced s
      → Balanced (refreshed listening new_access r s)
  unfolding refreshed on_refreshed
  refreshed-weight listening new_access r s e h =
      let token = if listening then some new_access else s.token in
      let resent = authorize new_access r ∷ map (authorize new_access) s.client.queue in
      omega (
        arith,
        sum_by-append f (map (on_request token) resent) s.in_flight,
        resend-weight token resent,
        authorize-weight new_access s.client.queue,
        header r (some (bearer new_access)),
        ap (one_of f) e,
      )

  refresh_failed-weight :
      (r : Config) (s : System) → s.asking ≡ some r → Balanced s → Balanced (refresh_failed r s)
  unfolding refresh_failed on_refresh_failed
  refresh_failed-weight r s e h = omega (
    arith,
    sum_by-append f (s.client.queue ++ r ∷ []) s.settled,
    sum_by-append f s.client.queue (r ∷ []),
    ap (one_of f) e,
  )

  taken-weight :
      (before after : List Config) (r : Config) (s : System)
      → s.in_flight ≡ before ++ r ∷ after
      → sum_by f s.in_flight ≡ sum_by f (before ++ after) + f r
  taken-weight before after r s e =
      omega
        (arith, ap (sum_by f) e, sum_by-append f before (r ∷ after), sum_by-append f before after)

  Step-Balanced : {s t : System} → Step s t → Calm s → Balanced s → Balanced t
  unfolding send
  Step-Balanced {s} (sends url) v h =
      omega (arith, grows s.issued url, on_request-weight s.token (fresh s.issued url))
  Step-Balanced {s} (succeeds before after r e) v h = omega (arith, taken-weight before after r s e)
  Step-Balanced {s} (fails before after r status e) v h =
      fail-weight status r (record s { in_flight = before ++ after })
        (record { one = v.one; free = v.free }) (omega (arith, taken-weight before after r s e))
  Step-Balanced (refreshes_token original listening new_access e) v h =
      refreshed-weight listening new_access original _ e h
  Step-Balanced (refresh_fails original e) v h = refresh_failed-weight original _ e h
  Step-Balanced (store_changes token) v h = h

  Reach-Balanced :
      {token : Option String} {s : System} → b 0 ≡ 0 → Reach (start token) s → Balanced s
  Reach-Balanced zero_at here = omega (arith, zero_at)
  Reach-Balanced zero_at (next r st) = Step-Balanced st (Reach-Calm r) (Reach-Balanced zero_at r)

abbrev pub is_id : ℕ → Config → ℕ
is_id i r = if r.id == i then 1 else 0

abbrev is_marked : Config → ℕ
is_marked r = if r.retry then 1 else 0

-- How often the request `i` stands in a state: in flight, waiting for a new token, asking for one,
-- or settled.
abbrev pub places : ℕ → System → ℕ
places i s = weight (is_id i) s

-- In every state that is reached from the start, whatever the order of the answers, each request
-- that was made stands in exactly one place, and no other request in any: none is lost, answered
-- twice or sent twice at a time.
pub Reach-places :
    {token : Option String} {s : System} (i : ℕ)
    → Reach (start token) s
    → places i s ≡ (if ltb i s.issued then 1 else 0)
Reach-places {s} i r = omega (
  arith,
  Reach-Balanced (is_id i) (λ n. if ltb i n then 1 else 0) 0 (λ r a. refl) (λ r h. omega arith)
      (λ n url. ground arith) (ground arith) r,
)

-- As many requests are known as were made.
pub Reach-issued :
    {token : Option String} {s : System} → Reach (start token) s → weight (λ _. 1) s ≡ s.issued
Reach-issued {s} r = omega (
  arith,
  Reach-Balanced (λ _. 1) (λ n. n) 0 (λ r a. refl) (λ r h. omega arith) (λ n url. omega arith) refl
      r,
)

le_all : (rs : List Config) → sum_by is_marked rs ≤ sum_by (λ _. 1) rs
le_all [] = omega arith
le_all (r ∷ rs) = ground (arith, le_all rs)

one_le : (o : Option Config) → one_of is_marked o ≤ one_of (λ _. 1) o
one_le none = omega arith
one_le (some r) = ground arith

marked-le : (s : System) → weight is_marked s ≤ weight (λ _. 1) s
marked-le s =
    omega (arith, le_all s.in_flight, le_all s.client.queue, one_le s.asking, le_all s.settled)

-- In every state that is reached from the start, whatever the order of the answers, the client has
-- asked for a new token at most as often as requests were made.
pub Reach-refreshes :
    {token : Option String} {s : System} → Reach (start token) s → s.refreshes ≤ s.issued
Reach-refreshes {s} r = omega (
  arith,
  Reach-Balanced is_marked (λ n. 0) 1 (λ r a. refl) (λ r h. ground arith) (λ n url. refl) refl r,
  Reach-issued r,
  marked-le s,
)
