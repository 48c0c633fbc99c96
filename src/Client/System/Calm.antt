-- ===== src/Client/System/Calm.antt =====
-- What holds of the client of provena-web/src/lib/api/client.ts in every state that it can reach.
use provena.Base.{
  ℕ, String, Bool, true, false, Option, none, some, [], ◌∷◌, ◌++◌, ◌≡◌, refl, ◌⊎◌, inl, inr, arith,
  if_cases, not, ◌||◌,
}
use provena.Client.{
  Config, Client, Reaction, start_refresh, on_error, on_refreshed, on_refresh_failed,
  is_unauthorized, is_auth_endpoint, reject, wait,
}
use provena.Client.System.{
  System, start, send, follow_up, fail, refreshed, refresh_failed, Step, sends, succeeds, fails,
  refreshes_token, refresh_fails, store_changes, Reach, here, next,
}

abbrev pub is_asking {ℓ} : {A : Type ℓ} → Option A → Bool
is_asking none = false
is_asking (some a) = true

-- A refresh call is under way exactly while `_refreshing` is set, and nobody waits without one.
pub record Calm (s : System) : Type 0 where
  pub one : s.client.refreshing ≡ is_asking s.asking
  pub free : (s.client.refreshing ≡ true) ⊎ (s.client.queue ≡ [])

start-Calm : (token : Option String) → Calm (start token)
start-Calm token = record { one = refl; free = inr refl }

-- The three outcomes of an error, with what the client's test has found.
pub on_error_cases {ℓ} :
    (P : Client × Reaction → Type ℓ) (status : Option ℕ) (r : Config) (c : Client)
    → P (c, reject)
    → (c.refreshing ≡ true → P (record c { queue = c.queue ++ r ∷ [] }, wait))
    → (c.refreshing ≡ false → r.retry ≡ false → P (start_refresh r c))
    → P (on_error status r c)
unfolding on_error
on_error_cases P status r c rejects waits asks =
    if_cases P (not (is_unauthorized status) || r.retry || is_auth_endpoint r) (λ _. rejects)
      (λ renew. if_cases P c.refreshing waits (λ idle. asks idle (ground arith)))

fail-Calm : (status : Option ℕ) (r : Config) (s : System) → Calm s → Calm (fail status r s)
unfolding fail follow_up
fail-Calm status r s v =
    on_error_cases (λ a. Calm (follow_up r s a)) status r s.client
      (record { one = v.one; free = v.free }) (λ busy. record { one = v.one; free = inl busy })
      (λ idle _. record { one = refl; free = inl refl })

refreshed-Calm :
    (listening : Bool) (new_access : String) (r : Config) (s : System)
    → Calm (refreshed listening new_access r s)
unfolding refreshed on_refreshed
refreshed-Calm listening new_access r s = record { one = refl; free = inr refl }

refresh_failed-Calm : (r : Config) (s : System) → Calm (refresh_failed r s)
unfolding refresh_failed on_refresh_failed
refresh_failed-Calm r s = record { one = refl; free = inr refl }

Step-Calm : {s t : System} → Step s t → Calm s → Calm t
unfolding send
Step-Calm (sends url) v = record { one = v.one; free = v.free }
Step-Calm (succeeds before after r e) v = record { one = v.one; free = v.free }
Step-Calm (fails before after r status e) v =
    fail-Calm status r _ (record { one = v.one; free = v.free })
Step-Calm (refreshes_token original listening new_access e) v =
    refreshed-Calm listening new_access original _
Step-Calm (refresh_fails original e) v = refresh_failed-Calm original _
Step-Calm (store_changes token) v = record { one = v.one; free = v.free }

-- In every state that is reached from the start, a refresh call is under way exactly if
-- `_refreshing` is set, and `_queue` is empty if it is not: nobody waits for a refresh that never
-- comes.
pub Reach-Calm : {token : Option String} {s : System} → Reach (start token) s → Calm s
Reach-Calm here = start-Calm _
Reach-Calm (next r st) = Step-Calm st (Reach-Calm r)
