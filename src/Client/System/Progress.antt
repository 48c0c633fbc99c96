-- ===== src/Client/System/Progress.antt =====
-- How the requests of provena-web/src/lib/api/client.ts come to their end.
use provena.Base.{String, Option, none, some, List, [], ◌∷◌, ◌≡◌, refl, ap, arith, sum_by, inl, inr}
use provena.Client.{Config, on_refresh_failed}
use provena.Client.System.{
  System, start, refresh_failed, succeeds, refresh_fails, Reach, here, next,
}
use provena.Client.System.Calm.{Calm, is_asking, Reach-Calm}
use provena.Client.System.Conservation.{one_of, Reach-issued}

-- Every request that was made has its answer.
pub record Finished (s : System) : Type 0 where
  pub none_in_flight : s.in_flight ≡ []
  pub nobody_asks : s.asking ≡ none
  pub nobody_waits : s.client.queue ≡ []
  pub all_settled : sum_by (λ _. 1) s.settled ≡ s.issued

Reach-trans : {s t u : System} → Reach s t → Reach t u → Reach s u
Reach-trans r here = r
Reach-trans r (next q st) = next (Reach-trans r q) st

-- The requests in flight are answered, one after the other.
answered : List Config → System → System
answered [] s = record s { in_flight = [] }
answered (r ∷ rs) s = answered rs (record s { settled = r ∷ s.settled })

Reach-answered :
    (rs : List Config) (s : System) → Reach (record s { in_flight = rs }) (answered rs s)
unfolding answered
Reach-answered [] s = here
Reach-answered (r ∷ rs) s =
    Reach-trans (next here (succeeds [] rs r refl))
      (Reach-answered rs (record s { settled = r ∷ s.settled }))

-- A state in which nobody asks and nobody waits.
abbrev Quiet : System → Type 0
Quiet s = (s.asking ≡ none) × (s.client.queue ≡ [])

answered-Quiet :
    (rs : List Config) (s : System)
    → Quiet s
    → Quiet (answered rs s) × ((answered rs s).in_flight ≡ [])
unfolding answered
answered-Quiet [] s q = (q, refl)
answered-Quiet (r ∷ rs) s q = answered-Quiet rs (record s { settled = r ∷ s.settled }) q

refresh_failed-Quiet : (r : Config) (s : System) → Quiet (refresh_failed r s)
unfolding refresh_failed on_refresh_failed
refresh_failed-Quiet r s = (refl, refl)

idle_free : (s : System) → Calm s → s.asking ≡ none → s.client.queue ≡ []
idle_free s v e = elim v.free [ inl busy ↦ cc (busy, v.one, ap is_asking e) | inr free ↦ free ]

-- If a refresh is asked for it ends, and nobody waits any more.
quieted : (s : System) → Calm s → (t : System) × Reach s t × Quiet t
quieted s v = by_asking s.asking refl
  where
    by_asking : (o : Option Config) → s.asking ≡ o → (t : System) × Reach s t × Quiet t
    by_asking none e = (s, here, (e, idle_free s v e))
    by_asking (some r) e =
        (refresh_failed r s, next here (refresh_fails r e), refresh_failed-Quiet r s)

-- From every state that is reached from the start some further steps lead to a state in which every
-- request that was made has its answer: nothing is in flight, nobody waits, and as many requests
-- are settled as were made.
pub Reach-Finished :
    {token : Option String} {s : System}
    → Reach (start token) s
    → (t : System) × Reach s t × Finished t
Reach-Finished {s} r =
    let (t, to_t, quiet) = quieted s (Reach-Calm r) in
    let u = answered t.in_flight t in
    let to_u = Reach-trans to_t (Reach-answered t.in_flight t) in
    let (q, flown) = answered-Quiet t.in_flight t quiet in
    (
      u,
      to_u,
      record {
        none_in_flight = flown;
        nobody_asks = q.0;
        nobody_waits = q.1;
        all_settled = omega (
          arith,
          Reach-issued (Reach-trans r to_u),
          ap (sum_by (λ (c : Config). 1)) flown,
          ap (sum_by (λ (c : Config). 1)) q.1,
          ap (one_of (λ (c : Config). 1)) q.0,
        );
      },
    )
