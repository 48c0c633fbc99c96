-- ===== src/Socket/Cleanup.antt =====
-- No connection outlives the effect of provena-web/src/lib/hooks/useOrderSocket.ts.
use provena.Base.{
  String, true, false, Option, some, List, [], ◌∷◌, ◌++◌, ◌≡◌, refl, ◌⊎◌, inl, inr, arith, All,
  if_cases,
}
use provena.Socket.{Run, Event, ticket, ticket_failed, message, cleanup, start, on_event}

pub run : String → List Event → Run → Run
run reference [] r = r
run reference (ev ∷ evs) r = run reference evs (on_event reference ev r)

-- A cancelled run has no connection; and only keys of its order were invalidated.
pub record Inv (reference : String) (r : Run) : Type 0 where
  pub silent : (r.cancelled ≡ false) ⊎ (r.connected ≡ false)
  pub own : All (λ key. key ≡ "order" ∷ reference ∷ []) r.invalidated

on_event-Inv :
    (reference : String) (ev : Event) (r : Run)
    → Inv reference r
    → Inv reference (on_event reference ev r)
unfolding on_event
on_event-Inv reference (ticket value) r v = ground arith
on_event-Inv reference ticket_failed r v = v
on_event-Inv reference (message type) r v =
    if_cases (Inv reference) _ (λ _. record { silent = v.silent; own = (refl, v.own) }) (λ _. v)
on_event-Inv reference cleanup r v = record { silent = inr refl; own = v.own }

run-Inv :
    (reference : String) (evs : List Event) (r : Run)
    → Inv reference r
    → Inv reference (run reference evs r)
unfolding run
run-Inv reference [] r v = v
run-Inv reference (ev ∷ evs) r v =
    run-Inv reference evs (on_event reference ev r) (on_event-Inv reference ev r v)

start-Inv :
    (reference : String) (access_token : Option String) {r : Run}
    → start reference access_token ≡ some r
    → Inv reference r × (r.cancelled ≡ false)
unfolding start
start-Inv reference access_token e = ground arith

stays_cancelled :
    (reference : String) (evs : List Event) (r : Run)
    → r.cancelled ≡ true
    → (run reference evs r).cancelled ≡ true
unfolding run on_event
stays_cancelled reference [] r e = e
stays_cancelled reference (ticket value ∷ evs) r e = stays_cancelled reference evs _ (ground arith)
stays_cancelled reference (ticket_failed ∷ evs) r e = stays_cancelled reference evs _ e
stays_cancelled reference (message type ∷ evs) r e = stays_cancelled reference evs _ (ground arith)
stays_cancelled reference (cleanup ∷ evs) r e = stays_cancelled reference evs _ refl

cancels : (reference : String) (r : Run) → (on_event reference cleanup r).cancelled ≡ true
unfolding on_event
cancels reference r = refl

run_cleanup :
    (reference : String) (after : List Event) (r : Run)
    → run reference (cleanup ∷ after) r ≡ run reference after (on_event reference cleanup r)
unfolding run
run_cleanup reference after r = refl

run-append :
    (reference : String) (before after : List Event) (r : Run)
    → run reference (before ++ after) r ≡ run reference after (run reference before r)
unfolding run
run-append reference [] after r = refl
run-append reference (ev ∷ before) after r =
    run-append reference before after (on_event reference ev r)

-- Once the effect is cleaned up it has no connection and gets none, whatever happened before and
-- whatever comes after, a late ticket included; and in all its time it invalidates nothing but the
-- query of its own order.
pub no_connection_after_cleanup :
    (reference : String) (access_token : Option String) {r : Run} (before after : List Event)
    → start reference access_token ≡ some r
    → ((run reference (before ++ cleanup ∷ after) r).connected ≡ false)
      × All
          (λ key. key ≡ "order" ∷ reference ∷ [])
          (run reference (before ++ cleanup ∷ after) r).invalidated
no_connection_after_cleanup reference access_token {r} before after e =
    let r1 = run reference before r in
    let v =
      run-Inv reference (cleanup ∷ after) r1
        (run-Inv reference before r (start-Inv reference access_token e).0) in
    let over =
      stays_cancelled reference after (on_event reference cleanup r1) (cancels reference r1) in
    rw (run-append reference before (cleanup ∷ after) r) (
      off (run reference (cleanup ∷ after) r1) v.silent (rw (run_cleanup reference after r1) over),
      v.own,
    )
  where
    off :
        (s : Run)
        → (s.cancelled ≡ false) ⊎ (s.connected ≡ false)
        → s.cancelled ≡ true
        → s.connected ≡ false
    off s (inl live) over = cc
    off s (inr quiet) over = quiet
