-- ===== src/Fulfil/Tracking.antt =====
-- The tracking numbers of provena-web/src/app/supplier/orders/page.tsx, over histories of events.
use provena.Base.{
  String, false, Option, none, some, List, [], ◌∷◌, ◌≡◌, ◌≢◌, refl, ap, ◌∙◌, arith, string_eq,
  eq_refl, if◌then◌else◌,
}
use provena.Types.Order.{SubOrderListItem}
use provena.Requests.Ordering.{dispatch_sub_order}
use provena.Fulfil.{
  OrdersPage, initial, Event, choose_tab, change_page, press_dispatch, type_tracking, press_cancel,
  dispatch_succeeded, on_event, dispatch_call, is_dispatching,
}

unfoldable pub run : List Event → OrdersPage → OrdersPage
run [] p = p
run (ev ∷ evs) p = run evs (on_event ev p)

-- A form for another order is opened, and the page changed, only while no form is open.
abbrev pub Shut : Event → Option String → Type 0
Shut (press_dispatch id) dispatching = dispatching ≡ none
Shut (change_page n) dispatching = dispatching ≡ none
Shut (type_tracking value) dispatching = dispatching ≢ none
Shut (choose_tab key) dispatching = Unit
Shut press_cancel dispatching = Unit
Shut dispatch_succeeded dispatching = Unit

abbrev pub Course : List Event → OrdersPage → Type 0
Course [] p = Unit
Course (ev ∷ evs) p = Shut ev p.dispatching × Course evs (on_event ev p)

-- What was typed since the form of the order was opened.
pub typed : List Event → String → String
typed [] s = s
typed (press_dispatch id ∷ evs) s = typed evs ""
typed (type_tracking value ∷ evs) s = typed evs value
typed (press_cancel ∷ evs) s = typed evs ""
typed (dispatch_succeeded ∷ evs) s = typed evs ""
typed (choose_tab key ∷ evs) s = typed evs s
typed (change_page n ∷ evs) s = typed evs ""

-- Where no form is open nothing stands in the field.
abbrev Clear : Option String → String → Type 0
Clear none s = s ≡ ""
Clear (some id) s = Unit

cleared : (d : Option String) (s : String) → d ≡ none → Clear d s → s ≡ ""
cleared none s e h = h
cleared (some id) s e h = cc

open-Clear : (d : Option String) (s : String) → d ≢ none → Clear d s
open-Clear none s ne = absurd (ne refl)
open-Clear (some id) s ne = tt

run-tracking_input :
    (evs : List Event) (p : OrdersPage)
    → Course evs p
    → Clear p.dispatching p.tracking_input
    → (run evs p).tracking_input ≡ typed evs p.tracking_input
unfolding run on_event typed
run-tracking_input [] p c h = refl
run-tracking_input (choose_tab key ∷ evs) p (s, c) h =
    run-tracking_input evs (on_event (choose_tab key) p) c h
run-tracking_input (change_page n ∷ evs) p (s, c) h =
    let nothing = cleared p.dispatching p.tracking_input s h in
    run-tracking_input evs (on_event (change_page n) p) c nothing ∙ ap (typed evs) nothing
run-tracking_input (press_dispatch id ∷ evs) p (s, c) h =
    run-tracking_input evs (on_event (press_dispatch id) p) c tt
    ∙ ap (typed evs) (cleared p.dispatching p.tracking_input s h)
run-tracking_input (type_tracking value ∷ evs) p (s, c) h =
    run-tracking_input evs (on_event (type_tracking value) p) c (open-Clear p.dispatching value s)
run-tracking_input (press_cancel ∷ evs) p (s, c) h =
    run-tracking_input evs (on_event press_cancel p) c refl
run-tracking_input (dispatch_succeeded ∷ evs) p (s, c) h =
    run-tracking_input evs (on_event dispatch_succeeded p) c refl

-- Where a form is opened, and the page changed, only while no form is open, an order is marked as
-- dispatched with the tracking number that was typed for it, and only while its form is open.
pub run-dispatch_call :
    (evs : List Event) (o : SubOrderListItem)
    → Course evs initial
    → dispatch_call false (run evs initial) o ≡ (
        if is_dispatching (run evs initial).dispatching o.id
        then some (dispatch_sub_order o.id (some (typed evs "")))
        else none)
unfolding dispatch_call
run-dispatch_call evs o c =
    ap
      (λ s.
        if is_dispatching (run evs initial).dispatching o.id
        then some (dispatch_sub_order o.id (some s))
        else none)
      (run-tracking_input evs initial c refl)

-- Whoever types a tracking number for an order and then opens the form of another, without cancelling,
-- sends that number for the other one.
pub tracking_carried :
    (a b : SubOrderListItem) (number : String)
    → dispatch_call false
        (run (press_dispatch a.id ∷ type_tracking number ∷ press_dispatch b.id ∷ []) initial)
        b
      ≡ some (dispatch_sub_order b.id (some number))
unfolding dispatch_call run on_event
tracking_carried a b number = ground (arith, eq_refl b.id)
