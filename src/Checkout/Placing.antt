-- ===== src/Checkout/Placing.antt =====
-- How many orders provena-web/src/app/checkout/page.tsx places, and what it shows then.
use provena.Base.{
  ℕ, ◌+◌, String, true, false, Option, none, some, ◌≡◌, refl, ap, ◌∙◌, ◌⊎◌, inl, inr, arith,
  if_cases,
}
use provena.Types.Order.{Cart, Order}
use provena.Orders.Card.{is_some}
use provena.Checkout.{
  Page, Answer, ok, err, Api, OrderRequest, order_request, place, intend, pay_for, on_settled,
  submit,
}

-- What the page relies on: the API keeps one order for each request that it accepts, and a payment
-- intent adds none. Where the answer is an error, which the page takes a lost answer for too, the API
-- has kept no order for the request, or one.
pub record Ledger {ℓ} {Server : Type ℓ} (api : Api Server) : Type ℓ where
  pub orders : Server → ℕ
  pub accepted :
      (r : OrderRequest) (s s' : Server) (placed : Order)
      → api.place_order r s ≡ (ok placed, s')
      → orders s' ≡ orders s + 1
  pub failed :
      (r : OrderRequest) (s s' : Server) (detail : Option String)
      → api.place_order r s ≡ (err detail, s')
      → (orders s' ≡ orders s) ⊎ (orders s' ≡ orders s + 1)
  pub intent_keeps :
      (reference : String) (s : Server)
      → orders (api.create_payment_intent reference s).1 ≡ orders s

module _ {ℓ} {Server : Type ℓ} (api : Api Server) (ledger : Ledger api)
    (trim : String → String) where
  open api use {place_order, create_payment_intent}
  open ledger use {orders, accepted, failed, intent_keeps}

  -- The ways in which a submission can end: refused; paid for; or placed, where the page does not know.
  abbrev pub Outcome : Page → Server → Page × Server → Type 0
  Outcome p s w =
      ((orders w.1 ≡ orders s) × (w.0.order ≡ p.order) × (is_some w.0.error ≡ true))
      ⊎ ((orders w.1 ≡ orders s + 1)
          × ((placed : Order) × (secret : String) × (w.0.order ≡ some placed)
              × (w.0.client_secret ≡ some secret)
              × (w.0.error ≡ none)))
      ⊎ ((orders w.1 ≡ orders s + 1) × (w.0.order ≡ p.order) × (is_some w.0.error ≡ true))

  paid_Outcome :
      (p : Page) (s s1 s2 : Server) (placed : Order) (intent : Answer String)
      → orders s1 ≡ orders s + 1
      → orders s2 ≡ orders s1
      → let (answer, s') = pay_for api trim placed (intent, s2) in
        Outcome p s (on_settled api trim answer (record p { error = none; is_pending = true }), s')
  unfolding pay_for on_settled
  paid_Outcome p s s1 s2 placed (ok secret) e e' =
      inr (inl (e' ∙ e, (placed, secret, refl, refl, refl)))
  paid_Outcome p s s1 s2 placed (err detail) e e' = inr (inr (e' ∙ e, refl, refl))

  intend_Outcome :
      (p : Page) (r : OrderRequest) (s : Server) (answer : Answer Order × Server)
      → place_order r s ≡ answer
      → let (result, s') = intend api trim answer in
        Outcome p s (on_settled api trim result (record p { error = none; is_pending = true }), s')
  unfolding intend on_settled
  intend_Outcome p r s (ok placed, s1) e =
      paid_Outcome p s s1 (create_payment_intent placed.reference s1).1 placed
        (create_payment_intent placed.reference s1).0 (accepted r s s1 placed e)
        (intent_keeps placed.reference s1)
  intend_Outcome p r s (err detail, s1) e = elim (failed r s s1 detail e) [
    | inl none_kept ↦ inl (none_kept, refl, refl)
    | inr one_kept ↦ inr (inr (one_kept, refl, refl))
  ]

  -- A submission that is not held back ends in one of three ways: no order is placed, and the page
  -- shows an error; one order is placed, and the page holds it with the secret of its payment; or one
  -- order is placed and the page, which shows an error, does not hold it, because no payment could be
  -- prepared or because the answer to the order was lost. A lost answer is an error to the page, and
  -- the API keeps no order for a request with such an answer, or one.
  pub submit_Outcome :
      (cart : Option Cart) (p : Page) (s : Server)
      → p.is_pending ≡ false
      → Outcome p s (submit api trim cart (p, s))
  unfolding submit place
  submit_Outcome cart p s idle =
      if_cases (Outcome p s) p.is_pending (λ busy. cc (busy, idle))
        (λ _.
          intend_Outcome p (order_request trim cart p) s (place_order (order_request trim cart p) s)
            refl)

  settle : Page → Answer (Order × String) × Server → Page × Server
  settle p (answer, s) =
      (on_settled api trim answer (record p { error = none; is_pending = true }), s)

  submit_idle :
      (cart : Option Cart) (p : Page) (s : Server)
      → p.is_pending ≡ false
      → submit api trim cart (p, s) ≡ settle p (place api trim (order_request trim cart p) s)
  unfolding submit settle
  submit_idle cart p s idle =
      if_cases (λ w. w ≡ settle p (place api trim (order_request trim cart p) s)) p.is_pending
        (λ busy. cc (busy, idle)) (λ _. refl)

  place_unpaid :
      (r : OrderRequest) (s s1 s2 : Server) (placed : Order) (detail : Option String)
      → place_order r s ≡ (ok placed, s1)
      → create_payment_intent placed.reference s1 ≡ (err detail, s2)
      → place api trim r s ≡ (err detail, s2)
  unfolding place intend pay_for
  place_unpaid r s s1 s2 placed detail e e' =
      ap (intend api trim) e ∙ ap (pay_for api trim placed) e'

  place_accepted :
      (r : OrderRequest) (s s1 : Server) (placed : Order)
      → place_order r s ≡ (ok placed, s1)
      → orders (place api trim r s).1 ≡ orders s1
  unfolding place intend pay_for
  place_accepted r s s1 placed e =
      ap (λ a. orders (intend api trim a).1) e ∙ intent_keeps placed.reference s1

  -- If a submission's order is placed and its payment cannot be prepared, then submitting the page
  -- again, with an API that accepts the same request once more, leaves two orders more than before.
  pub submit_twice :
      (cart : Option Cart) (p : Page) (s s1 s2 s3 : Server) (first second : Order)
      (detail : Option String)
      → p.is_pending ≡ false
      → place_order (order_request trim cart p) s ≡ (ok first, s1)
      → create_payment_intent first.reference s1 ≡ (err detail, s2)
      → place_order (order_request trim cart p) s2 ≡ (ok second, s3)
      → orders (submit api trim cart (submit api trim cart (p, s))).1 ≡ orders s + 2
  unfolding on_settled settle place order_request
  submit_twice cart p s s1 s2 s3 first second detail idle placed refused_intent again =
      let p1 = on_settled api trim (err detail) (record p { error = none; is_pending = true }) in
      let once =
        submit_idle cart p s idle
        ∙ ap (settle p)
            (place_unpaid (order_request trim cart p) s s1 s2 first detail placed refused_intent) in
      let twice =
        ap (λ w. orders (submit api trim cart w).1) once
        ∙ ap (λ w. orders w.1) (submit_idle cart p1 s2 refl)
        ∙ place_accepted (order_request trim cart p) s2 s3 second again in
      omega (
        arith,
        twice,
        accepted _ s s1 first placed,
        accepted _ s2 s3 second again,
        intent_keeps first.reference s1,
        ap (λ (a : Answer String × Server). orders a.1) refused_intent,
      )
