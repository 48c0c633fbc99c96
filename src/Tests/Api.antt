-- ===== src/Tests/Api.antt =====
-- The API client, the checkout and the order socket of provena-web/src on concrete inputs.
use provena.Base.{
  ℕ, ◌+◌, ◌≤◌, true, false, none, some, [], ◌∷◌, ◌≡◌, refl, ap, sym, ltb, All, arith, eq_iff, ◌==◌,
  string_eq, ◌↔◌, ◌⊎◌, inr, if◌then◌else◌,
}
use provena.Client.{Config, initial, on_request, on_error, reject}
use provena.Client.System.{System, start, fresh, send, fail, sends, fails, Reach, here, next}
use provena.Client.System.Calm.{Calm, Reach-Calm}
use provena.Client.System.Conservation.{places, Reach-places, Reach-refreshes}
use provena.Types.Order.{Order, pending}
use provena.Requests.{config_of}
use provena.Requests.Account.{get_totp_setup_uri}
use provena.Requests.Exempt.{
  auth, request as request_of, signs_in, manages_totp, on_error-request_iff,
}
use provena.Requests.Ordering.{
  buyer_request, place_order, get_orders, get_ws_ticket, get_supplier_sub_orders,
  get_supplier_returns, get_admin_orders, get_admin_returns, get_order, cancel_order,
  request_return, raise_dispute, seller_request, supplier_approve_return, supplier_reject_return,
  confirm_sub_order, dispatch_sub_order, overseer_request, get_admin_order,
  admin_process_return_refund, get_admin_disputes, admin_resolve_dispute, admin_reject_dispute,
}
use provena.Requests.Routes.{Resolver, segments, first_match, order_routes}
use provena.Requests.Routes.Reached.{NoSlash, Plain, resolve-order_calls, resolve-dispute}
use provena.Checkout.{Api, ok, err, submit}
use provena.Checkout
use provena.Checkout.Placing.{Ledger, submit_Outcome, submit_twice}
use provena.Socket.{Run, ticket, message, cleanup}
use provena.Socket
use provena.Socket.Cleanup.{run, no_connection_after_cleanup}

abbrev sent : System
sent = send (some "/orders/") (start (some "old"))

abbrev request : Config
request = on_request (some "old") (fresh 0 (some "/orders/"))

-- The only request fails with an expired token.
abbrev pub expired : System
expired = fail (some 401) request (record sent { in_flight = [] })

pub reached : Reach (start (some "old")) expired
unfolding send
reached = next (next here (sends (some "/orders/"))) (fails [] [] request (some 401) refl)

Reach-places_example : places 0 expired ≡ (if ltb 0 expired.issued then 1 else 0)
Reach-places_example = Reach-places 0 reached

Reach-Calm_example : Calm expired
Reach-Calm_example = Reach-Calm reached

Reach-refreshes_example : expired.refreshes ≤ expired.issued
Reach-refreshes_example = Reach-refreshes reached

abbrev pub order : Order
order = record {
  id = "o1";
  reference = "PRV-1";
  status = pending;
  buyer_email = "ada@example.com";
  shipping_name = "Ada";
  shipping_line1 = "1 High Street";
  shipping_line2 = "";
  shipping_city = "London";
  shipping_postcode = "N1 1AA";
  shipping_country = "GB";
  goods_subtotal = "10.00";
  discount_amount = "0.00";
  discount_code = "";
  shipping_amount = "0.00";
  vat_amount = "2.00";
  total_amount = "12.00";
  notes = "";
  payment_id = none;
  payment_status = none;
  refunded_amount = none;
  sub_orders = [];
  created_at = "";
  updated_at = "";
}

-- An API that counts its orders and prepares no payment.
abbrev api : Api ℕ
api = record {
  place_order = λ r n. (ok order, n + 1);
  create_payment_intent = λ reference n. (err none, n);
}

abbrev ledger : Ledger api
ledger = record {
  orders = λ n. n;
  accepted = λ r n m placed e. sym (ap (λ a. a.1) e);
  failed = λ r n m detail e. cc e;
  intent_keeps = λ reference n. refl;
}

-- An API whose answers to orders are lost.
abbrev losing : Api ℕ
losing = record {
  place_order = λ r n. (err none, n + 1);
  create_payment_intent = λ reference n. (err none, n);
}

abbrev losing_ledger : Ledger losing
losing_ledger = record {
  orders = λ n. n;
  accepted = λ r n m placed e. cc e;
  failed = λ r n m detail e. inr (sym (ap (λ a. a.1) e));
  intent_keeps = λ reference n. refl;
}

submit_Outcome_example :
    Checkout.Placing.Outcome losing losing_ledger
      (λ s. s)
      Checkout.initial
      0
      (submit losing (λ s. s) none (Checkout.initial, 0))
submit_Outcome_example = submit_Outcome losing losing_ledger (λ s. s) none Checkout.initial 0 refl

submit_twice_example :
    (submit api (λ s. s) none (submit api (λ s. s) none (Checkout.initial, 0))).1 ≡ 2
submit_twice_example =
    submit_twice api ledger (λ s. s) none Checkout.initial 0 1 1 2 order order none refl refl refl
      refl

abbrev listening : Run
listening = record { connected = false; ticket_of = none; cancelled = false; invalidated = [] }

no_connection_example :
    ((run "PRV-1"
        (ticket "t" ∷ message (some "order_status") ∷ cleanup ∷ ticket "u" ∷ [])
        listening).connected
      ≡ false)
    × All
        (λ key. key ≡ "order" ∷ "PRV-1" ∷ [])
        (run "PRV-1"
          (ticket "t" ∷ message (some "order_status") ∷ cleanup ∷ ticket "u" ∷ [])
          listening).invalidated
unfolding Socket.start
no_connection_example =
    no_connection_after_cleanup "PRV-1" (some "token")
      (ticket "t" ∷ message (some "order_status") ∷ []) (ticket "u" ∷ []) refl

on_error-request_example :
    ((on_error
        (some 401)
        (on_request (some "old") (config_of 0 (request_of (auth get_totp_setup_uri))))
        initial).1
      ≡ reject)
    ↔ (signs_in (auth get_totp_setup_uri) ≡ true) ⊎ (manages_totp (auth get_totp_setup_uri) ≡ true)
on_error-request_example = on_error-request_iff (auth get_totp_setup_uri) 0 (some "old") initial

-- A resolver that does just what is documented, with one UUID.
abbrev django : Resolver
django = record {
  is_uuid = λ s. s == "u1";
  resolve = λ routes url. first_match (λ s. s == "u1") routes (segments url);
  in_order = λ routes url. refl;
}

reference-NoSlash : NoSlash "PRV-1"
reference-NoSlash = (omega arith, (omega arith, (omega arith, (omega arith, (omega arith, tt)))))

id-NoSlash : NoSlash "u1"
id-NoSlash = (omega arith, (omega arith, tt))

reference-Plain : Plain "PRV-1"
reference-Plain = (
  reference-NoSlash,
  refl,
  ground (arith, eq_iff "PRV-1" "ws-ticket"),
  ground (arith, eq_iff "PRV-1" "supplier"),
  ground (arith, eq_iff "PRV-1" "admin"),
  ground (arith, eq_iff "PRV-1" "returns"),
)

resolve-order_calls_example :
    ((django.resolve order_routes (buyer_request (get_order "PRV-1")).url ≡ some "order-detail")
      × (django.resolve order_routes (buyer_request (cancel_order "PRV-1")).url
          ≡ some "order-cancel")
      × (django.resolve order_routes (buyer_request (request_return "PRV-1" "u1" "broken" none)).url
          ≡ some "request-return"))
    × (django.resolve order_routes (seller_request (supplier_approve_return "u1" none)).url
        ≡ some "supplier-approve-return")
    × (django.resolve order_routes (seller_request (supplier_reject_return "u1" none)).url
        ≡ some "supplier-reject-return")
    × (django.resolve order_routes (seller_request (confirm_sub_order "u1")).url
        ≡ some "supplier-confirm")
    × (django.resolve order_routes (seller_request (dispatch_sub_order "u1" none)).url
        ≡ some "supplier-dispatch")
    × (django.resolve order_routes (overseer_request (admin_process_return_refund "u1" none)).url
        ≡ some "admin-process-return-refund")
    × (django.resolve order_routes (overseer_request (get_admin_order "PRV-1")).url
        ≡ some "admin-order-detail")
    × (django.resolve order_routes (buyer_request (place_order [])).url ≡ some "order-list-create")
    × (django.resolve order_routes (buyer_request (get_orders 2)).url ≡ some "order-list-create")
    × (django.resolve order_routes (buyer_request get_ws_ticket).url ≡ some "ws-ticket")
    × (django.resolve order_routes (seller_request (get_supplier_sub_orders 2)).url
        ≡ some "supplier-suborder-list")
    × (django.resolve order_routes (seller_request (get_supplier_returns none 2)).url
        ≡ some "supplier-return-list")
    × (django.resolve order_routes (overseer_request (get_admin_orders 2)).url
        ≡ some "admin-order-list")
    × (django.resolve order_routes (overseer_request (get_admin_returns none 2)).url
        ≡ some "admin-return-list")
resolve-order_calls_example =
    resolve-order_calls django "PRV-1" "u1" "broken" none none none none none [] 2 reference-Plain
      id-NoSlash refl

resolve-dispute_example :
    (django.resolve order_routes (buyer_request (raise_dispute "PRV-1" "u1" "late")).url ≡ none)
    × (django.resolve order_routes (overseer_request (admin_resolve_dispute "u1" "late")).url
        ≡ none)
    × (django.resolve order_routes (overseer_request (admin_reject_dispute "u1" "late")).url ≡ none)
    × (django.resolve order_routes (overseer_request (get_admin_disputes none)).url
        ≡ some "admin-order-detail")
resolve-dispute_example =
    resolve-dispute django "PRV-1" "u1" "late" none reference-NoSlash id-NoSlash
