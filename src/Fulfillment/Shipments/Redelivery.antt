-- ===== src/Fulfillment/Shipments/Redelivery.antt =====
-- A courier's word that arrives twice: handle_callback of
-- services/fulfillment-service/app/services/shipment_service.py, calling transition_seller_order of
-- services/order-saga/app/services/saga_orchestrator.py.
use ecommerce_platform.Base.{
  ◌++◌, true, false, Option, some, none, ℕ, ◌==◌, ◌≡◌, arith, refl, ap, sym, ◌∙◌, Option-cases,
  Bool-cases, inl, inr,
}
use mathlib.Core.Path.{subst}
use Prim.Native.String.{String}
use ecommerce_platform.Base.Http.{Response, ok, http_error}
use ecommerce_platform.SellerOrder
use ecommerce_platform.SellerOrder.{
  SellerOrderStatus, Action, InventoryEffect, plan_transition, http_status, actions,
}
use ecommerce_platform.Orchestrator.{products_of, SellerOrderRow, Database}
use ecommerce_platform.Orchestrator.SellerOrders.{
  transition_messages, TransitionRequest, find_child, write_child, moved_row,
  find_child-write_child, find_child-key, same_key, carry_out_transition, transition_seller_order,
}
use ecommerce_platform.Fulfillment.{CourierStatus, action_for}
use ecommerce_platform.Fulfillment.Settlement.{Shipment}
use ecommerce_platform.Fulfillment.Shipments.{
  rejected, SagaAnswer, answered, ActionResult, applied, not_applicable, result_of,
  CallbackResponse, drive,
}

-- A move that was made cannot be made again from where it led.
plan_again :
    (a : Action) (from to : SellerOrderStatus) (reason : String)
    → (plan_transition a (some from) reason).to ≡ some to
    → ((plan_transition a (some to) reason).to ≡ none)
      × (http_status (plan_transition a (some to) reason) ≡ 409)
unfolding plan_transition actions
plan_again a from to reason h = ground arith

not_success : (d : SellerOrder.Decision) → (http_status d == 200) ≡ false
not_success d = ground arith

module _ (order n : ℕ) (a : Action) (request : TransitionRequest) where
  abbrev pub Again : Response (SellerOrderRow × InventoryEffect) × Database → Type 0
  Again (http_error code, w) = (code == 200) ≡ false
  Again (ok x, w) = transition_seller_order true order n a request w ≡ (http_error 409, w)

  refused :
      (row : SellerOrderRow) (s : SellerOrderStatus) (w : Database)
      → find_child order n w.seller_orders ≡ some row
      → row.status ≡ s
      → (plan_transition a (some s) request.reason).to ≡ none
      → http_status (plan_transition a (some s) request.reason) ≡ 409
      → transition_seller_order true order n a request w ≡ (http_error 409, w)
  unfolding transition_seller_order carry_out_transition
  refused row s w f e none_to code =
      let here = λ (t : SellerOrderStatus). plan_transition a (some t) request.reason in
      rw
        (
          transition_seller_order,
          f,
          carry_out_transition,
          subst (λ t. (here t).to ≡ none) (sym e) none_to,
          subst (λ t. http_status (here t) ≡ 409) (sym e) code,
        )
        refl

  carried-Again :
      (old : SellerOrderRow) (w : Database) (to : Option SellerOrderStatus)
      → find_child order n w.seller_orders ≡ some old
      → (plan_transition a (some old.status) request.reason).to ≡ to
      → Again (
          carry_out_transition true a
            (plan_transition a (some old.status) request.reason)
            request
            old
            w)
  unfolding carry_out_transition
  carried-Again old w none f e =
      rw (carry_out_transition, e)
        (not_success (plan_transition a (some old.status) request.reason))
  carried-Again old w (some s) f e =
      let d = plan_transition a (some old.status) request.reason in
      let (same_id, same_order, new) = same_key a d s request old in
      let (old_id, old_order) = find_child-key order n old w.seller_orders f in
      let (stuck, code) = plan_again a old.status s request.reason e in
      let moved = moved_row a d s request old in
      let written = record w {
        seller_orders = write_child moved w.seller_orders;
        outbox = w.outbox ++ transition_messages a d moved (products_of old.id w.lines);
      } in
      rw (carry_out_transition, e)
        (refused moved s written
          (find_child-write_child order n old moved w.seller_orders f (same_id ∙ old_id)
            (same_order ∙ old_order))
          new stuck code)

  transition-Again : (w : Database) → Again (transition_seller_order true order n a request w)
  unfolding transition_seller_order
  transition-Again w = elim (Option-cases (find_child order n w.seller_orders)) [
    | inl f ↦ rw (transition_seller_order, f) refl
    | inr (old, f) ↦
        rw (transition_seller_order, f)
          (carried-Again old w (plan_transition a (some old.status) request.reason).to f refl)
  ]

-- transition_seller_order as the handler of the courier's action, with the reason that names the
-- courier's word.
abbrev pub answer {ℓ} : {A : Type ℓ} → Response A × Database → SagaAnswer × Database
answer (ok a, w) = (answered 200, w)
answer (http_error code, w) = (answered code, w)

unfoldable pub order_saga : String → ℕ → ℕ → Action → Database → SagaAnswer × Database
unfolding transition_seller_order
order_saga reason order n a w = answer (
    transition_seller_order true order n a
      (record { reason = reason; courier_name = none; tracking_code = none }) w)

-- A request that names the courier's word only.
abbrev named : String → TransitionRequest
named reason = record { reason = reason; courier_name = none; tracking_code = none }

abbrev respond :
    Shipment → Option CourierStatus → Action → SagaAnswer × Database → CallbackResponse × Database
respond s canonical a (x, w) = (
  record {
    shipment_id = s.id;
    canonical_status = canonical;
    action = some a;
    action_result = some (result_of x);
  },
  w,
)

driven :
    (reason : String) (s : Shipment) (canonical : Option CourierStatus) (a : Action) (w : Database)
    → action_for canonical ≡ some a
    → drive (order_saga reason) s canonical w
      ≡ respond s canonical a (order_saga reason s.order_id s.seller_order_id a w)
unfolding drive
driven reason s canonical a w e = rw (drive, e) refl

idle :
    (reason : String) (s : Shipment) (canonical : Option CourierStatus) (w : Database)
    → action_for canonical ≡ none
    → drive (order_saga reason) s canonical w ≡ (
      record {
        shipment_id = s.id;
        canonical_status = canonical;
        action = none;
        action_result = none;
      },
      w,
    )
unfolding drive
idle reason s canonical w e = rw (drive, e) refl

-- What a repetition does, where the first answer was that the action was applied.
abbrev Repeats : String → Shipment → Option CourierStatus → CallbackResponse × Database → Type 0
Repeats reason s canonical (response, w) =
    drive (order_saga reason) s canonical w
    ≡ (record response { action_result = some not_applicable }, w)

one_result : (r : ActionResult) → some r ≡ some applied → r ≡ applied
one_result r h = cc

code_applied : (code : ℕ) → (code == 200) ≡ false → result_of (answered code) ≡ applied → ⊥
code_applied code e h = elim (Bool-cases (code == 409)) [
  | inl n ↦ (let f : not_applicable ≡ applied = rw (e, n) at h in cc)
  | inr n ↦ (let f : rejected code ≡ applied = rw (e, n) at h in cc)
]

answered-Repeats :
    (reason : String) (s : Shipment) (canonical : Option CourierStatus) (a : Action)
    (y : Response (SellerOrderRow × InventoryEffect) × Database)
    → action_for canonical ≡ some a
    → Again s.order_id s.seller_order_id a (named reason) y
    → (respond s canonical a (answer y)).0.action_result ≡ some applied
    → Repeats reason s canonical (respond s canonical a (answer y))
unfolding order_saga
answered-Repeats reason s canonical a (http_error code, w) e again h =
    absurd (code_applied code again (one_result (result_of (answered code)) h))
answered-Repeats reason s canonical a (ok x, w) e again h =
    driven reason s canonical a w e ∙ ap (λ y. respond s canonical a (answer y)) again

-- When a courier's word made order-saga apply an action, the same word once more changes nothing there
-- and is answered as not applicable: what it settles, consumes or releases happens once.
pub redelivered_once :
    (reason : String) (s : Shipment) (canonical : Option CourierStatus) (w : Database)
    (response : CallbackResponse) (w' : Database)
    → drive (order_saga reason) s canonical w ≡ (response, w')
    → response.action_result ≡ some applied
    → drive (order_saga reason) s canonical w'
      ≡ (record response { action_result = some not_applicable }, w')
unfolding drive transition_seller_order order_saga
redelivered_once reason s canonical w response w' d h = elim (Option-cases (action_for canonical)) [
  | inl e ↦
      let quiet = sym (idle reason s canonical w e) ∙ d in
      let f : none ≡ some applied = ap (λ x. x.0.action_result) quiet ∙ h in cc
  | inr (a, e) ↦
      let first = transition_seller_order true s.order_id s.seller_order_id a (named reason) w in
      let same = sym (driven reason s canonical a w e) ∙ d in
      subst (Repeats reason s canonical) same (
        answered-Repeats reason s canonical a first e
          (transition-Again s.order_id s.seller_order_id a (named reason) w)
          (ap (λ x. x.0.action_result) same ∙ h))
]
