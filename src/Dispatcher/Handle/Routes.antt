-- ===== src/Dispatcher/Handle/Routes.antt =====
-- The handlers of workers/saga-dispatcher/app/main.py against the table ROUTES of
-- workers/saga-dispatcher/app/dispatch_rules.py, and the table against the saga's vocabulary.
use ecommerce_platform.Dispatcher.Handle.{
  done, of_message, prefixed, Call, World, Attempt, Body, charge_payment, refund_payment,
  release_inventory, compensate_inventory, from_status, finish, post, advance,
}
use ecommerce_platform.Dispatcher.{
  Target, payment_service, inventory_service, order_saga, classify_command_failure, String,
  CommandType, Route, route_for,
}
use ecommerce_platform.Base.{
  Bool, true, false, Option, none, some, ℕ, ◌==◌, if◌then◌else◌, ◌≡◌, arith,
}
use ecommerce_platform.Saga
use ecommerce_platform.Saga.{EventType, Command, is_known_event, PaymentMethod, SagaStatus}

-- The one call of a command with a target, the reservation of lines apart.
abbrev pub request_of : ℕ → ℕ → Body → Option Call
request_of msg order (charge_payment user amount) =
    some (Call.charge order user amount (of_message msg))
request_of msg order (refund_payment user) = some (Call.refund order user (of_message msg))
request_of msg order release_inventory = some (Call.release_order order (of_message msg))
request_of msg order compensate_inventory = some (Call.release_order order (of_message msg))
request_of msg order _ = none

-- The service that a call goes to.
abbrev pub service_of : Call → Target
service_of (Call.charge order user amount key) = payment_service
service_of (Call.refund order user key) = payment_service
service_of (Call.book_delivery seller order collected key) = payment_service
service_of (Call.advance_saga order event key) = order_saga
service_of _ = inventory_service

abbrev pub event_prefix : EventType → String
event_prefix Saga.payment_charged = "pay-chg"
event_prefix Saga.payment_failed = "pay-fail"
event_prefix Saga.payment_refunded = "pay-ref"
event_prefix Saga.inventory_released = "inv-rel"
event_prefix Saga.inventory_reserved_event = "inv-res"
event_prefix Saga.inventory_reservation_failed = "inv-fail"
event_prefix Saga.order_completed_event = "ord-cmp"
event_prefix (Saga.other name) = name

abbrev succeeds : Option ℕ → ℕ → Bool
succeeds none n = false
succeeds (some expected) n = n == expected

module _ {S : Type 0} (world : World S) where
  -- An outcome that has an event advances the saga; one that has none is classified.
  abbrev pub report : ℕ → ℕ → ℕ → Option EventType → S → Attempt × S
  unfolding from_status
  report msg order n none = finish world (from_status n)
  report msg order n (some e) = advance world order e (prefixed (event_prefix e) msg)

  -- What a route's call and statuses come to. Its settle_on_failure is not read, by the source either.
  abbrev pub follow : Route → Call → ℕ → ℕ → S → Attempt × S
  unfolding report
  follow route call msg order = post world call λ n.
      if succeeds route.success_status n
      then report msg order n route.on_success
      else report msg order n route.on_failure

  -- What the code makes of a status without success, by what the table says of it.
  abbrev pub FailsBy : Route → ℕ → ℕ → ℕ → S → Type 0
  unfolding report classify_command_failure
  FailsBy route msg order n t = (report msg order n route.on_failure t).0 ≡ (
      if route.settle_on_failure
      then (report msg order n route.on_failure t).0
      else done (classify_command_failure (some n)))

-- Every event in ROUTES is in the saga's vocabulary.
abbrev pub is_known : Option EventType → Bool
is_known none = true
is_known (some e) = is_known_event e

routes_known :
    (c : CommandType) (route : Route)
    → route_for c ≡ some route
    → (is_known route.on_success ≡ true) × (is_known route.on_failure ≡ true)
unfolding route_for
routes_known c route h = ground arith
