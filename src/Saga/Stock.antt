-- ===== src/Saga/Stock.antt =====
-- What a saga's run does about the stock that was reserved for it
-- (services/order-saga/app/services/transitions.py, services/order-saga/app/main.py).
use ecommerce_platform.Base.{
  ◌≤◌, Bool, true, false, ◌||◌, ◌≡◌, ◌≢◌, ◌⊎◌, inl, inr, refl, List, [], ◌∷◌, arith, any,
  Bool-cases,
}
use ecommerce_platform.Saga.{
  SagaStatus, pending, inventory_reserved, paid, order_completed, failed, timed_out,
  rollback_completed, inventory_reserved_event, payment_charged, payment_failed, inventory_released,
  order_completed_event, Command, release_inventory, PaymentMethod, is_terminal, resolve,
}
use ecommerce_platform.Saga.Reaper.{reap}
use ecommerce_platform.Saga.Run.{Input, deliver, step, run, count, count-append}

abbrev pub is_reservation : Input → Bool
is_reservation (deliver inventory_reserved_event) = true
is_reservation _ = false

abbrev pub is_charge_event : Input → Bool
is_charge_event (deliver payment_charged) = true
is_charge_event _ = false

abbrev pub is_release : Command → Bool
is_release release_inventory = true
is_release _ = false

-- SAGA_STATES_ENDING_THE_ORDER of cod_rules.py, on the saga's own statuses.
abbrev pub is_ended : SagaStatus → Bool
is_ended failed = true
is_ended timed_out = true
is_ended rollback_completed = true
is_ended _ = false

-- The reservation is known to the saga and not given back.
abbrev is_holding : SagaStatus → Bool
is_holding inventory_reserved = true
is_holding order_completed = true
is_holding _ = false

step_holding :
    (m : PaymentMethod) (s : SagaStatus) (i : Input)
    → s ≢ paid
    → is_charge_event i ≡ false
    → (is_holding s || is_reservation i) ≡ true
    → (is_holding (step m s i).0 ≡ true) ⊎ (1 ≤ count is_release (step m s i).1)
unfolding step resolve reap
step_holding m s i np nc h = ground arith

step_unpaid :
    (m : PaymentMethod) (s : SagaStatus) (i : Input)
    → s ≢ paid
    → is_charge_event i ≡ false
    → (step m s i).0 ≢ paid
unfolding step resolve reap
step_unpaid m s i np nc e = ground arith

holding-run :
    (m : PaymentMethod) (s : SagaStatus) (is : List Input)
    → s ≢ paid
    → any is_charge_event is ≡ false
    → (is_holding s || any is_reservation is) ≡ true
    → is_ended (run m s is).0 ≡ true
    → 1 ≤ count is_release (run m s is).1
unfolding run
holding-run m s [] np nc h e = ground arith
holding-run m s (i ∷ is) np nc h e =
    let (s', cs) = step m s i in
    let still = holding-run m s' is in
    elim (Bool-cases (is_holding s || is_reservation i)) [
      | inl known ↦ ground (
        arith,
        step_holding m s i np,
        step_unpaid m s i np,
        still,
        count-append is_release cs (run m s' is).1,
      )
      | inr unknown ↦
          ground (arith, step_unpaid m s i np, still, count-append is_release cs (run m s' is).1)
    ]

-- If a saga that begins at PENDING is told of a reservation, is never told of a charge, and ends
-- at FAILED, TIMED_OUT or ROLLBACK_COMPLETED, then it has emitted ReleaseInventoryCommand:
-- whatever the order of the events, and however often the reaper came by.
pub reserved_stock_released :
    (m : PaymentMethod) (is : List Input)
    → any is_charge_event is ≡ false
    → any is_reservation is ≡ true
    → is_ended (run m pending is).0 ≡ true
    → 1 ≤ count is_release (run m pending is).1
reserved_stock_released m is nc h e = holding-run m pending is (λ p. cc) nc (ground arith) e

abbrev past_release : SagaStatus → Bool
past_release pending = false
past_release inventory_reserved = false
past_release _ = true

step-past_release :
    (m : PaymentMethod) (s : SagaStatus) (i : Input)
    → past_release s ≡ true
    → is_reservation i ≡ false
    → (past_release (step m s i).0 ≡ true) × (count is_release (step m s i).1 ≡ 0)
unfolding step resolve reap
step-past_release m s i p r = ground arith

past_release-run :
    (m : PaymentMethod) (s : SagaStatus) (is : List Input)
    → past_release s ≡ true
    → any is_reservation is ≡ false
    → count is_release (run m s is).1 ≡ 0
unfolding run
past_release-run m s [] p r = refl
past_release-run m s (i ∷ is) p r =
    let (s', cs) = step m s i in
    ground (
      arith,
      step-past_release m s i p,
      past_release-run m s' is,
      count-append is_release cs (run m s' is).1,
    )

-- Once a saga is PAID, no run releases its stock, unless a further InventoryReserved arrives: not
-- when the reaper times it out, and not when PaymentRefunded rolls it back.
pub paid_never_releases :
    (m : PaymentMethod) (is : List Input)
    → any is_reservation is ≡ false
    → count is_release (run m paid is).1 ≡ 0
paid_never_releases m is r = past_release-run m paid is refl r

-- The inputs that bring a saga to an end from each status.
unfoldable pub settling_inputs : PaymentMethod → SagaStatus → List Input
settling_inputs m pending =
    deliver inventory_reserved_event ∷ deliver payment_failed ∷ deliver inventory_released ∷ []
settling_inputs m inventory_reserved = deliver payment_failed ∷ deliver inventory_released ∷ []
settling_inputs m paid = deliver order_completed_event ∷ []
settling_inputs m failed = deliver inventory_released ∷ []
settling_inputs m timed_out = deliver inventory_released ∷ []
settling_inputs m order_completed = []
settling_inputs m rollback_completed = []

-- From every status, and for every payment method, the events of settling_inputs, which are at most
-- three, lead to a terminal status: no status is a dead end.
pub can_settle :
    (m : PaymentMethod) (s : SagaStatus) → is_terminal (run m s (settling_inputs m s)).0 ≡ true
unfolding settling_inputs run step resolve
can_settle m s = ground arith
