-- ===== src/Dispatcher.antt =====
-- The saga dispatcher's decisions: workers/saga-dispatcher/app/dispatch_rules.py. An outcome's error,
-- a text for people, is left out, so that an outcome is its disposition.
mod Tests
pub mod Items
pub mod Handle
pub mod Queue
pub mod Stock
use ecommerce_platform.Base.{
  Bool, true, false, Option, none, some, ℕ, List, [], ◌∷◌, ◌+◌, ◌-◌, ◌*◌, min, ltb, leb, ◌==◌, ◌&&◌,
  ◌||◌, if◌then◌else◌, ◌++◌, suc,
}
use Prim.Native.Nat.{◌^◌}
use Prim.Native.String.{String}
use ecommerce_platform.Saga.{
  EventType, inventory_reserved_event, inventory_reservation_failed, payment_charged,
  payment_failed, payment_refunded, inventory_released, order_completed_event,
}

pub data SagaAck : Type 0 where
  applied deferred dead_lettered error : SagaAck

-- SETTLES
unfoldable pub settles : SagaAck → Bool
settles applied = true
settles deferred = false
settles dead_lettered = true
settles error = false

unfoldable pub classify_saga_response : ℕ → SagaAck
classify_saga_response status =
    if ltb status 300
    then applied
    else if status == 409
    then deferred
    else if status == 422
    then dead_lettered
    else error

-- The types of the outbox rows that the dispatcher claims.
pub data CommandType : Type 0 where
  reserve_inventory_command charge_payment_command refund_payment_command : CommandType
  release_inventory_command compensate_inventory_command confirm_order_command : CommandType
  saga_timed_out : CommandType
  release_seller_order_inventory_command consume_seller_order_inventory_command : CommandType
  book_escrow_delivery_command : CommandType
  unknown_command : String → CommandType

pub data Target : Type 0 where
  inventory_service payment_service order_saga : Target

pub record Route : Type 0 where
  pub target : Option Target
  pub success_status : Option ℕ
  pub on_success : Option EventType
  pub on_failure : Option EventType
  pub settle_on_failure : Bool

-- ROUTES.get(command)
unfoldable pub route_for : CommandType → Option Route
route_for reserve_inventory_command = some (record {
  target = some inventory_service;
  success_status = some 200;
  on_success = some inventory_reserved_event;
  on_failure = some inventory_reservation_failed;
  settle_on_failure = true;
})
route_for charge_payment_command = some (record {
  target = some payment_service;
  success_status = some 201;
  on_success = some payment_charged;
  on_failure = some payment_failed;
  settle_on_failure = true;
})
route_for refund_payment_command = some (record {
  target = some payment_service;
  success_status = some 200;
  on_success = some payment_refunded;
  on_failure = none;
  settle_on_failure = false;
})
route_for release_inventory_command = some (record {
  target = some inventory_service;
  success_status = some 200;
  on_success = some inventory_released;
  on_failure = none;
  settle_on_failure = false;
})
route_for compensate_inventory_command = some (record {
  target = some inventory_service;
  success_status = some 200;
  on_success = some inventory_released;
  on_failure = none;
  settle_on_failure = false;
})
route_for confirm_order_command = some (record {
  target = none;
  success_status = none;
  on_success = some order_completed_event;
  on_failure = none;
  settle_on_failure = true;
})
route_for saga_timed_out = some (record {
  target = none;
  success_status = none;
  on_success = none;
  on_failure = none;
  settle_on_failure = true;
})
route_for _ = none

-- Disposition, and Outcome without its error
pub data Disposition : Type 0 where
  settle retry park : Disposition

-- TERMINAL_COMMAND_STATUSES
abbrev pub is_terminal_status : ℕ → Bool
is_terminal_status s = s == 400 || s == 404 || s == 409 || s == 410 || s == 422

-- RETRYABLE_COMMAND_STATUSES
abbrev pub is_retryable_status : ℕ → Bool
is_retryable_status s = s == 408 || s == 425 || s == 429

unfoldable pub classify_command_failure : Option ℕ → Disposition
classify_command_failure none = retry
classify_command_failure (some s) =
    if leb 200 s && ltb s 300
    then settle
    else if is_retryable_status s
    then retry
    else if leb 500 s
    then retry
    else if is_terminal_status s
    then park
    else retry

abbrev pub retry_base_seconds : ℕ
retry_base_seconds = 2

abbrev pub retry_cap_seconds : ℕ
retry_cap_seconds = 300

abbrev pub max_attempts : ℕ
max_attempts = 15

-- backoff_seconds with the default base and cap, in units of 1/2000 second: `jitter` is in
-- thousandths. A value that the function refuses gives none.
unfoldable pub backoff : ℕ → ℕ → Option ℕ
backoff attempts jitter =
    if ltb attempts 1 || leb 1000 jitter
    then none
    else some (min retry_cap_seconds (retry_base_seconds * 2 ^ (attempts - 1)) * (2000 - jitter))

unfoldable pub disposition_after : Disposition → ℕ → Disposition
disposition_after retry attempts = if leb max_attempts attempts then park else retry
disposition_after settle attempts = settle
disposition_after park attempts = park
