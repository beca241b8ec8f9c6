-- ===== src/Saga.antt =====
-- The order saga's state machine, as data: services/order-saga/app/services/transitions.py.
-- Statuses, events and commands are strings there; here they are enumerations, with `other` for
-- an event type that is not in the vocabulary.
mod Tests
pub mod Reaper
pub mod Run
pub mod Progress
pub mod Stock
use Prim.Native.String.{String}
use ecommerce_platform.Base.{Bool, true, false, Option, none, some, ◌≡◌, refl, if◌then◌else◌}

-- ALL_STATES
pub data SagaStatus : Type 0 where
  pending inventory_reserved paid order_completed failed timed_out rollback_completed : SagaStatus

-- KNOWN_EVENT_TYPES, and whatever else a caller may send.
pub data EventType : Type 0 where
  inventory_reserved_event inventory_reservation_failed payment_charged payment_failed : EventType
  payment_refunded order_completed_event inventory_released : EventType
  other : String → EventType

-- The commands that the saga's tables and its reaper put on the outbox.
pub data Command : Type 0 where
  charge_payment confirm_order order_failed release_inventory : Command
  refund_payment saga_timed_out : Command

pub data PaymentMethod : Type 0 where
  card cod : PaymentMethod
  other_method : String → PaymentMethod

pub data Outcome : Type 0 where
  apply late_duplicate out_of_order unknown_event compensate : Outcome

pub record Decision : Type 0 where
  pub outcome : Outcome
  pub new_status : Option SagaStatus
  pub command : Option Command

abbrev pub is_known_event : EventType → Bool
is_known_event (other name) = false
is_known_event inventory_reserved_event = true
is_known_event inventory_reservation_failed = true
is_known_event payment_charged = true
is_known_event payment_failed = true
is_known_event payment_refunded = true
is_known_event order_completed_event = true
is_known_event inventory_released = true

abbrev pub is_cod : PaymentMethod → Bool
is_cod cod = true
is_cod card = false
is_cod (other_method name) = false

-- TERMINAL_STATES
abbrev pub is_terminal : SagaStatus → Bool
is_terminal order_completed = true
is_terminal rollback_completed = true
is_terminal _ = false

-- TRANSITIONS.get((current_status, event_type))
unfoldable pub transitions : SagaStatus → EventType → Option (SagaStatus × Option Command)
transitions pending inventory_reserved_event = some (inventory_reserved, some charge_payment)
transitions inventory_reserved payment_charged = some (paid, some confirm_order)
transitions paid order_completed_event = some (order_completed, none)
transitions pending inventory_reservation_failed = some (rollback_completed, some order_failed)
transitions inventory_reserved payment_failed = some (failed, some release_inventory)
transitions failed inventory_released = some (rollback_completed, none)
transitions timed_out inventory_released = some (rollback_completed, none)
transitions paid payment_refunded = some (rollback_completed, none)
transitions timed_out payment_refunded = some (rollback_completed, none)
transitions _ _ = none

-- COD_TRANSITIONS.get((current_status, event_type))
unfoldable pub cod_transitions : SagaStatus → EventType → Option (SagaStatus × Option Command)
cod_transitions pending inventory_reserved_event = some (order_completed, none)
cod_transitions _ _ = none

-- LATE_RESOURCE_COMPENSATIONS.get((current_status, event_type))
unfoldable pub late_resource_compensations : SagaStatus → EventType → Option Command
late_resource_compensations timed_out inventory_reserved_event = some release_inventory
late_resource_compensations failed inventory_reserved_event = some release_inventory
late_resource_compensations rollback_completed inventory_reserved_event = some release_inventory
late_resource_compensations _ _ = none

-- Decision(outcome)
abbrev pub reject : Outcome → Decision
reject o = record { outcome = o; new_status = none; command = none }

-- Decision(Outcome.APPLY, new_status, command)
abbrev pub applied : SagaStatus × Option Command → Decision
applied (s, c) = record { outcome = apply; new_status = some s; command = c }

-- What is left once neither table has an entry.
unfoldable pub resolve_rest : SagaStatus → EventType → Decision
unfolding late_resource_compensations
resolve_rest s e = elim (late_resource_compensations s e) [
  | some c ↦ record { outcome = compensate; new_status = none; command = some c }
  | none ↦ if is_terminal s then reject late_duplicate else reject out_of_order
]

-- The shared table.
unfoldable pub resolve_shared : SagaStatus → EventType → Decision
unfolding transitions resolve_rest
resolve_shared s e = elim (transitions s e) [ some entry ↦ applied entry | none ↦ resolve_rest s e ]

unfoldable pub resolve : SagaStatus → EventType → PaymentMethod → Decision
unfolding cod_transitions resolve_shared
resolve s e m =
    if is_known_event e
    then (if is_cod m
        then elim (cod_transitions s e) [ some entry ↦ applied entry | none ↦ resolve_shared s e ]
        else resolve_shared s e)
    else reject unknown_event

cod_hand_off :
    resolve pending inventory_reserved_event cod
    ≡ record { outcome = apply; new_status = some order_completed; command = none }
unfolding resolve
cod_hand_off = refl
