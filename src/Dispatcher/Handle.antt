-- ===== src/Dispatcher/Handle.antt =====
-- One command, carried out: handle and _advance_saga of workers/saga-dispatcher/app/main.py. The
-- services that are called, with the circuit breakers before them, are a parameter: what a call is
-- answered, and what it does to a state of theirs. The texts that a call carries are left out.
pub mod Routes
pub mod Settled
use ecommerce_platform.Base.{
  Bool, true, false, Option, none, some, ℕ, List, [], ◌∷◌, leb, ◌==◌, if◌then◌else◌,
}
use ecommerce_platform.Base.Int.{ℤ}
use Prim.Native.String.{String}
use ecommerce_platform.Saga.{
  EventType, inventory_reserved_event, inventory_reservation_failed, payment_charged,
  payment_failed, payment_refunded, inventory_released, order_completed_event,
}
use ecommerce_platform.Dispatcher.{
  CommandType, reserve_inventory_command, charge_payment_command, refund_payment_command,
  release_inventory_command, compensate_inventory_command, confirm_order_command, saga_timed_out,
  release_seller_order_inventory_command, consume_seller_order_inventory_command,
  book_escrow_delivery_command, unknown_command, settles, classify_saga_response, Disposition,
  settle, retry, classify_command_failure,
}
use ecommerce_platform.Dispatcher.Items.{
  ItemsPayload, ItemReservation, planned, refused, plan_item_reservations,
}

-- The value of an Idempotency-Key: str(msg_id), "{msg_id}:{product_id}", "{prefix}-{msg_id}".
pub data Key : Type 0 where
  of_message : ℕ → Key
  of_line : ℕ → ℕ → Key
  prefixed : String → ℕ → Key

-- The requests that the dispatcher makes.
pub data Call : Type 0 where
  reserve_stock : ℕ → ItemReservation → Key → Call
  release_order : ℕ → Key → Call
  release_products consume_products : ℕ → List ℕ → Key → Call
  charge : ℕ → ℕ → ℤ → Key → Call
  refund : ℕ → ℕ → Key → Call
  book_delivery : ℕ → ℕ → ℤ → Key → Call
  advance_saga : ℕ → EventType → Key → Call

-- CircuitOpenError or BulkheadFullError; and any other exception of the transport.
pub data Answer : Type 0 where
  status : ℕ → Answer
  refused_by_breaker transport_error : Answer

abbrev pub World : Type 0 → Type 0
World S = Call → S → Answer × S

-- How handle ends: with an outcome, shed by a breaker, or with another exception.
pub data Attempt : Type 0 where
  done : Disposition → Attempt
  shed raised : Attempt

-- The commands, with what handle reads of their payloads.
pub data Body : Type 0 where
  reserve_inventory : ItemsPayload → Body
  charge_payment : ℕ → ℤ → Body
  refund_payment : ℕ → Body
  release_inventory compensate_inventory : Body
  release_seller_order consume_seller_order : List ℕ → Body
  book_escrow_delivery : ℕ → ℕ → ℤ → Body
  confirm_order timed_out : Body
  unknown : String → Body

abbrev pub type_of : Body → CommandType
type_of (reserve_inventory items) = reserve_inventory_command
type_of (charge_payment user amount) = charge_payment_command
type_of (refund_payment user) = refund_payment_command
type_of release_inventory = release_inventory_command
type_of compensate_inventory = compensate_inventory_command
type_of (release_seller_order ps) = release_seller_order_inventory_command
type_of (consume_seller_order ps) = consume_seller_order_inventory_command
type_of (book_escrow_delivery seller order collected) = book_escrow_delivery_command
type_of confirm_order = confirm_order_command
type_of timed_out = saga_timed_out
type_of (unknown name) = unknown_command name

pub record Command : Type 0 where
  pub id : ℕ
  pub order_id : Option ℕ
  pub body : Body

-- _from_status
abbrev pub from_status : ℕ → Disposition
unfolding classify_command_failure
from_status n = classify_command_failure (some n)

abbrev pub acknowledge : ℕ → Disposition
unfolding settles classify_saga_response
acknowledge n = if settles (classify_saga_response n) then settle else retry

module _ {S : Type 0} (world : World S) where
  abbrev pub finish : Disposition → S → Attempt × S
  finish d s = (done d, s)

  -- _post: a 5xx raises, and what goes on is given the status.
  abbrev pub continue_with : (ℕ → S → Attempt × S) → Answer × S → Attempt × S
  continue_with k (status n, s) = if leb 500 n then (raised, s) else k n s
  continue_with k (refused_by_breaker, s) = (shed, s)
  continue_with k (transport_error, s) = (raised, s)

  abbrev pub post : Call → (ℕ → S → Attempt × S) → S → Attempt × S
  post call k s = continue_with k (world call s)

  -- _advance_saga
  unfoldable pub advance : ℕ → EventType → Key → S → Attempt × S
  unfolding acknowledge
  advance order event key = post (advance_saga order event key) (λ n. finish (acknowledge n))

  -- What follows a line that could not be reserved.
  unfoldable pub roll_back : ℕ → ℕ → S → Attempt × S
  unfolding advance
  roll_back msg order = post (release_order order (prefixed "inv-rb" msg)) λ n.
      if n == 200
      then advance order inventory_reservation_failed (prefixed "inv-fail" msg)
      else finish retry

  unfoldable pub reserve_lines : ℕ → ℕ → List ItemReservation → S → Attempt × S
  unfolding roll_back
  reserve_lines msg order [] = advance order inventory_reserved_event (prefixed "inv-res" msg)
  reserve_lines msg order (r ∷ rs) =
      post (reserve_stock order r (of_line msg r.product_id))
        λ n. if n == 200 then reserve_lines msg order rs else roll_back msg order

  -- The body of handle, for an order that the payload names.
  unfoldable pub carry_out : ℕ → ℕ → Body → S → Attempt × S
  unfolding plan_item_reservations reserve_lines from_status
  carry_out msg order (reserve_inventory items) = elim (plan_item_reservations items) [
    | refused e ↦ advance order inventory_reservation_failed (prefixed "inv-fail" msg)
    | planned rs ↦ reserve_lines msg order rs
  ]
  carry_out msg order (charge_payment user amount) =
      post (charge order user amount (of_message msg)) λ n.
        if n == 201
        then advance order payment_charged (prefixed "pay-chg" msg)
        else advance order payment_failed (prefixed "pay-fail" msg)
  carry_out msg order (refund_payment user) = post (refund order user (of_message msg)) λ n.
      if n == 200
      then advance order payment_refunded (prefixed "pay-ref" msg)
      else finish (from_status n)
  carry_out msg order release_inventory = post (release_order order (of_message msg)) λ n.
      if n == 200
      then advance order inventory_released (prefixed "inv-rel" msg)
      else finish (from_status n)
  carry_out msg order compensate_inventory = post (release_order order (of_message msg)) λ n.
      if n == 200
      then advance order inventory_released (prefixed "inv-rel" msg)
      else finish (from_status n)
  carry_out msg order (release_seller_order ps) =
      post (release_products order ps (of_message msg))
        λ n. if n == 200 then finish settle else finish (from_status n)
  carry_out msg order (consume_seller_order ps) =
      post (consume_products order ps (of_message msg))
        λ n. if n == 200 then finish settle else finish (from_status n)
  carry_out msg order (book_escrow_delivery seller child collected) =
      post (book_delivery seller child collected (of_message msg))
        λ n. if n == 200 then finish settle else finish (from_status n)
  carry_out msg order confirm_order = advance order order_completed_event (prefixed "ord-cmp" msg)
  carry_out msg order timed_out = finish settle
  carry_out msg order (unknown name) = finish settle

  unfoldable pub handle : Command → S → Attempt × S
  unfolding carry_out
  handle command s = elim (command.order_id) [
    | none ↦ (done settle, s)
    | some order ↦ carry_out command.id order command.body s
  ]
