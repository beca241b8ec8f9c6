-- ===== src/Orchestrator.antt =====
-- order-saga's database and advance_saga: services/order-saga/app/services/saga_orchestrator.py,
-- over services/order-saga/app/models.py. Each operation is one transaction; whether its commit
-- succeeds is an argument. A row lock always waits its turn here: transactions are taken one after
-- another, also where cancel_children_of_ended_saga reads the children with no lock. Timestamps
-- and currency are left out; identifiers are numbers. A stored status is one of its vocabulary,
-- since only these operations and the reaper write it.
mod Tests
pub mod Reap
pub mod Runs
pub mod Start
pub mod Advance
pub mod Children
pub mod SellerOrders
pub mod Sweep
use ecommerce_platform.Base.Int.{ℤ}
use ecommerce_platform.Base.{
  Option, ◌&&◌, ◌∷◌, ◌++◌, some, keep_if, Bool, ℕ, [], ◌==◌, true, if◌then◌else◌, List, none, false,
}
use Prim.Native.String.{String}
use ecommerce_platform.Base.Http.{Response, ok, http_error}
use ecommerce_platform.Base.Sort.{sorted}
use ecommerce_platform.Base.Text.{is_empty}
use ecommerce_platform.Saga
use ecommerce_platform.Saga.{
  SagaStatus, EventType, Command, PaymentMethod, resolve, inventory_reserved_event, charge_payment,
  order_failed,
}
use ecommerce_platform.SellerOrder
use ecommerce_platform.SellerOrder.{
  SellerOrderStatus, SellerOrderEvent, Action, InventoryEffect, seller_order_cancelled,
  plan_transition, may_cancel, http_status, dispatch, deliver,
}
use ecommerce_platform.SellerOrder.Split.{SellerOrderPlan}
use ecommerce_platform.Dispatcher.Items.{ItemsPayload}
use ecommerce_platform.Saga.Stock.{is_ended}

-- OrderSagaState
pub record SagaRow : Type 0 where
  pub id : ℕ
  pub user_id : ℕ
  pub status : SagaStatus
  pub payment_method : PaymentMethod
  pub total_cents : ℤ

pub record SellerOrderRow : Type 0 where
  pub id : ℕ
  pub order_id : ℕ
  pub seller_id : ℕ
  pub status : SellerOrderStatus
  pub status_reason : Option String
  pub subtotal_cents : ℤ
  pub item_count : ℤ
  pub courier_name : Option String
  pub tracking_code : Option String

pub record OrderLine : Type 0 where
  pub order_id : ℕ
  pub seller_order_id : ℕ
  pub product_id : ℕ
  pub seller_id : ℕ
  pub quantity : ℤ
  pub price_cents : ℤ
  pub line_total_cents : ℤ

-- The payloads of _command_payload, and of the reaper's commands.
pub data Payload : Type 0 where
  charge : ℕ → ℕ → ℤ → Payload
  failure : ℕ → ℕ → Payload
  order_only : ℕ → Payload
  timeout : ℕ → ℕ → SagaStatus → Payload

-- A row of the outbox: a saga's command; a seller order's event, with the row as it then is and
-- its products; BookEscrowDeliveryCommand; the two inventory commands of _EFFECT_COMMANDS; and what
-- start_saga writes, SellerOrderCreated and ReserveInventoryCommand.
pub data OutboxMessage : Type 0 where
  saga_command : Command → Payload → OutboxMessage
  seller_order_event : SellerOrderEvent → SellerOrderRow → List ℕ → OutboxMessage
  book_escrow_delivery : SellerOrderRow → OutboxMessage
  release_seller_order consume_seller_order : ℕ → ℕ → List ℕ → OutboxMessage
  seller_order_created : ℕ → SellerOrderRow → SellerOrderPlan → OutboxMessage
  reserve_inventory : ℕ → ℕ → ItemsPayload → OutboxMessage

pub record Database : Type 0 where
  pub sagas : List SagaRow
  pub seller_orders : List SellerOrderRow
  pub lines : List OrderLine
  pub outbox : List OutboxMessage
  pub keys : List (ℕ × Option ℕ)

abbrev pub find_saga : ℕ → List SagaRow → Option SagaRow
find_saga n [] = none
find_saga n (s ∷ ss) = if s.id == n then some s else find_saga n ss

abbrev pub find_key : ℕ → List (ℕ × Option ℕ) → Option (Option ℕ)
find_key k [] = none
find_key k ((j, r) ∷ ks) = if j == k then some r else find_key k ks

abbrev pub set_status : ℕ → SagaStatus → List SagaRow → List SagaRow
set_status n s [] = []
set_status n s (r ∷ rs) = if r.id == n then record r { status = s } ∷ rs else r ∷ set_status n s rs

-- _command_payload
unfoldable pub command_payload : Command → SagaRow → Payload
command_payload charge_payment saga = charge saga.id saga.user_id saga.total_cents
command_payload order_failed saga = failure saga.id saga.user_id
command_payload _ saga = order_only saga.id

-- SELECT product_id FROM order_lines WHERE seller_order_id = ...
abbrev pub products_of : ℕ → List OrderLine → List ℕ
products_of n [] = []
products_of n (l ∷ ls) =
    let rest = products_of n ls in if l.seller_order_id == n then l.product_id ∷ rest else rest

-- cancellation_reason of cod_rules.py
abbrev pub cancellation_reason : SagaStatus → String
cancellation_reason SagaStatus.failed = "order failed"
cancellation_reason SagaStatus.timed_out = "order timed out"
cancellation_reason SagaStatus.rollback_completed = "order rollback completed"
cancellation_reason SagaStatus.pending = "order pending"
cancellation_reason SagaStatus.inventory_reserved = "order inventory reserved"
cancellation_reason SagaStatus.paid = "order paid"
cancellation_reason SagaStatus.order_completed = "order order completed"

-- A child that children_to_cancel of cod_rules.py names, when the saga has ended.
abbrev pub is_cancelled_with : ℕ → SellerOrderRow → Bool
is_cancelled_with order child = child.order_id == order && may_cancel child.status

abbrev pub cancel_child : SagaStatus → SellerOrderRow → SellerOrderRow
cancel_child s child = record child {
  status = SellerOrderStatus.cancelled;
  status_reason = some (cancellation_reason s);
}

abbrev pub cancel_rows : ℕ → SagaStatus → List SellerOrderRow → List SellerOrderRow
cancel_rows order s [] = []
cancel_rows order s (c ∷ cs) =
    (if is_cancelled_with order c then cancel_child s c else c) ∷ cancel_rows order s cs

abbrev pub cancel_messages : SagaStatus → List OrderLine → List SellerOrderRow → List OutboxMessage
cancel_messages s lines [] = []
cancel_messages s lines (c ∷ cs) =
    seller_order_event seller_order_cancelled (cancel_child s c) (products_of c.id lines)
    ∷ cancel_messages s lines cs

-- cancel_children_of_ended_saga, for a saga row whose status has been written. The children are
-- read in the order of their sellers.
unfoldable pub cancel_children_of_ended_saga : ℕ → SagaStatus → Database → Database
unfolding sorted
cancel_children_of_ended_saga order s db =
    if is_ended s
    then record db {
      seller_orders = cancel_rows order s db.seller_orders;
      outbox =
          db.outbox
          ++ cancel_messages s db.lines (
              sorted (λ (c : SellerOrderRow). c.seller_id)
                (keep_if (is_cancelled_with order) db.seller_orders));
    }
    else db

abbrev pub is_pending : SellerOrderStatus → Bool
is_pending SellerOrderStatus.pending = true
is_pending _ = false

-- UPDATE seller_orders SET status = 'INVENTORY_RESERVED' WHERE order_id = ... AND status = 'PENDING'
abbrev pub reserve_rows : ℕ → List SellerOrderRow → List SellerOrderRow
reserve_rows order [] = []
reserve_rows order (c ∷ cs) =
    (if c.order_id == order && is_pending c.status
      then record c { status = SellerOrderStatus.inventory_reserved }
      else c)
    ∷ reserve_rows order cs

abbrev pub is_reserved_event : EventType → Bool
is_reserved_event inventory_reserved_event = true
is_reserved_event _ = false

unfoldable pub reserve_children : ℕ → EventType → Database → Database
reserve_children order e db =
    if is_reserved_event e
    then record db { seller_orders = reserve_rows order db.seller_orders }
    else db

-- The command of a decision, put on the outbox.
abbrev pub emit : Option Command → SagaRow → Database → Database
emit none saga db = db
emit (some c) saga db = record db {
  outbox = db.outbox ++ saga_command c (command_payload c saga) ∷ [];
}

abbrev pub bind_key : ℕ → ℕ → Database → Database
bind_key key id db = record db { keys = (key, some id) ∷ db.keys }

-- The writes of an APPLY.
unfoldable pub apply_decision :
    ℕ → EventType → SagaStatus → Option Command → SagaRow → Database → Database
unfolding cancel_children_of_ended_saga reserve_children command_payload
apply_decision key e s c saga db =
    let saga' = record saga { status = s } in
    let moved = record db { sagas = set_status saga.id s db.sagas } in
    let closed = cancel_children_of_ended_saga saga.id s moved in
    bind_key key saga.id (emit c saga' (reserve_children saga.id e closed))

-- The writes of a COMPENSATE.
unfoldable pub compensate_decision : ℕ → Option Command → SagaRow → Database → Database
unfolding command_payload
compensate_decision key c saga db = bind_key key saga.id (emit c saga db)

abbrev pub committed : Bool → SagaRow → Database → Database → Response SagaRow × Database
committed commits saga written db = if commits then (ok saga, written) else (http_error 500, db)

-- What follows the decision.
unfoldable pub carry_out :
    Bool → ℕ → EventType → Saga.Decision → SagaRow → Database → Response SagaRow × Database
unfolding apply_decision compensate_decision
carry_out commits key e d saga db = elim (d.outcome) [
  | Saga.unknown_event ↦ (http_error 422, db)
  | Saga.late_duplicate ↦ (ok saga, db)
  | Saga.out_of_order ↦ (http_error 409, db)
  | Saga.compensate ↦ committed commits saga (compensate_decision key d.command saga db) db
  | Saga.apply ↦ elim (d.new_status) [
    | none ↦ (http_error 500, db)
    | some s ↦
        committed commits (record saga { status = s }) (apply_decision key e s d.command saga db) db
  ]
]

-- _check_idempotency_or_return_cached, when the key is there already.
unfoldable pub replay : Option ℕ → Database → Response SagaRow
replay none db = http_error 409
replay (some rid) db = elim (find_saga rid db.sagas) [ some s ↦ ok s | none ↦ http_error 409 ]

unfoldable pub advance_saga : Bool → ℕ → EventType → ℕ → Database → Response SagaRow × Database
unfolding replay carry_out
advance_saga commits order e key db = elim (find_key key db.keys) [
  | some result ↦ (replay result db, db)
  | none ↦ elim (find_saga order db.sagas) [
    | none ↦ (http_error 404, db)
    | some saga ↦ carry_out commits key e (resolve saga.status e saga.payment_method) saga db
  ]
]
