-- ===== src/Orchestrator/Tests.antt =====
-- One order on its way through services/order-saga/app/services/saga_orchestrator.py: the saga 7,
-- with one seller order 31.
use ecommerce_platform.Base.{
  [], ◌∷◌, ◌≡◌, refl, true, none, List, ℕ, some, ◌+◌, List, ◌==◌, arith, [], ◌∷◌, ◌≡◌, refl, true,
  none,
}
use ecommerce_platform.Base.Int.{◌+ℤ◌, pos}
use ecommerce_platform.Saga.{SagaStatus, PaymentMethod, payment_failed}
use ecommerce_platform.Saga.Run
use ecommerce_platform.Saga.Run.{step}
use ecommerce_platform.SellerOrder.{SellerOrderStatus, deliver}
use ecommerce_platform.Orchestrator.{SagaRow, SellerOrderRow, Database, advance_saga}
use ecommerce_platform.Orchestrator.Advance.{Shows, advance_saga-Shows}
use ecommerce_platform.Orchestrator.SellerOrders.{
  TransitionRequest, Stored, transition_seller_order, transition_seller_order-Stored,
}
use ecommerce_platform.Orchestrator.Children.{agrees}
use ecommerce_platform.Base.{[], ◌∷◌, ◌≡◌, refl, true, none, List, ℕ, ◌+◌, ◌==◌, some, arith}
use ecommerce_platform.Base.Int.{◌+ℤ◌}
use ecommerce_platform.Base.Http.{ok}
use ecommerce_platform.Saga.{inventory_reserved_event}
use ecommerce_platform.SellerOrder.{confirm}
use ecommerce_platform.Dispatcher.Items.{Item, line, int, plain, a_list}
use ecommerce_platform.Orchestrator.Start.{CreateOrderRequest, new_saga, start_saga}
use ecommerce_platform.Orchestrator.Start.Placed.{Placed, start_saga-Placed, start_saga_again}
use ecommerce_platform.Orchestrator.Start.Billed.{Billed, Unused, billed, start_saga-Billed}
use ecommerce_platform.Orchestrator.Runs.{
  Request, start, advance, move, reaper, serve_all, children_follow_saga,
}

abbrev order_row : SagaStatus → SagaRow
order_row s = record {
  id = 7;
  user_id = 3;
  status = s;
  payment_method = PaymentMethod.card;
  total_cents = pos 999;
}

abbrev child_row : SellerOrderStatus → SellerOrderRow
child_row s = record {
  id = 31;
  order_id = 7;
  seller_id = 4;
  status = s;
  status_reason = none;
  subtotal_cents = pos 999;
  item_count = pos 1;
  courier_name = none;
  tracking_code = none;
}

abbrev orders : SagaStatus → SellerOrderStatus → Database
orders s c = record {
  sagas = order_row s ∷ [];
  seller_orders = child_row c ∷ [];
  lines =
      record {
        order_id = 7;
        seller_order_id = 31;
        product_id = 1;
        seller_id = 4;
        quantity = pos 1;
        price_cents = pos 999;
        line_total_cents = pos 999;
      }
      ∷ [];
  outbox = [];
  keys = [];
}

abbrev reserved_orders : Database
reserved_orders = orders SagaStatus.inventory_reserved SellerOrderStatus.inventory_reserved

abbrev doorstep : TransitionRequest
doorstep = record { reason = ""; courier_name = none; tracking_code = none }

advance_saga-Shows_example :
    Shows
      (order_row SagaStatus.inventory_reserved)
      (step PaymentMethod.card SagaStatus.inventory_reserved (Run.deliver payment_failed))
      reserved_orders
      (advance_saga true 7 payment_failed 50 reserved_orders)
advance_saga-Shows_example =
    advance_saga-Shows 7 payment_failed 50 (order_row SagaStatus.inventory_reserved) reserved_orders
      refl refl

transition_seller_order-Stored_example :
    Stored 7 31 (orders SagaStatus.paid SellerOrderStatus.dispatched) (
      transition_seller_order true 7 31 deliver doorstep
        (orders SagaStatus.paid SellerOrderStatus.dispatched))
transition_seller_order-Stored_example =
    transition_seller_order-Stored 7 31 deliver doorstep
      (orders SagaStatus.paid SellerOrderStatus.dispatched)

abbrev failed_orders : Database
failed_orders = orders SagaStatus.failed SellerOrderStatus.dispatched

abbrev stranded_orders : Database
stranded_orders = orders SagaStatus.timed_out SellerOrderStatus.confirmed

abbrev cart_line : ℕ → ℕ → Item
cart_line s p = line (record {
  product_id = some p;
  seller_id = some s;
  quantity = int (pos 2);
  price_cents = int (pos 250);
  line_total_cents = int (pos 500);
})

abbrev checkout : CreateOrderRequest
checkout = record {
  user_id = 3;
  total_cents = pos 1500;
  items_payload = plain (a_list (cart_line 5 2 ∷ cart_line 4 1 ∷ cart_line 5 1 ∷ []));
}

abbrev empty_cart : CreateOrderRequest
empty_cart = record { user_id = 3; total_cents = pos 1500; items_payload = plain (a_list []) }

-- The seller orders 40, 41, ...
abbrev new_id : ℕ → ℕ
new_id n = 40 + n

start_saga-Placed_example :
    Placed 8 checkout reserved_orders (start_saga true 8 new_id checkout 60 reserved_orders)
start_saga-Placed_example = start_saga-Placed true 8 new_id checkout 60 reserved_orders refl

abbrev checked_out : Database
unfolding start_saga
checked_out = (start_saga true 8 new_id checkout 60 reserved_orders).1

start_saga_again_example :
    start_saga true 9 new_id empty_cart 60 checked_out ≡ (ok (new_saga 8 checkout), checked_out)
unfolding start_saga
start_saga_again_example =
    start_saga_again true true 8 9 new_id new_id checkout empty_cart 60 reserved_orders
      (new_saga 8 checkout) refl

new_id_distinct : (i j : ℕ) → new_id i ≡ new_id j → i ≡ j
new_id_distinct i j e = omega (arith, e)

new_id-Unused : (i : ℕ) → Unused (new_id i) reserved_orders
new_id-Unused i = ((ground arith, tt), (ground arith, tt))

reserved_orders-Billed : Billed reserved_orders
unfolding billed ◌+ℤ◌
reserved_orders-Billed = (refl, tt)

start_saga-Billed_example : Billed (start_saga true 8 new_id checkout 60 reserved_orders).1
start_saga-Billed_example =
    start_saga-Billed true 8 new_id checkout 60 reserved_orders new_id_distinct new_id-Unused
      reserved_orders-Billed

abbrev requests : List Request
requests =
    start true 8 new_id checkout 60
    ∷ advance true 8 inventory_reserved_event 61
    ∷ move true 8 41 confirm doorstep
    ∷ advance true 7 payment_failed 62
    ∷ reaper (λ order. order == 8)
    ∷ []

children_follow_saga_example : agrees 7 (serve_all requests reserved_orders) ≡ true
children_follow_saga_example = children_follow_saga 7 requests reserved_orders refl
