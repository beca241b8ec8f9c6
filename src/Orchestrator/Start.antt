-- ===== src/Orchestrator/Start.antt =====
-- start_saga of services/order-saga/app/services/saga_orchestrator.py. The identifiers that uuid4
-- gives out are arguments: the saga's, and that of the n-th seller order. The total's lower bound,
-- which the request's schema checks before, is left out.
pub mod Placed
pub mod Billed
pub mod Family
use ecommerce_platform.Base.{suc, Bool, some, none, ℕ, List, [], ◌∷◌, ◌++◌, map}
use ecommerce_platform.Base.Int.{ℤ}
use ecommerce_platform.Base.Http.{Response, http_error}
use ecommerce_platform.Dispatcher.Items.{ItemsPayload}
use ecommerce_platform.Saga.{SagaStatus, PaymentMethod}
use ecommerce_platform.SellerOrder.{SellerOrderStatus}
use ecommerce_platform.SellerOrder.Split.{
  PlannedLine, SellerOrderPlan, split, split_error, value_error, item_count, split_by_seller,
}
use ecommerce_platform.Orchestrator.{
  SagaRow, SellerOrderRow, OrderLine, seller_order_created, reserve_inventory, Database, find_key,
  replay, committed,
}

pub record CreateOrderRequest : Type 0 where
  pub user_id : ℕ
  pub total_cents : ℤ
  pub items_payload : ItemsPayload

-- The new saga; its payment method is the column's default.
abbrev pub new_saga : ℕ → CreateOrderRequest → SagaRow
new_saga order request = record {
  id = order;
  user_id = request.user_id;
  status = SagaStatus.pending;
  payment_method = PaymentMethod.cod;
  total_cents = request.total_cents;
}

abbrev pub new_seller_order : ℕ → ℕ → SellerOrderPlan → SellerOrderRow
unfolding item_count
new_seller_order order id plan = record {
  id = id;
  order_id = order;
  seller_id = plan.seller_id;
  status = SellerOrderStatus.pending;
  status_reason = none;
  subtotal_cents = plan.subtotal_cents;
  item_count = item_count plan;
  courier_name = none;
  tracking_code = none;
}

abbrev pub new_line : ℕ → ℕ → ℕ → PlannedLine → OrderLine
new_line order id seller l = record {
  order_id = order;
  seller_order_id = id;
  product_id = l.product_id;
  seller_id = seller;
  quantity = l.quantity;
  price_cents = l.price_cents;
  line_total_cents = l.line_total_cents;
}

-- One pass of the loop over the plans, and the loop; `n` passes are behind it.
unfoldable pub add_plan : ℕ → ℕ → ℕ → SellerOrderPlan → Database → Database
unfolding new_seller_order
add_plan user order id plan db =
    let row = new_seller_order order id plan in
    record db {
      seller_orders = db.seller_orders ++ row ∷ [];
      lines = db.lines ++ map (new_line order id plan.seller_id) plan.lines;
      outbox = db.outbox ++ seller_order_created user row plan ∷ [];
    }

abbrev pub add_plans : ℕ → ℕ → (ℕ → ℕ) → ℕ → List SellerOrderPlan → Database → Database
unfolding add_plan
add_plans user order new_id n [] db = db
add_plans user order new_id n (p ∷ ps) db =
    add_plans user order new_id (suc n) ps (add_plan user order (new_id n) p db)

-- The writes of start_saga for a cart that splits.
unfoldable pub written :
    ℕ → (ℕ → ℕ) → ℕ → CreateOrderRequest → List SellerOrderPlan → Database → Database
unfolding add_plans
written order new_id key request plans db =
    let with_saga = record db { sagas = new_saga order request ∷ db.sagas } in
    let with_orders = add_plans request.user_id order new_id 0 plans with_saga in
    record with_orders {
      outbox =
          with_orders.outbox ++ reserve_inventory order request.user_id request.items_payload ∷ [];
      keys = (key, some order) ∷ with_orders.keys;
    }

unfoldable pub start_saga :
    Bool → ℕ → (ℕ → ℕ) → CreateOrderRequest → ℕ → Database → Response SagaRow × Database
unfolding replay written split_by_seller
start_saga commits order new_id request key db = elim (find_key key db.keys) [
  | some result ↦ (replay result db, db)
  | none ↦ elim (split_by_seller request.items_payload) [
    | split_error ↦ (http_error 422, db)
    | value_error ↦ (http_error 500, db)
    | split plans ↦
        committed commits (new_saga order request) (written order new_id key request plans db) db
  ]
]
