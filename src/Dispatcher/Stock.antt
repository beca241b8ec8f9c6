-- ===== src/Dispatcher/Stock.antt =====
-- The dispatcher (workers/saga-dispatcher/app/main.py) calling inventory-service
-- (services/inventory-service/app/services/inventory_service.py). What the other services answer,
-- and the number that stands for a key, are arguments.
use ecommerce_platform.Base.{ℕ, some, none, [], ◌∷◌, ◌≡◌, refl, true}
use ecommerce_platform.Base.Int.{pos, ◌≤ℤ◌, ◌<ℤ◌}
use ecommerce_platform.Base.Http.{Response, ok, http_error}
use ecommerce_platform.Saga.{inventory_reserved_event}
use ecommerce_platform.Dispatcher.Items.{ItemReservation}
use ecommerce_platform.Dispatcher.Handle.{
  Key, of_line, prefixed, Call, Answer, status, World, reserve_lines, advance,
}
use ecommerce_platform.Inventory.Table.{
  InventoryItem, Database, find_item, find_item_by_id, find_key,
}
use ecommerce_platform.Inventory.Service.{
  Faults, granted, ReserveRequest, reserve_inventory, release_inventory, consume_inventory,
}
use ecommerce_platform.Inventory.Service.Rejected.{reserve_rejects, rejection_replayed_as_success}

-- A handler's answer, as the dispatcher sees it.
abbrev pub answer {ℓ} : {A : Type ℓ} → Response A × Database → Answer × Database
answer (ok a, db) = (status 200, db)
answer (http_error code, db) = (status code, db)

abbrev pub request_for : ℕ → ItemReservation → ReserveRequest
request_for order r = record {
  product_id = r.product_id;
  quantity = r.quantity;
  order_id = some order;
}

module _ (faults : Faults) (elsewhere : Call → Answer) (number : Key → ℕ) where
  abbrev pub stock_world : World Database
  unfolding reserve_inventory release_inventory consume_inventory
  stock_world (Call.reserve_stock order r key) db =
      answer (reserve_inventory faults (request_for order r) (number key) db)
  stock_world (Call.release_order order key) db =
      answer (release_inventory faults (record { order_id = order; product_ids = [] }) db)
  stock_world (Call.release_products order ps key) db =
      answer (release_inventory faults (record { order_id = order; product_ids = ps }) db)
  stock_world (Call.consume_products order ps key) db =
      answer (consume_inventory faults (record { order_id = order; product_ids = ps }) db)
  stock_world call db = (elsewhere call, db)

  -- An order with one line, of which there is less in stock than it asks for. After the first
  -- attempt at its reservation was rejected, a second attempt at the same command tells the saga
  -- that the inventory is reserved, with no further change to the stock; and the rejection had
  -- reserved nothing.
  pub retry_reports_reserved :
      (msg order : ℕ) (r : ItemReservation) (i : InventoryItem) (db : Database)
      → faults.lock r.product_id ≡ granted
      → faults.commits ≡ true
      → find_key (number (of_line msg r.product_id)) db.keys ≡ none
      → find_item r.product_id db.items ≡ some i
      → find_item_by_id i.id db.items ≡ some i
      → pos 1 ≤ℤ r.quantity
      → i.level.quantity_available <ℤ r.quantity
      → let db' =
          (reserve_inventory faults
            (request_for order r)
            (number (of_line msg r.product_id))
            db).1 in
        (db'.reservations ≡ db.reservations)
        × (reserve_lines stock_world msg order (r ∷ []) db'
            ≡ advance stock_world order inventory_reserved_event (prefixed "inv-res" msg) db')
  unfolding reserve_lines stock_world
  retry_reports_reserved msg order r i db l c k f by_id one short =
      let key = number (of_line msg r.product_id) in
      let first = reserve_rejects faults (request_for order r) key i db l c k f one short in
      let (_, again) =
        rejection_replayed_as_success faults faults (request_for order r) key i db l c k f by_id one
          short in
      (rw first refl, rw (reserve_lines, again) refl)
