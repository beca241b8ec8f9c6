-- ===== src/Inventory/Service/Rejected.antt =====
-- A reservation that was rejected for want of stock, asked for again with its key:
-- reserve_inventory of services/inventory-service/app/services/inventory_service.py.
use ecommerce_platform.Base.{ℕ, some, none, ◌≡◌, refl, arith, ==_refl, true}
use ecommerce_platform.Base.Int.{pos, ◌≤ℤ◌, ◌<ℤ◌}
use ecommerce_platform.Base.Http.{ok, http_error}
use ecommerce_platform.Inventory.{plan_reservation, insufficient, StockLevel}
use ecommerce_platform.Inventory.Table.{
  InventoryItem, Database, find_item, find_item_by_id, find_key,
}
use ecommerce_platform.Inventory.Service.{
  Faults, granted, ReserveRequest, reserve_inventory, reserve_plan, commit_insufficient, replay,
}
use ecommerce_platform.Inventory.Service.Reserve.{rejected_database}

short_plan :
    (l : StockLevel) (request : ReserveRequest)
    → pos 1 ≤ℤ request.quantity
    → l.quantity_available <ℤ request.quantity
    → (plan_reservation (some l) request.quantity).outcome ≡ insufficient
unfolding plan_reservation
short_plan l request one short = ground arith

pub reserve_rejects :
    (faults : Faults) (request : ReserveRequest) (key : ℕ) (i : InventoryItem) (db : Database)
    → faults.lock request.product_id ≡ granted
    → faults.commits ≡ true
    → find_key key db.keys ≡ none
    → find_item request.product_id db.items ≡ some i
    → pos 1 ≤ℤ request.quantity
    → i.level.quantity_available <ℤ request.quantity
    → reserve_inventory faults request key db ≡ (http_error 409, rejected_database request key i db)
unfolding reserve_inventory reserve_plan commit_insufficient
reserve_rejects faults request key i db l c k f one short = rw (
  reserve_inventory,
  k,
  l,
  f,
  reserve_plan,
  short_plan i.level request one short,
  commit_insufficient,
  c,
)

-- A request for more than is available, with a key that was not used before, a lock that is
-- granted and a commit that succeeds, is answered 409; and when the same request is made again with
-- the same key, it is answered with the item, as a reservation that succeeded is, although it
-- changes nothing.
pub rejection_replayed_as_success :
    (faults faults' : Faults) (request : ReserveRequest) (key : ℕ) (i : InventoryItem)
    (db : Database)
    → faults.lock request.product_id ≡ granted
    → faults.commits ≡ true
    → find_key key db.keys ≡ none
    → find_item request.product_id db.items ≡ some i
    → find_item_by_id i.id db.items ≡ some i
    → pos 1 ≤ℤ request.quantity
    → i.level.quantity_available <ℤ request.quantity
    → let db' = (reserve_inventory faults request key db).1 in
      ((reserve_inventory faults request key db).0 ≡ http_error 409)
      × (reserve_inventory faults' request key db' ≡ (ok i, db'))
unfolding reserve_inventory replay
rejection_replayed_as_success faults faults' request key i db l c k f by_id one short =
    rw (reserve_rejects faults request key i db l c k f one short)
      (refl, rw (reserve_inventory, ==_refl key, replay, by_id))
