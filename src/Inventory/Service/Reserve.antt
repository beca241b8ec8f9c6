-- ===== src/Inventory/Service/Reserve.antt =====
-- reserve_inventory of services/inventory-service/app/services/inventory_service.py, branch by branch.
use ecommerce_platform.Base.{
  arith, some, [], inl, Option-cases, none, refl, ◌⊎◌, ◌∷◌, ℕ, Bool-cases, ◌++◌, ◌&&◌, inr, ◌≡◌,
  Option, not,
}
use ecommerce_platform.Base.Int.{ltb_ℤ, pos, ℤ, ◌+ℤ◌, leb_ℤ, ◌≤ℤ◌, ◌<ℤ◌, ◌-ℤ◌}
use ecommerce_platform.Inventory.Service.Settle.{Lock-cases}
use ecommerce_platform.Base.Http.{Response, ok, http_error}
use ecommerce_platform.Inventory.{StockLevel, plan_reservation}
use ecommerce_platform.Inventory.Table.{
  InventoryItem, reserved_message, failed_message, Database, find_item, find_item_by_id, find_key,
  set_level,
}
use ecommerce_platform.Inventory.Service.{
  Faults, ReserveRequest, hold_row, breaks_unique, replay, reserve_plan, reserve_inventory,
}

-- Units moved from available to reserved.
abbrev pub hold : ℤ → StockLevel → StockLevel
hold q l = record {
  quantity_available = l.quantity_available -ℤ q;
  quantity_reserved = l.quantity_reserved +ℤ q;
}

-- The database after a reservation of the item, and after a rejection for want of stock.
abbrev pub held_database : ReserveRequest → ℕ → InventoryItem → Database → Database
held_database request key i db =
    let item = record i { level = hold request.quantity i.level } in
    record {
      items = set_level request.product_id (hold request.quantity i.level) db.items;
      reservations = db.reservations ++ hold_row request;
      outbox = db.outbox ++ reserved_message item request.quantity ∷ [];
      keys = (key, some i.id) ∷ db.keys;
    }

abbrev pub rejected_database : ReserveRequest → ℕ → InventoryItem → Database → Database
rejected_database request key i db = record db {
  outbox = db.outbox ++ failed_message i request.quantity ∷ [];
  keys = (key, some i.id) ∷ db.keys;
}

-- What a call has done, by how it ended.
abbrev pub Reserves : ReserveRequest → ℕ → Database → Response InventoryItem × Database → Type 0
Reserves request key db (http_error code, db') =
    (db' ≡ db)
    ⊎ ((i : InventoryItem) × (find_item request.product_id db.items ≡ some i)
        × (i.level.quantity_available <ℤ request.quantity)
        × (code ≡ 409)
        × (db' ≡ rejected_database request key i db))
Reserves request key db (ok item, db') =
    ((rid : ℕ) × (find_key key db.keys ≡ some (some rid))
      × (find_item_by_id rid db.items ≡ some item)
      × (db' ≡ db))
    ⊎ ((i : InventoryItem) × (find_item request.product_id db.items ≡ some i)
        × (pos 1 ≤ℤ request.quantity)
        × (request.quantity ≤ℤ i.level.quantity_available)
        × (item ≡ record i { level = hold request.quantity i.level })
        × (db' ≡ held_database request key i db))

replayed :
    (request : ReserveRequest) (key : ℕ) (db : Database) (result : Option ℕ)
    → find_key key db.keys ≡ some result
    → Reserves request key db (replay result db, db)
unfolding replay
replayed request key db none e = inl refl
replayed request key db (some rid) e = elim (Option-cases (find_item_by_id rid db.items)) [
  | inl n ↦ rw (replay, n) (inl refl)
  | inr (i, s) ↦ rw (replay, s) (inl (rid, e, s, refl))
]

planned :
    (faults : Faults) (request : ReserveRequest) (key : ℕ) (db : Database)
    (o : Option InventoryItem)
    → find_item request.product_id db.items ≡ o
    → Reserves request key db (reserve_plan faults request key o db)
unfolding reserve_plan
planned faults request key db none e = elim (Bool-cases (leb_ℤ request.quantity (pos 0))) [
  | inl low ↦ rw (reserve_plan, plan_reservation, low) (inl refl)
  | inr high ↦ rw (reserve_plan, plan_reservation, high) (inl refl)
]
planned faults request key db (some i) e = elim (Bool-cases (leb_ℤ request.quantity (pos 0))) [
  | inl low ↦ rw (reserve_plan, plan_reservation, low) (inl refl)
  | inr high ↦ elim (Bool-cases (ltb_ℤ i.level.quantity_available request.quantity)) [
    | inl short ↦ elim (Bool-cases faults.commits) [
      | inl c ↦
          rw (reserve_plan, plan_reservation, high, short, c) (inr (i, e, ground arith, refl, refl))
      | inr c ↦ rw (reserve_plan, plan_reservation, high, short, c) (inl refl)
    ]
    | inr covered ↦ elim (Bool-cases (faults.commits && not (breaks_unique request db))) [
      | inl c ↦
          rw (reserve_plan, plan_reservation, high, covered, high, covered, c)
            (inr (i, e, ground arith, ground arith, refl, refl))
      | inr c ↦ rw (reserve_plan, plan_reservation, high, covered, high, covered, c) (inl refl)
    ]
  ]
]

-- Every call ends in one of four ways. It fails and changes nothing; or the product has less
-- available than was asked, and the call answers 409, adds one failure message and binds the key;
-- or the key is bound already, and the bound item is answered with nothing changed; or a positive
-- quantity, no more than what is available, is moved from available to reserved, recorded for the
-- order if there is one, announced once, and bound to the key.
pub reserve-Reserves :
    (faults : Faults) (request : ReserveRequest) (key : ℕ) (db : Database)
    → Reserves request key db (reserve_inventory faults request key db)
unfolding reserve_inventory
reserve-Reserves faults request key db = elim (Option-cases (find_key key db.keys)) [
  | inr (result, e) ↦ rw (reserve_inventory, e) (replayed request key db result e)
  | inl fresh ↦ elim (Lock-cases (faults.lock request.product_id)) [
    | inl g ↦
        rw (reserve_inventory, fresh, g)
          (planned faults request key db (find_item request.product_id db.items) refl)
    | inr (inl e) ↦ rw (reserve_inventory, fresh, e) (inl refl)
    | inr (inr e) ↦ rw (reserve_inventory, fresh, e) (inl refl)
  ]
]
