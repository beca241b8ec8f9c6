-- ===== src/Inventory/Tests.antt =====
-- A small warehouse (services/inventory-service/app/services/inventory_service.py): product 1 has
-- five units available, and order 7 holds two.
use ecommerce_platform.Base.{List, [], ◌∷◌, ◌==◌, inr, Bool-cases, refl, true, inl, some, arith}
use ecommerce_platform.Base.Int.{◌+ℤ◌, ◌+ℤ◌, ◌-ℤ◌, pos, ◌≤ℤ◌}
use ecommerce_platform.Inventory.{StockLevel}
use ecommerce_platform.Inventory.Table.{InventoryItem, held, Database}
use ecommerce_platform.Inventory.Service.{
  Faults, granted, contended, ReserveRequest, reserve_inventory, SettleRequest, SettleResponse,
  releasing, consuming, release_inventory, consume_inventory,
}
use ecommerce_platform.Inventory.Service.Release.{put_back, retire, Done}
use ecommerce_platform.Inventory.Service.Keeps.{release-Done, consume-Done}
use ecommerce_platform.Inventory.Service.Reserve.{Reserves, reserve-Reserves}
use ecommerce_platform.Inventory.Invariant.{held_units, IsSound}
use ecommerce_platform.Inventory.Runs.{
  Step, read, reserve, settle, release, run, are_apart, begin, never_oversold,
}

abbrev five_two : StockLevel
five_two = record { quantity_available = pos 5; quantity_reserved = pos 2 }

abbrev shelf : InventoryItem
shelf = record { id = 10; product_id = 1; level = five_two }

abbrev warehouse : Database
warehouse = record {
  items = shelf ∷ [];
  reservations = record { order_id = 7; product_id = 1; quantity = pos 2; status = held } ∷ [];
  outbox = [];
  keys = [];
}

abbrev smooth : Faults
smooth = record { lock = λ p. granted; commits = true }

abbrev jammed : Faults
jammed = record { lock = λ p. contended; commits = true }

abbrev three_more : ReserveRequest
three_more = record { product_id = 1; quantity = pos 3; order_id = some 8 }

abbrev nine_more : ReserveRequest
nine_more = record { product_id = 1; quantity = pos 9; order_id = some 9 }

abbrev give_back : SettleRequest
give_back = record { order_id = 7; product_ids = [] }

warehouse-IsSound : IsSound warehouse
unfolding ◌+ℤ◌
warehouse-IsSound = record {
  covered = λ p. elim (Bool-cases (1 == p)) [
    | inl e ↦ rw e (omega arith, omega arith)
    | inr e ↦ rw e refl
  ];
  positive = (λ h. omega arith, tt);
}

release-Done_example :
    Done releasing put_back smooth give_back warehouse
      (release_inventory smooth give_back warehouse)
release-Done_example = release-Done smooth give_back warehouse warehouse-IsSound

consume-Done_example :
    Done consuming retire smooth give_back warehouse (consume_inventory smooth give_back warehouse)
consume-Done_example = consume-Done smooth give_back warehouse warehouse-IsSound

abbrev settled_two : SettleResponse
settled_two = record { units = pos 2; reservations = 1 }

abbrev nothing : SettleResponse
nothing = record { units = pos 0; reservations = 0 }

abbrev returned_warehouse : Database
unfolding release_inventory
returned_warehouse = (release_inventory smooth give_back warehouse).1

abbrev shipped_warehouse : Database
unfolding consume_inventory
shipped_warehouse = (consume_inventory smooth give_back warehouse).1

reserve-Reserves_example :
    Reserves three_more 50 warehouse (reserve_inventory smooth three_more 50 warehouse)
reserve-Reserves_example = reserve-Reserves smooth three_more 50 warehouse

abbrev fuller_warehouse : Database
unfolding reserve_inventory
fuller_warehouse = (reserve_inventory smooth three_more 50 warehouse).1

abbrev two_five : StockLevel
two_five = record { quantity_available = pos 2; quantity_reserved = pos 5 }

abbrev shelf_after : InventoryItem
shelf_after = record shelf { level = two_five }

-- The release of order 7 has read its row when two reservations come.
abbrev steps : List Step
steps =
    read 1 release give_back
    ∷ reserve smooth three_more 50
    ∷ reserve smooth nine_more 51
    ∷ settle 1 smooth
    ∷ []

abbrev shelf_later : InventoryItem
shelf_later = record shelf {
  level = record { quantity_available = pos 4; quantity_reserved = pos 3 };
}

never_oversold_example :
    (pos 0 ≤ℤ pos 4) × (held_units 1 (run steps (begin warehouse)).db.reservations ≤ℤ pos 3)
unfolding run are_apart ◌-ℤ◌ ◌+ℤ◌
never_oversold_example = never_oversold steps warehouse 1 shelf_later warehouse-IsSound refl refl
