-- ===== src/Inventory/Table.antt =====
-- The tables of inventory-service: services/inventory-service/app/models.py, with the indexes of
-- migrations/011_inventory_db_reservations.sql. Timestamps are left out.
use ecommerce_platform.Base.{
  none, List, true, ℕ, Bool, ◌≡◌, ◌||◌, Option, ◌&&◌, arith, ◌∷◌, elem, some, false, ◌==◌, [],
  if◌then◌else◌,
}
use ecommerce_platform.Base.Int.{ℤ}
use ecommerce_platform.Inventory.{StockLevel}

pub record InventoryItem : Type 0 where
  pub id : ℕ
  pub product_id : ℕ
  pub level : StockLevel

pub data HoldStatus : Type 0 where
  held released consumed : HoldStatus

pub record InventoryReservation : Type 0 where
  pub order_id : ℕ
  pub product_id : ℕ
  pub quantity : ℤ
  pub status : HoldStatus

-- The outbox rows, with what their payloads carry.
pub data OutboxMessage : Type 0 where
  reserved_message : InventoryItem → ℤ → OutboxMessage
  failed_message : InventoryItem → ℤ → OutboxMessage
  released_message : InventoryItem → InventoryReservation → OutboxMessage
  consumed_message : InventoryItem → InventoryReservation → OutboxMessage

-- A key and the id of its result, which is NULL until one is bound.
abbrev pub IdempotencyKey : Type 0
IdempotencyKey = ℕ × Option ℕ

pub record Database : Type 0 where
  pub items : List InventoryItem
  pub reservations : List InventoryReservation
  pub outbox : List OutboxMessage
  pub keys : List IdempotencyKey

-- select(InventoryItem).where(product_id == p)
abbrev pub find_item : ℕ → List InventoryItem → Option InventoryItem
find_item p [] = none
find_item p (i ∷ is) = if i.product_id == p then some i else find_item p is

-- select(InventoryItem).where(id == n)
abbrev pub find_item_by_id : ℕ → List InventoryItem → Option InventoryItem
find_item_by_id n [] = none
find_item_by_id n (i ∷ is) = if i.id == n then some i else find_item_by_id n is

-- Writing the two quantities of the row with this product.
abbrev pub set_level : ℕ → StockLevel → List InventoryItem → List InventoryItem
set_level p l [] = []
set_level p l (i ∷ is) =
    if i.product_id == p then record i { level = l } ∷ is else i ∷ set_level p l is

abbrev pub find_key : ℕ → List IdempotencyKey → Option (Option ℕ)
find_key k [] = none
find_key k ((j, r) ∷ ks) = if j == k then some r else find_key k ks

abbrev pub with_level : StockLevel → Option InventoryItem → Option InventoryItem
with_level l none = none
with_level l (some i) = some (record i { level = l })

pub find_item-set_level :
    (j p : ℕ) (l : StockLevel) (is : List InventoryItem)
    → find_item j (set_level p l is)
      ≡ (if p == j then with_level l (find_item j is) else find_item j is)
find_item-set_level j p l [] = ground arith
find_item-set_level j p l (i ∷ is) = ground (arith, find_item-set_level j p l is)

abbrev pub level_of : Option InventoryItem → Option StockLevel
level_of none = none
level_of (some i) = some i.level

abbrev pub is_held : HoldStatus → Bool
is_held held = true
is_held released = false
is_held consumed = false

abbrev pub is_nil : List ℕ → Bool
is_nil [] = true
is_nil (p ∷ ps) = false

-- The WHERE clause of release and consume: the order's live rows, of the named products if any are
-- named.
abbrev pub selects : ℕ → List ℕ → InventoryReservation → Bool
selects order products r =
    r.order_id == order && is_held r.status && (is_nil products || elem r.product_id products)

-- The partial unique index on (order_id, product_id) where status = 'held'.
abbrev pub has_live : ℕ → ℕ → List InventoryReservation → Bool
has_live order p [] = false
has_live order p (r ∷ rs) =
    r.order_id == order && r.product_id == p && is_held r.status || has_live order p rs
