-- ===== src/Inventory/Service/Keeps.antt =====
-- release_inventory and consume_inventory of
-- services/inventory-service/app/services/inventory_service.py, and the invariant of the tables.
use ecommerce_platform.Base.{sym, ap, refl, false, none, ◌≡◌, some, Option}
use ecommerce_platform.Base.Int.{eq_of_parts, pos, int_laws, pos_part, ℤ, neg_part, ◌+ℤ◌, ◌≤ℤ◌}
use mathlib.Core.Path.{subst}
use ecommerce_platform.Base.Int.{+ℤ_parts}
use ecommerce_platform.Base.Http.{Response, ok, http_error}
use ecommerce_platform.Inventory.{StockLevel}
use ecommerce_platform.Inventory.Table.{InventoryItem, Database, find_item, is_held}
use ecommerce_platform.Inventory.Service.{
  Faults, Settlement, SettleRequest, SettleResponse, settle, releasing, consuming,
  release_inventory, consume_inventory,
}
use ecommerce_platform.Inventory.Service.Settle.{
  IsSettlement, units_of, mark, shifted, units_nonneg,
}
use ecommerce_platform.Inventory.Service.Release.{
  put_back, retire, named, named-live, Done, settle-Done, releasing-IsSettlement,
  consuming-IsSettlement,
}
use ecommerce_platform.Inventory.Invariant.{
  live, held_units, Covers, IsSound, Positive-chosen, units-mark, Positive-mark, any-mark,
}

module _ (S : Settlement) (shift : ℤ → StockLevel → StockLevel) (law : IsSettlement S shift)
    (not_held : is_held S.final ≡ false)
    (available_kept : (a : ℤ) (l : StockLevel)
      → pos 0 ≤ℤ a
      → pos 0 ≤ℤ l.quantity_available
      → pos 0 ≤ℤ (shift a l).quantity_available) where
  Covers-shifted :
      (o : Option InventoryItem) (n m k : ℤ)
      → pos 0 ≤ℤ m
      → pos 0 ≤ℤ k
      → k +ℤ m ≡ n
      → Covers o n
      → Covers (shifted shift m o) k
  Covers-shifted none n m k nonneg kept e h = eq_of_parts k (pos 0) (
      omega (
        int_laws,
        nonneg,
        kept,
        ap pos_part h,
        ap neg_part h,
        ap pos_part e,
        ap neg_part e,
        +ℤ_parts k m,
      ))
  Covers-shifted (some i) n m k nonneg kept e h = (
    available_kept m i.level nonneg h.0,
    rw (law.reserved_shift m i.level) (omega (int_laws, h.1, ap pos_part e, ap neg_part e)),
  )

  Done-IsSound :
      (faults : Faults) (request : SettleRequest) (db : Database)
      (res : Response SettleResponse × Database)
      → IsSound db
      → Done S shift faults request db res
      → IsSound res.1
  Done-IsSound faults request db (http_error code, db') sound h = subst IsSound (sym h.0) sound
  Done-IsSound faults request db (ok answer, db') sound h =
      let chosen = named request in
      let rows = db.reservations in
      let positive = Positive-chosen chosen (named-live request) rows sound.positive in
      let marked = Positive-mark chosen (named-live request) S.final not_held rows sound.positive in
      record {
        covered = λ p.
            rw (h.2 p, h.1)
              (Covers-shifted (find_item p db.items) (held_units p rows) (units_of chosen p rows)
                (held_units p (mark S.final chosen rows)) (units_nonneg chosen p rows positive)
                (units_nonneg live p (mark S.final chosen rows) marked)
                (units-mark chosen (named-live request) S.final not_held p rows) (sound.covered p));
        positive =
            rw h.1 (Positive-mark chosen (named-live request) S.final not_held rows sound.positive);
      }

  Done_again :
      (faults faults' : Faults) (request : SettleRequest) (db : Database) (answer : SettleResponse)
      (db' : Database)
      → Done S shift faults request db (ok answer, db')
      → settle S faults' request db' ≡ (ok (record { units = pos 0; reservations = 0 }), db')
  unfolding settle
  Done_again faults faults' request db answer db' h =
      rw (settle, h.1)
        (rw (any-mark (named request) (named-live request) S.final not_held db.reservations))

put_back_available :
    (a : ℤ) (l : StockLevel)
    → pos 0 ≤ℤ a
    → pos 0 ≤ℤ l.quantity_available
    → pos 0 ≤ℤ (put_back a l).quantity_available
put_back_available a l h k = omega int_laws

-- On a sound database a release either fails and changes nothing, which happens only when the
-- database refuses a lock or the commit, or it marks the order's named live rows released, moves
-- exactly their units of each product from reserved back to available, and answers their number.
pub release-Done :
    (faults : Faults) (request : SettleRequest) (db : Database)
    → IsSound db
    → Done releasing put_back faults request db (release_inventory faults request db)
unfolding release_inventory
release-Done = settle-Done releasing put_back releasing-IsSettlement

-- On a sound database a consumption either fails and changes nothing, which happens only when the
-- database refuses a lock or the commit, or it marks the order's named live rows consumed, takes
-- exactly their units of each product out of reserved, leaves what is available, and answers
-- their number.
pub consume-Done :
    (faults : Faults) (request : SettleRequest) (db : Database)
    → IsSound db
    → Done consuming retire faults request db (consume_inventory faults request db)
unfolding consume_inventory
consume-Done = settle-Done consuming retire consuming-IsSettlement

-- A release keeps the database sound, whatever the locks and the commit do.
pub release-IsSound :
    (faults : Faults) (request : SettleRequest) (db : Database)
    → IsSound db
    → IsSound (release_inventory faults request db).1
unfolding releasing
release-IsSound faults request db sound =
    Done-IsSound releasing put_back releasing-IsSettlement refl put_back_available faults request db
      (release_inventory faults request db) sound (release-Done faults request db sound)

-- A consumption keeps the database sound, whatever the locks and the commit do.
pub consume-IsSound :
    (faults : Faults) (request : SettleRequest) (db : Database)
    → IsSound db
    → IsSound (consume_inventory faults request db).1
unfolding consuming
consume-IsSound faults request db sound =
    Done-IsSound consuming retire consuming-IsSettlement refl (λ a l h k. k) faults request db
      (consume_inventory faults request db) sound (consume-Done faults request db sound)

-- Once a release of an order has succeeded on a sound database, the same release succeeds again
-- with nothing to do, and changes nothing.
pub release_again :
    (faults faults' : Faults) (request : SettleRequest) (db db' : Database)
    (answer : SettleResponse)
    → IsSound db
    → release_inventory faults request db ≡ (ok answer, db')
    → release_inventory faults' request db' ≡ (ok (record { units = pos 0; reservations = 0 }), db')
unfolding release_inventory releasing
release_again faults faults' request db db' answer sound e =
    Done_again releasing put_back releasing-IsSettlement refl put_back_available faults faults'
      request db answer db'
      (subst (Done releasing put_back faults request db) e (release-Done faults request db sound))

-- Once a consumption for an order has succeeded on a sound database, the same consumption succeeds
-- again with nothing to do, and changes nothing.
pub consume_again :
    (faults faults' : Faults) (request : SettleRequest) (db db' : Database)
    (answer : SettleResponse)
    → IsSound db
    → consume_inventory faults request db ≡ (ok answer, db')
    → consume_inventory faults' request db' ≡ (ok (record { units = pos 0; reservations = 0 }), db')
unfolding consume_inventory consuming
consume_again faults faults' request db db' answer sound e =
    Done_again consuming retire consuming-IsSettlement refl (λ a l h k. k) faults faults' request db
      answer db'
      (subst (Done consuming retire faults request db) e (consume-Done faults request db sound))
