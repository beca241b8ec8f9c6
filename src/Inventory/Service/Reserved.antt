-- ===== src/Inventory/Service/Reserved.antt =====
-- reserve_inventory of services/inventory-service/app/services/inventory_service.py, the invariant of
-- the tables, and the key of a request.
use ecommerce_platform.Base.Int.{zero-+ℤ, ◌≤ℤ◌, +ℤ_assoc, int_laws, ◌+ℤ◌, +ℤ-zero, pos}
use ecommerce_platform.Base.{
  ==_refl, refl, ap, inr, ◌==◌, ◌∷◌, ◌∙◌, if◌then◌else◌, Option-cases, List, some, sym, Bool, ℕ,
  arith, Bool-cases, ◌&&◌, false, ◌++◌, inl, ◌≡◌, [], ==_iff, true,
}
use mathlib.Core.Path.{subst}
use ecommerce_platform.Base.Http.{Response, ok, http_error}
use ecommerce_platform.Inventory.{StockLevel}
use ecommerce_platform.Inventory.Table.{
  InventoryItem, InventoryReservation, Database, find_item, find_item_by_id, find_key, set_level,
  find_item-set_level,
}
use ecommerce_platform.Inventory.Service.{
  Faults, ReserveRequest, hold_row, replay, reserve_inventory,
}
use ecommerce_platform.Inventory.Service.Settle.{units_of, Positive}
use ecommerce_platform.Inventory.Service.Reserve.{hold, held_database, Reserves, reserve-Reserves}
use ecommerce_platform.Inventory.Invariant.{live, held_units, Covers, IsSound}

units-append :
    (chosen : InventoryReservation → Bool) (p : ℕ) (rows more : List InventoryReservation)
    → units_of chosen p (rows ++ more) ≡ units_of chosen p rows +ℤ units_of chosen p more
units-append chosen p [] more = sym (zero-+ℤ (units_of chosen p more))
units-append chosen p (r ∷ rs) more =
    let own = if chosen r && r.product_id == p then r.quantity else pos 0 in
    ap (λ t. own +ℤ t) (units-append chosen p rs more)
    ∙ sym (+ℤ_assoc own (units_of chosen p rs) (units_of chosen p more))

Positive-append :
    (rows more : List InventoryReservation)
    → Positive live rows
    → Positive live more
    → Positive live (rows ++ more)
Positive-append [] more h k = k
Positive-append (r ∷ rs) more h k = (h.0, Positive-append rs more h.1 k)

module _ (request : ReserveRequest) (one : pos 1 ≤ℤ request.quantity) where
  row-Positive : Positive live (hold_row request)
  row-Positive = elim (Option-cases request.order_id) [
    | inl n ↦ rw (hold_row, n) tt
    | inr (order, s) ↦ rw (hold_row, s) (λ h. one, tt)
  ]

  row_other : (p : ℕ) → (request.product_id == p) ≡ false → held_units p (hold_row request) ≡ pos 0
  row_other p e = elim (Option-cases request.order_id) [
    | inl n ↦ rw (hold_row, n)
    | inr (order, s) ↦ rw (hold_row, s) (rw e (zero-+ℤ (pos 0)))
  ]

  row_own :
      (p : ℕ)
      → (request.product_id == p) ≡ true
      → held_units p (hold_row request) ≤ℤ request.quantity
  row_own p e = elim (Option-cases request.order_id) [
    | inl n ↦ rw (hold_row, n) (omega (arith, one))
    | inr (order, s) ↦ rw (hold_row, s) (rw (e, +ℤ-zero) (omega arith))
  ]

  held-Covers :
      (p : ℕ) (i : InventoryItem) (db : Database)
      → IsSound db
      → find_item request.product_id db.items ≡ some i
      → request.quantity ≤ℤ i.level.quantity_available
      → Covers
          (find_item p (set_level request.product_id (hold request.quantity i.level) db.items))
          (held_units p (db.reservations ++ hold_row request))
  held-Covers p i db sound f room =
      rw
        (
          find_item-set_level p request.product_id (hold request.quantity i.level) db.items,
          units-append live p db.reservations (hold_row request),
        )
        (elim (Bool-cases (request.product_id == p)) [
          | inl e ↦
              let f' : find_item p db.items ≡ some i =
                rw ((==_iff request.product_id p).0 e) at f in
              let before : Covers (some i) (held_units p db.reservations) =
                rw f' at (sound.covered p) in
              rw (e, f') (omega (int_laws, room), omega (int_laws, before, row_own p e))
          | inr e ↦ rw (e, row_other p e, +ℤ-zero) (sound.covered p)
        ])

  held-IsSound :
      (key : ℕ) (i : InventoryItem) (db : Database)
      → IsSound db
      → find_item request.product_id db.items ≡ some i
      → request.quantity ≤ℤ i.level.quantity_available
      → IsSound (held_database request key i db)
  held-IsSound key i db sound f room = record {
    covered = λ p. held-Covers p i db sound f room;
    positive = Positive-append db.reservations (hold_row request) sound.positive row-Positive;
  }

Reserves-IsSound :
    (request : ReserveRequest) (key : ℕ) (db : Database) (res : Response InventoryItem × Database)
    → IsSound db
    → Reserves request key db res
    → IsSound res.1
Reserves-IsSound request key db (http_error code, db') sound (inl e) = subst IsSound (sym e) sound
Reserves-IsSound request key db (http_error code, db') sound (inr (i, f, short, c, e)) =
    subst IsSound (sym e) (record { covered = sound.covered; positive = sound.positive })
Reserves-IsSound request key db (ok item, db') sound (inl (rid, k, f, e)) =
    subst IsSound (sym e) sound
Reserves-IsSound request key db (ok item, db') sound (inr (i, f, one, room, s, e)) =
    subst IsSound (sym e) (held-IsSound request one key i db sound f room)

-- A reservation request keeps the database sound, whatever the locks and the commit do: what is
-- available never becomes negative, and every live row stays covered.
pub reserve-IsSound :
    (faults : Faults) (request : ReserveRequest) (key : ℕ) (db : Database)
    → IsSound db
    → IsSound (reserve_inventory faults request key db).1
reserve-IsSound faults request key db sound =
    Reserves-IsSound request key db (reserve_inventory faults request key db) sound
      (reserve-Reserves faults request key db)

found_by_id :
    (p : ℕ) (l : StockLevel) (i : InventoryItem) (items : List InventoryItem)
    → find_item p items ≡ some i
    → (j : InventoryItem) × (find_item_by_id i.id (set_level p l items) ≡ some j) × (j.id ≡ i.id)
found_by_id p l i [] f = cc
found_by_id p l i (x ∷ xs) f = elim (Bool-cases (x.product_id == p)) [
  | inl e ↦
      let same : x ≡ i = cc (rw e at f) in
      let same_id : x.id ≡ i.id = ap (λ (t : InventoryItem). t.id) same in
      rw e (record x { level = l }, rw (same_id, ==_refl i.id), same_id)
  | inr e ↦
      let later = found_by_id p l i xs (rw e at f) in
      elim (Bool-cases (x.id == i.id)) [
        | inl d ↦ rw (e, d) (x, refl, (==_iff x.id i.id).0 d)
        | inr d ↦ rw (e, d) later
      ]
]

bound_key :
    (faults : Faults) (request : ReserveRequest) (key rid : ℕ) (db : Database) (j : InventoryItem)
    → find_key key db.keys ≡ some (some rid)
    → find_item_by_id rid db.items ≡ some j
    → reserve_inventory faults request key db ≡ (ok j, db)
unfolding reserve_inventory replay
bound_key faults request key rid db j k s = rw (reserve_inventory, k, replay, s)

-- The answer of a later request with a key that a call has answered with an item.
abbrev Replays : Faults → ReserveRequest → ℕ → ℕ → Database → Type 0
Replays faults request key id db =
    (j : InventoryItem) × (reserve_inventory faults request key db ≡ (ok j, db)) × (j.id ≡ id)

Reserves-Replays :
    (faults : Faults) (request request' : ReserveRequest) (key : ℕ) (db db' : Database)
    (item : InventoryItem)
    → Reserves request key db (ok item, db')
    → Replays faults request' key item.id db'
Reserves-Replays faults request request' key db db' item (inl (rid, k, s, e)) =
    subst (Replays faults request' key item.id) (sym e)
      (item, bound_key faults request' key rid db item k s, refl)
Reserves-Replays faults request request' key db db' item (inr (i, f, one, room, s, e)) =
    let after = held_database request key i db in
    let (j, found, same) =
      found_by_id request.product_id (hold request.quantity i.level) i db.items f in
    let key_bound : find_key key after.keys ≡ some (some i.id) = rw (==_refl key) in
    subst (Replays faults request' key item.id) (sym e) (
      j,
      bound_key faults request' key i.id after j key_bound found,
      same ∙ sym (ap (λ (t : InventoryItem). t.id) s),
    )

-- Once a request with a key has been answered with an item, every later request with that key is
-- answered with an item of the same id, whatever it asks for, and changes nothing.
pub reserve_replay :
    (faults faults' : Faults) (request request' : ReserveRequest) (key : ℕ) (db db' : Database)
    (item : InventoryItem)
    → reserve_inventory faults request key db ≡ (ok item, db')
    → (j : InventoryItem) × (reserve_inventory faults' request' key db' ≡ (ok j, db'))
      × (j.id ≡ item.id)
reserve_replay faults faults' request request' key db db' item e =
    Reserves-Replays faults' request request' key db db' item
      (subst (Reserves request key db) e (reserve-Reserves faults request key db))
