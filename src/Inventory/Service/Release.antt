-- ===== src/Inventory/Service/Release.antt =====
-- release_inventory and consume_inventory of
-- services/inventory-service/app/services/inventory_service.py, on a sound database: what a call has
-- done by how it ended.
use ecommerce_platform.Base.Int.{
  eq_of_parts, zero-+ℤ, pos_part, neg_part, ◌+ℤ◌, int_laws, ℤ, ◌≤ℤ◌, +ℤ_assoc, ◌-ℤ◌, +ℤ-zero, pos,
}
use ecommerce_platform.Base.{
  sym, Bool-cases, ap, inl, List, false, ◌∙◌, inr, ◌≢◌, ◌⊎◌, any, ℕ, Option, refl, arith, some,
  true, none, Bool, ◌≡◌,
}
use ecommerce_platform.Base.Http.{Response, ok, http_error}
use ecommerce_platform.Inventory.{StockLevel}
use ecommerce_platform.Inventory.Table.{
  InventoryItem, InventoryReservation, Database, find_item, selects,
}
use ecommerce_platform.Inventory.Service.{
  Faults, granted, Settlement, Progress, SettleRequest, start, finish, SettleResponse, settle_holds,
  settle, releasing, consuming,
}
use ecommerce_platform.Inventory.Service.Settle.{
  units_nonneg, IsSettlement, units_of, all_units, mark, Enough, shifted, Settles,
  settle_holds-Settles,
}
use ecommerce_platform.Inventory.Invariant.{
  live, held_units, Covers, IsSound, Positive-chosen, units-le, mark_none, units_none,
  all_units_none,
}

-- Back to available, and out of the building.
abbrev pub put_back : ℤ → StockLevel → StockLevel
put_back n l = record {
  quantity_available = l.quantity_available +ℤ n;
  quantity_reserved = l.quantity_reserved -ℤ n;
}

abbrev pub retire : ℤ → StockLevel → StockLevel
retire n l = record {
  quantity_available = l.quantity_available;
  quantity_reserved = l.quantity_reserved -ℤ n;
}

sub_zero : (a : ℤ) → a -ℤ pos 0 ≡ a
sub_zero a = omega int_laws

sub_sub : (a b c : ℤ) → a -ℤ b -ℤ c ≡ a -ℤ (b +ℤ c)
sub_sub a b c = omega int_laws

pub releasing-IsSettlement : IsSettlement releasing put_back
unfolding releasing
releasing-IsSettlement = record {
  plan_settled = λ l q one room. ground arith;
  shift_zero = λ l. rw (+ℤ-zero, sub_zero);
  shift_add = λ a b l. rw (+ℤ_assoc, sub_sub);
  reserved_shift = λ a l. refl;
}

pub consuming-IsSettlement : IsSettlement consuming retire
unfolding consuming
consuming-IsSettlement = record {
  plan_settled = λ l q one room. ground arith;
  shift_zero = λ l. rw sub_zero;
  shift_add = λ a b l. rw sub_sub;
  reserved_shift = λ a l. refl;
}

-- The rows that a request names.
abbrev pub named : SettleRequest → InventoryReservation → Bool
named request = selects request.order_id request.product_ids

pub named-live :
    (request : SettleRequest) (r : InventoryReservation) → named request r ≡ true → live r ≡ true
named-live request r h = ground arith

Enough-Covers : (o : Option InventoryItem) (n m : ℤ) → pos 0 ≤ℤ n → n ≤ℤ m → Covers o m → Enough o n
Enough-Covers none n m nonneg le h =
    eq_of_parts n (pos 0) (omega (arith, ap pos_part h, ap neg_part h))
Enough-Covers (some i) n m nonneg le h = omega (arith, h.1)

-- What one call has done, by how it ended: an error leaves the database as it was, and comes only
-- from a lock or a commit that the database refused; otherwise the named live rows are settled,
-- each product's level moves by their units, and the answer counts them.
abbrev pub Done :
    Settlement
    → (ℤ → StockLevel → StockLevel)
    → Faults
    → SettleRequest
    → Database
    → Response SettleResponse × Database
    → Type 0
Done S shift faults request db (http_error code, db') =
    (db' ≡ db) × (((p : ℕ) × (faults.lock p ≢ granted)) ⊎ (faults.commits ≡ false))
Done S shift faults request db (ok answer, db') =
    (answer.units ≡ all_units (named request) db.reservations)
    × (db'.reservations ≡ mark S.final (named request) db.reservations)
    × ((p : ℕ)
        → find_item p db'.items
          ≡ shifted shift (units_of (named request) p db.reservations) (find_item p db.items))

module _ (S : Settlement) (shift : ℤ → StockLevel → StockLevel) (law : IsSettlement S shift) where
  shifted_none : (o : Option InventoryItem) → o ≡ shifted shift (pos 0) o
  shifted_none none = refl
  shifted_none (some i) = ap (λ l. some (record i { level = l })) (sym (law.shift_zero i.level))

  committed :
      (faults : Faults) (request : SettleRequest) (db : Database)
      (res : Response (List InventoryReservation × Progress))
      → Settles faults S shift (named request) db.reservations (start db) res
      → Done S shift faults request db (finish faults db res)
  committed faults request db (http_error code) h = (refl, inl h)
  committed faults request db (ok (rows, d)) h = elim (Bool-cases faults.commits) [
    | inl c ↦ rw c (h.2 ∙ zero-+ℤ (all_units (named request) db.reservations), h.0, h.1)
    | inr c ↦ rw c (refl, inr refl)
  ]

  pub settle-Done :
      (faults : Faults) (request : SettleRequest) (db : Database)
      → IsSound db
      → Done S shift faults request db (settle S faults request db)
  unfolding settle
  settle-Done faults request db sound =
      let chosen = named request in
      let rows = db.reservations in
      let positive = Positive-chosen chosen (named-live request) rows sound.positive in
      let enough = λ (p : ℕ).
        Enough-Covers (find_item p db.items) (units_of chosen p rows) (held_units p rows)
          (units_nonneg chosen p rows positive)
          (units-le chosen (named-live request) p rows sound.positive) (sound.covered p) in
      elim (Bool-cases (any chosen rows)) [
        | inr n ↦
            rw (settle, n)
              (
                sym (all_units_none chosen rows n),
                sym (mark_none chosen S.final rows n),
                λ p. simp (units_none chosen p rows n) (shifted_none (find_item p db.items)),
              )
        | inl n ↦
            rw (settle, n)
              (committed faults request db (settle_holds faults S chosen rows (start db))
                (settle_holds-Settles faults S shift law chosen rows (start db) positive enough))
      ]
