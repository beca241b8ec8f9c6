-- ===== src/Inventory/Invariant.antt =====
-- The invariant of the inventory tables
-- (services/inventory-service/app/models.py): no item has a negative quantity available, the live
-- reservations of a product are covered by its reserved quantity, and every live reservation holds
-- a positive quantity.
use ecommerce_platform.Base.Int.{regroup_left, regroup_right, zero-+ℤ, ◌+ℤ◌, ℤ, int_laws, pos, ◌≤ℤ◌}
use ecommerce_platform.Base.{
  inr, Bool-cases, ap, ◌∙◌, inl, refl, none, Option, if◌then◌else◌, true, Bool, [], ◌∷◌, ◌≡◌, arith,
  List, any, ◌==◌, ◌&&◌, ℕ, some, false,
}
use ecommerce_platform.Inventory.Table.{
  InventoryItem, InventoryReservation, HoldStatus, Database, find_item, is_held,
}
use ecommerce_platform.Inventory.Service.Settle.{units_of, all_units, mark, Positive}

abbrev pub live : InventoryReservation → Bool
live r = is_held r.status

-- The live units of a product.
abbrev pub held_units : ℕ → List InventoryReservation → ℤ
held_units = units_of live

abbrev pub Covers : Option InventoryItem → ℤ → Type 0
Covers none n = n ≡ pos 0
Covers (some i) n = (pos 0 ≤ℤ i.level.quantity_available) × (n ≤ℤ i.level.quantity_reserved)

pub record IsSound (db : Database) : Type 0 where
  pub covered : (p : ℕ) → Covers (find_item p db.items) (held_units p db.reservations)
  pub positive : Positive live db.reservations

module _ (chosen : InventoryReservation → Bool)
    (only_live : (r : InventoryReservation) → chosen r ≡ true → live r ≡ true) where
  pub Positive-chosen :
      (rows : List InventoryReservation) → Positive live rows → Positive chosen rows
  Positive-chosen [] h = tt
  Positive-chosen (r ∷ rs) h = (λ c. h.0 (only_live r c), Positive-chosen rs h.1)

  pub units-le :
      (p : ℕ) (rows : List InventoryReservation)
      → Positive live rows
      → units_of chosen p rows ≤ℤ held_units p rows
  units-le p [] h = omega arith
  units-le p (r ∷ rs) h =
      let rest = units-le p rs h.1 in
      let own = if chosen r && r.product_id == p then r.quantity else pos 0 in
      let own_live = if live r && r.product_id == p then r.quantity else pos 0 in
      let own-le : own ≤ℤ own_live = ground (arith, only_live r, h.0) in
      omega (int_laws, rest, own-le)

  module _ (final : HoldStatus) (final_not_held : is_held final ≡ false) where
    -- Settling takes exactly the chosen units out of the live ones.
    pub units-mark :
        (p : ℕ) (rows : List InventoryReservation)
        → held_units p (mark final chosen rows) +ℤ units_of chosen p rows ≡ held_units p rows
    units-mark p [] = zero-+ℤ (pos 0)
    units-mark p (r ∷ rs) =
        let left = units_of live p (mark final chosen rs) in
        let right = units_of chosen p rs in
        let kept = if live r && r.product_id == p then r.quantity else pos 0 in
        let moved = if r.product_id == p then r.quantity else pos 0 in
        elim (Bool-cases (chosen r)) [
          | inl c ↦
              rw (c, final_not_held, only_live r c)
                (regroup_right left right moved ∙ ap (λ t. moved +ℤ t) (units-mark p rs))
          | inr c ↦ rw c (regroup_left left right kept ∙ ap (λ t. kept +ℤ t) (units-mark p rs))
        ]

    pub Positive-mark :
        (rows : List InventoryReservation)
        → Positive live rows
        → Positive live (mark final chosen rows)
    Positive-mark [] h = tt
    Positive-mark (r ∷ rs) h = (ground (arith, h.0, final_not_held), Positive-mark rs h.1)

    not_chosen : (r : InventoryReservation) → chosen (record r { status = final }) ≡ false
    not_chosen r = elim (Bool-cases (chosen (record r { status = final }))) [
      | inl c ↦ cc (only_live (record r { status = final }) c)
      | inr c ↦ c
    ]

    pub any-mark : (rows : List InventoryReservation) → any chosen (mark final chosen rows) ≡ false
    any-mark [] = refl
    any-mark (r ∷ rs) = elim (Bool-cases (chosen r)) [
      | inl c ↦ rw (c, not_chosen r) (any-mark rs)
      | inr c ↦ rw (c, c) (any-mark rs)
    ]

pub mark_none :
    (chosen : InventoryReservation → Bool) (final : HoldStatus) (rows : List InventoryReservation)
    → any chosen rows ≡ false
    → mark final chosen rows ≡ rows
mark_none chosen final [] h = refl
mark_none chosen final (r ∷ rs) h = ground (arith, mark_none chosen final rs)

pub units_none :
    (chosen : InventoryReservation → Bool) (p : ℕ) (rows : List InventoryReservation)
    → any chosen rows ≡ false
    → units_of chosen p rows ≡ pos 0
units_none chosen p [] h = refl
units_none chosen p (r ∷ rs) h =
    ground (arith, units_none chosen p rs, zero-+ℤ (units_of chosen p rs))

pub all_units_none :
    (chosen : InventoryReservation → Bool) (rows : List InventoryReservation)
    → any chosen rows ≡ false
    → all_units chosen rows ≡ pos 0
all_units_none chosen [] h = refl
all_units_none chosen (r ∷ rs) h =
    ground (arith, all_units_none chosen rs, zero-+ℤ (all_units chosen rs))
