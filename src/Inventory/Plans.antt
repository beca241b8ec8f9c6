-- ===== src/Inventory/Plans.antt =====
-- The three stock decisions of services/inventory-service/app/services/reservation_rules.py, for
-- every stock level and quantity.
use ecommerce_platform.Base.Int.{◌<ℤ◌, ℤ, ◌≤ℤ◌, pos}
use ecommerce_platform.Base.{◌≡◌, ◌⊎◌, ◌↔◌, arith, some}
use ecommerce_platform.Base.Int.{move_out, move_back, add_sub_cancel, sub_add_cancel, +ℤ_parts}
use ecommerce_platform.Inventory.{StockLevel, total, reserved, plan_reservation, plan_release}

-- A reservation of a known product is made exactly when the quantity is positive and no more than
-- what is available.
pub reserved_iff :
    (l : StockLevel) (q : ℤ)
    → ((plan_reservation (some l) q).outcome ≡ reserved)
      ↔ ((pos 0 <ℤ q) × (q ≤ℤ l.quantity_available))
unfolding plan_reservation
reserved_iff l q = ground arith

-- Reserving and releasing never create or destroy units: whenever one of them changes a level, the
-- total is what it was.
pub total_conserved :
    (l l' : StockLevel) (q : ℤ)
    → ((plan_reservation (some l) q).new_level ≡ some l')
      ⊎ ((plan_release (some l) q).new_level ≡ some l')
    → total l' ≡ total l
unfolding plan_reservation plan_release total
total_conserved l l' q h = grind (arith, move_out, move_back)

-- Releasing a quantity that was just reserved gives back the level there was before.
pub release_undoes_reservation :
    (l l' : StockLevel) (q : ℤ)
    → pos 0 ≤ℤ l.quantity_reserved
    → (plan_reservation (some l) q).new_level ≡ some l'
    → (plan_release (some l') q).new_level ≡ some l
unfolding plan_reservation plan_release
release_undoes_reservation l l' q nonneg h = ground (
  arith,
  add_sub_cancel l.quantity_reserved q,
  sub_add_cancel l.quantity_available q,
  +ℤ_parts l.quantity_reserved q,
)
