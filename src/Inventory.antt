-- ===== src/Inventory.antt =====
-- Stock decisions: services/inventory-service/app/services/reservation_rules.py.
-- A plan's `detail`, a message for people, is left out; quantities are Python integers.
mod Tests
pub mod Plans
pub mod Table
pub mod Service
pub mod Invariant
pub mod Runs
pub mod Overlap
use ecommerce_platform.Base.{none, Option, some, if◌then◌else◌}
use ecommerce_platform.Base.Int.{◌-ℤ◌, ◌==ℤ◌, ◌+ℤ◌, min_ℤ, ltb_ℤ, pos, leb_ℤ, ℤ}

-- StockLevel
pub record StockLevel : Type 0 where
  pub quantity_available : ℤ
  pub quantity_reserved : ℤ

-- StockLevel.total
unfoldable pub total : StockLevel → ℤ
total l = l.quantity_available +ℤ l.quantity_reserved

-- EVENT_RESERVED, EVENT_FAILED, EVENT_RELEASED, EVENT_CONSUMED
pub data InventoryEvent : Type 0 where
  inventory_reserved inventory_reservation_failed : InventoryEvent
  inventory_released inventory_consumed : InventoryEvent

pub data ReservationOutcome : Type 0 where
  reserved insufficient not_found invalid : ReservationOutcome

pub record ReservationPlan : Type 0 where
  pub outcome : ReservationOutcome
  pub new_level : Option StockLevel
  pub event : Option InventoryEvent

-- ReleaseOutcome and ConsumeOutcome; `settled` is RELEASED of the one and CONSUMED of the other.
pub data SettleOutcome : Type 0 where
  settled nothing_held invalid_hold : SettleOutcome

-- ReleasePlan and ConsumePlan
pub record SettlePlan : Type 0 where
  pub outcome : SettleOutcome
  pub new_level : Option StockLevel
  pub event : Option InventoryEvent

abbrev refused : ReservationOutcome → Option InventoryEvent → ReservationPlan
refused o e = record { outcome = o; new_level = none; event = e }

unfoldable pub plan_reservation : Option StockLevel → ℤ → ReservationPlan
plan_reservation level requested =
    if leb_ℤ requested (pos 0) then refused invalid none else elim level [
      | none ↦ refused not_found none
      | some l ↦
          if ltb_ℤ l.quantity_available requested
          then refused insufficient (some inventory_reservation_failed)
          else record {
            outcome = reserved;
            new_level = some (record {
              quantity_available = l.quantity_available -ℤ requested;
              quantity_reserved = l.quantity_reserved +ℤ requested;
            });
            event = some inventory_reserved;
          }
    ]

abbrev unsettled : SettleOutcome → Option InventoryEvent → SettlePlan
unsettled o e = record { outcome = o; new_level = none; event = e }

unfoldable pub plan_release : Option StockLevel → ℤ → SettlePlan
unfolding min_ℤ
plan_release level held =
    if held ==ℤ pos 0
    then unsettled nothing_held (some inventory_released)
    else if ltb_ℤ held (pos 0)
    then unsettled invalid_hold none
    else elim level [
      | none ↦ unsettled nothing_held (some inventory_released)
      | some l ↦
          let releasable = min_ℤ held l.quantity_reserved in
          record {
            outcome = settled;
            new_level = some (record {
              quantity_available = l.quantity_available +ℤ releasable;
              quantity_reserved = l.quantity_reserved -ℤ releasable;
            });
            event = some inventory_released;
          }
    ]

unfoldable pub plan_consume : Option StockLevel → ℤ → SettlePlan
plan_consume level held =
    if held ==ℤ pos 0
    then unsettled nothing_held (some inventory_consumed)
    else if ltb_ℤ held (pos 0)
    then unsettled invalid_hold none
    else elim level [
      | none ↦ unsettled invalid_hold none
      | some l ↦ if ltb_ℤ l.quantity_reserved held then unsettled invalid_hold none else record {
        outcome = settled;
        new_level = some (record {
          quantity_available = l.quantity_available;
          quantity_reserved = l.quantity_reserved -ℤ held;
        });
        event = some inventory_consumed;
      }
    ]
