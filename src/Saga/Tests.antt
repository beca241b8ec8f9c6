-- ===== src/Saga/Tests.antt =====
-- Concrete lives of a saga (services/order-saga/app/services/transitions.py).
use ecommerce_platform.Base.{List, [], ◌∷◌, ◌≡◌, ◌≤◌, refl, true}
use ecommerce_platform.Saga.{
  resolve, card, pending, rollback_completed, inventory_reserved_event, payment_failed,
  payment_refunded, payment_charged, inventory_released,
}
use ecommerce_platform.Saga.Run.{step, Input, deliver, sweep, run, count}
use ecommerce_platform.Saga.Progress.{moves, moves_bounded, is_charge, charged_at_most_once}
use ecommerce_platform.Saga.Stock.{is_release, reserved_stock_released}

-- A reservation, a charge that is declined, the stock given back.
abbrev declined : List Input
declined =
    deliver inventory_reserved_event ∷ deliver payment_failed ∷ deliver inventory_released ∷ []

-- A charge, the reaper coming by, a refund.
abbrev refunded : List Input
refunded = sweep true ∷ deliver payment_refunded ∷ deliver payment_charged ∷ []

declined_result : (run card pending declined).0 ≡ rollback_completed
unfolding run step resolve
declined_result = refl

moves_bounded_example : moves card pending declined ≤ 4
moves_bounded_example = moves_bounded card pending declined

charged_at_most_once_example : count is_charge (run card pending declined).1 ≤ 1
charged_at_most_once_example = charged_at_most_once card declined

reserved_stock_released_example : 1 ≤ count is_release (run card pending declined).1
unfolding run step resolve
reserved_stock_released_example = reserved_stock_released card declined refl refl refl
