-- ===== src/SellerOrder/Tests.antt =====
-- Concrete lives of a seller order (services/order-saga/app/services/cod_rules.py and
-- split_rules.py).
use ecommerce_platform.Base.Int.{ℤ, pos, ◌+ℤ◌}
use ecommerce_platform.Dispatcher.Items.{
  Item, line, int, plain, a_list, ItemsPayload, ItemReservation, plan_item_reservations,
}
use ecommerce_platform.Dispatcher.Items.Totals.{units_of}
use ecommerce_platform.SellerOrder.Split.{
  PlannedLine, SellerOrderPlan, normalise_items, split_by_seller,
}
use ecommerce_platform.SellerOrder.Split.Groups.{plans_total}
use ecommerce_platform.SellerOrder.Split.Conserved.{SplitsAll, split_by_seller-SplitsAll}
use ecommerce_platform.SellerOrder.Split.Stocked.{product_units, reservations_match_split}
use ecommerce_platform.Base.{ℕ, List, [], ◌∷◌, ◌≡◌, refl, some, Option}
use ecommerce_platform.SellerOrder.{
  may_cancel, SellerOrderStatus, pending, dispatched, delivered, settled, cancelled, confirm,
  dispatch, deliver, settle, cancel, plan_transition,
}
use ecommerce_platform.SellerOrder.Lifecycle.{
  step, Input, act, saga_reserved, saga_released, saga_ended, run, count_all, untouched, Accounts,
  stock_follows_status,
}

abbrev history : List Input
history =
    saga_reserved
    ∷ act confirm ""
    ∷ act dispatch ""
    ∷ act cancel "changed my mind"
    ∷ act deliver ""
    ∷ saga_released
    ∷ saga_ended
    ∷ act settle ""
    ∷ []

history_result : (run pending history).0 ≡ settled
unfolding run step plan_transition may_cancel
history_result = refl

abbrev children : List (Option SellerOrderStatus)
children = some delivered ∷ some cancelled ∷ some dispatched ∷ []

stock_follows_status_example :
    Accounts (run pending history).0 (count_all (run pending history).1 untouched)
stock_follows_status_example = stock_follows_status history

abbrev cart_line : ℕ → ℕ → ℤ → Item
cart_line s p q = line (record {
  product_id = some p;
  seller_id = some s;
  quantity = int q;
  price_cents = int (pos 250);
  line_total_cents = int (pos 500);
})

-- Two lines of seller 5, in the wrong order, and one of seller 4 between them.
abbrev cart : ItemsPayload
cart = plain (a_list (cart_line 5 2 (pos 2) ∷ cart_line 4 1 (pos 2) ∷ cart_line 5 1 (pos 3) ∷ []))

split_by_seller-SplitsAll_example : SplitsAll (normalise_items cart) (split_by_seller cart)
split_by_seller-SplitsAll_example = split_by_seller-SplitsAll cart

abbrev planned_line : ℕ → ℤ → PlannedLine
planned_line p q = record {
  product_id = p;
  quantity = q;
  price_cents = pos 250;
  line_total_cents = pos 500;
}

abbrev cart_plans : List SellerOrderPlan
cart_plans =
    record { seller_id = 4; lines = planned_line 1 (pos 2) ∷ []; subtotal_cents = pos 500 }
    ∷ record {
      seller_id = 5;
      lines = planned_line 1 (pos 3) ∷ planned_line 2 (pos 2) ∷ [];
      subtotal_cents = pos 1000;
    }
    ∷ []

abbrev cart_reservations : List ItemReservation
cart_reservations =
    record { product_id = 1; quantity = pos 5 } ∷ record { product_id = 2; quantity = pos 2 } ∷ []

reservations_match_split_example :
    units_of 1 cart_reservations ≡ plans_total (product_units 1) cart_plans
unfolding plan_item_reservations split_by_seller ◌+ℤ◌
reservations_match_split_example =
    reservations_match_split cart cart_reservations cart_plans refl refl 1
