-- ===== src/Dispatcher/Tests.antt =====
-- Concrete commands of the dispatcher (workers/saga-dispatcher/app/main.py): order 7, whose lines are
-- two units of product 1 and one of product 2, before services that answer every request.
use ecommerce_platform.Base.{inr, arith, true, false, some, ℕ, List, [], ◌∷◌, ◌≡◌, ◌+◌, refl}
use ecommerce_platform.Base.Int.{pos}
use ecommerce_platform.Saga.{payment_charged, payment_failed}
use ecommerce_platform.Dispatcher.{Route, payment_service}
use ecommerce_platform.Dispatcher.Items.{
  Field, absent, int, Item, line, ItemsPayload, plain, a_list, items_of, ItemReservation,
  plan_item_reservations,
}
use ecommerce_platform.Dispatcher.Items.Exact.{Exact, plan_item_reservations-Exact}
use ecommerce_platform.Dispatcher.Handle.{
  Call, Answer, status, transport_error, World, charge_payment, handle, Key,
}
use ecommerce_platform.Dispatcher.Queue.{Row, Event, pass, die_after, run, is_claimable}
use ecommerce_platform.Dispatcher.Queue.Attempts.{IsPaced, passes, fifteen_passes_decide}
use ecommerce_platform.Dispatcher.Stock.{request_for}
use ecommerce_platform.Inventory.Table.{InventoryItem, Database}
use ecommerce_platform.Inventory.Service.{Faults, granted, reserve_inventory}

abbrev item : ℕ → Field → Item
item p q = line (record {
  product_id = some p;
  seller_id = some 4;
  quantity = q;
  price_cents = absent;
  line_total_cents = int (pos 500);
})

abbrev payload : ItemsPayload
payload = plain (a_list (item 2 absent ∷ item 1 (int (pos 1)) ∷ item 1 (int (pos 1)) ∷ []))

plan_item_reservations-Exact_example : Exact (items_of payload) (plan_item_reservations payload)
plan_item_reservations-Exact_example = plan_item_reservations-Exact payload

abbrev two_lines : List ItemReservation
two_lines =
    record { product_id = 1; quantity = pos 2 } ∷ record { product_id = 2; quantity = pos 1 } ∷ []

-- Every request is answered 200, a charge 201; the state counts the requests.
abbrev willing : World ℕ
willing (Call.charge order user amount key) n = (status 201, n + 1)
willing call n = (status 200, n + 1)

-- No request gets through.
abbrev cut_off : World ℕ
cut_off call n = (transport_error, n + 1)

abbrev charge_route : Route
charge_route = record {
  target = some payment_service;
  success_status = some 201;
  on_success = some payment_charged;
  on_failure = some payment_failed;
  settle_on_failure = true;
}

abbrev new_row : Row
new_row = record {
  command = record { id = 5; order_id = some 7; body = charge_payment 3 (pos 999) };
  attempts = 0;
  processed = false;
  parked = false;
  recorded = false;
}

new_row-IsPaced : IsPaced new_row
new_row-IsPaced = record { apart = refl; within = omega arith; waiting = inr (omega arith) }

abbrev trouble : List (Event cut_off)
trouble = pass true ∷ pass false ∷ die_after ∷ pass true ∷ []

fifteen_passes_decide_example : is_claimable (run cut_off (passes cut_off 15) new_row 0).0 ≡ false
unfolding handle
fifteen_passes_decide_example =
    fifteen_passes_decide cut_off new_row 0 new_row-IsPaced refl (λ t. refl)

abbrev scarce : InventoryItem
scarce = record {
  id = 10;
  product_id = 1;
  level = record { quantity_available = pos 1; quantity_reserved = pos 0 };
}

abbrev shelf : Database
shelf = record { items = scarce ∷ []; reservations = []; outbox = []; keys = [] }

abbrev smooth : Faults
smooth = record { lock = λ p. granted; commits = true }

abbrev two_units : ItemReservation
two_units = record { product_id = 1; quantity = pos 2 }

abbrev number : Key → ℕ
number key = 77

abbrev elsewhere : Call → Answer
elsewhere call = status 200

abbrev after_rejection : Database
unfolding reserve_inventory
after_rejection = (reserve_inventory smooth (request_for 7 two_units) 77 shelf).1
