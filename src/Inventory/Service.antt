-- ===== src/Inventory/Service.antt =====
-- The three operations on stock: services/inventory-service/app/services/inventory_service.py.
-- Each runs in one transaction: what it has written is kept by a commit, and dropped by a rollback
-- or by an exception that leaves the request. What PostgreSQL may refuse is an argument: a row
-- lock that times out or fails, and a commit that fails. A request is one step here. Release and
-- consume read the held rows with no lock, so that others may be served in between: see Overlap.
-- An absent or empty order_id is `none`, an absent product_ids is `[]`.
pub mod Reserve
pub mod Reserved
pub mod Rejected
pub mod Settle
pub mod Release
pub mod Keeps
use ecommerce_platform.Base.Int.{◌+ℤ◌, pos, ℤ}
use ecommerce_platform.Base.{
  false, [], if◌then◌else◌, true, ◌∷◌, any, ◌&&◌, not, ◌++◌, Option, List, some, suc, ℕ, none, Bool,
}
use ecommerce_platform.Base.Http.{Response, ok, http_error}
use ecommerce_platform.Inventory.{
  StockLevel, ReservationPlan, plan_reservation, plan_release, plan_consume, SettlePlan,
  ReservationOutcome, reserved, insufficient, not_found, invalid, settled, nothing_held,
  invalid_hold,
}
use ecommerce_platform.Inventory.Table.{
  InventoryItem, InventoryReservation, HoldStatus, held, released, consumed, OutboxMessage,
  reserved_message, failed_message, released_message, consumed_message, Database, find_item,
  find_item_by_id, set_level, find_key, level_of, selects, has_live,
}

-- SELECT ... FOR UPDATE: granted, past lock_timeout, or another database error.
pub data Lock : Type 0 where
  granted contended broken : Lock

pub record Faults : Type 0 where
  pub lock : ℕ → Lock
  pub commits : Bool

pub record ReserveRequest : Type 0 where
  pub product_id : ℕ
  pub quantity : ℤ
  pub order_id : Option ℕ

-- Another request holds the key, or has finished with it.
unfoldable pub replay : Option ℕ → Database → Response InventoryItem
replay none db = http_error 409
replay (some rid) db = elim (find_item_by_id rid db.items) [ some i ↦ ok i | none ↦ http_error 409 ]

-- The reservation row, if the request names an order.
abbrev pub hold_row : ReserveRequest → List InventoryReservation
hold_row request = elim (request.order_id) [
  | none ↦ []
  | some order ↦
      record {
        order_id = order;
        product_id = request.product_id;
        quantity = request.quantity;
        status = held;
      }
      ∷ []
]

-- A second live row for the order and product breaks the unique index.
abbrev pub breaks_unique : ReserveRequest → Database → Bool
breaks_unique request db = elim (request.order_id) [
  | none ↦ false
  | some order ↦ has_live order request.product_id db.reservations
]

-- The branches after plan_reservation, for the row `item` and the plan's new level.
unfoldable pub commit_insufficient :
    Faults → ReserveRequest → ℕ → InventoryItem → Database → Response InventoryItem × Database
commit_insufficient faults request key item db =
    if faults.commits
    then (
      http_error 409,
      record db {
        outbox = db.outbox ++ failed_message item request.quantity ∷ [];
        keys = (key, some item.id) ∷ db.keys;
      },
    )
    else (http_error 500, db)

unfoldable pub commit_reserved :
    Faults
    → ReserveRequest
    → ℕ
    → InventoryItem
    → StockLevel
    → Database
    → Response InventoryItem × Database
commit_reserved faults request key item level db =
    let item' = record item { level = level } in
    if faults.commits && not (breaks_unique request db)
    then (
      ok item',
      record {
        items = set_level request.product_id level db.items;
        reservations = db.reservations ++ hold_row request;
        outbox = db.outbox ++ reserved_message item' request.quantity ∷ [];
        keys = (key, some item.id) ∷ db.keys;
      },
    )
    else (http_error 500, db)

-- The answer to the plan; `item` is the locked row, which is there when the plan is RESERVED or
-- INSUFFICIENT.
unfoldable pub reserve_plan :
    Faults
    → ReserveRequest
    → ℕ
    → Option InventoryItem
    → Database
    → Response InventoryItem × Database
unfolding plan_reservation commit_insufficient commit_reserved
reserve_plan faults request key none db = elim ((plan_reservation none request.quantity).outcome) [
  | not_found ↦ (http_error 404, db)
  | invalid ↦ (http_error 400, db)
  | insufficient ↦ (http_error 500, db)
  | reserved ↦ (http_error 500, db)
]
reserve_plan faults request key (some item) db =
    let plan = plan_reservation (some item.level) request.quantity in
    elim (plan.outcome) [
      | not_found ↦ (http_error 404, db)
      | invalid ↦ (http_error 400, db)
      | insufficient ↦ commit_insufficient faults request key item db
      | reserved ↦ elim (plan.new_level) [
        | some level ↦ commit_reserved faults request key item level db
        | none ↦ (http_error 500, db)
      ]
    ]

unfoldable pub reserve_inventory :
    Faults → ReserveRequest → ℕ → Database → Response InventoryItem × Database
unfolding replay reserve_plan
reserve_inventory faults request key db = elim (find_key key db.keys) [
  | some result ↦ (replay result db, db)
  | none ↦ elim (faults.lock request.product_id) [
    | contended ↦ (http_error 409, db)
    | broken ↦ (http_error 500, db)
    | granted ↦ reserve_plan faults request key (find_item request.product_id db.items) db
  ]
]

-- ReleaseRequest and ConsumeRequest
pub record SettleRequest : Type 0 where
  pub order_id : ℕ
  pub product_ids : List ℕ

-- `released` or `consumed`, and `reservations`
pub record SettleResponse : Type 0 where
  pub units : ℤ
  pub reservations : ℕ

-- What the loop over the holds has changed so far.
pub record Progress : Type 0 where
  pub items : List InventoryItem
  pub messages : List OutboxMessage
  pub units : ℤ
  pub count : ℕ

-- What release and consume do differently: the plan, the message and the row's final status.
pub record Settlement : Type 0 where
  pub plan : Option StockLevel → ℤ → SettlePlan
  pub message : InventoryItem → InventoryReservation → OutboxMessage
  pub final : HoldStatus

unfoldable pub releasing : Settlement
unfolding plan_release
releasing = record { plan = plan_release; message = released_message; final = released }

unfoldable pub consuming : Settlement
unfolding plan_consume
consuming = record { plan = plan_consume; message = consumed_message; final = consumed }

-- The plan's new level, written to the row.
abbrev pub settle_item :
    Settlement → InventoryReservation → InventoryItem → StockLevel → Progress → Progress
settle_item settlement hold item level done = record {
  items = set_level hold.product_id level done.items;
  messages = done.messages ++ settlement.message (record item { level = level }) hold ∷ [];
  units = done.units +ℤ hold.quantity;
  count = suc done.count;
}

abbrev pub settle_plan :
    Settlement → InventoryReservation → Option InventoryItem → Progress → Response Progress
settle_plan settlement hold item done =
    let plan = settlement.plan (level_of item) hold.quantity in
    elim (plan.outcome) [
      | invalid_hold ↦ http_error 400
      | nothing_held ↦ ok (record done { count = suc done.count })
      | settled ↦ elim item [
        | none ↦ http_error 500
        | some i ↦ elim (plan.new_level) [
          | none ↦ http_error 500
          | some level ↦ ok (settle_item settlement hold i level done)
        ]
      ]
    ]

-- One pass of the loop body.
unfoldable pub settle_hold :
    Faults → Settlement → InventoryReservation → Progress → Response Progress
settle_hold faults settlement hold done = elim (faults.lock hold.product_id) [
  | contended ↦ http_error 409
  | broken ↦ http_error 500
  | granted ↦ settle_plan settlement hold (find_item hold.product_id done.items) done
]

abbrev pub keep_row :
    InventoryReservation
    → Response (List InventoryReservation × Progress)
    → Response (List InventoryReservation × Progress)
keep_row r (http_error code) = http_error code
keep_row r (ok (rows, done)) = ok (r ∷ rows, done)

-- The loop, over the table: the rows that the query selects are settled, in order, and the others
-- stay as they are.
unfoldable pub settle_holds :
    Faults
    → Settlement
    → (InventoryReservation → Bool)
    → List InventoryReservation
    → Progress
    → Response (List InventoryReservation × Progress)
unfolding settle_hold
settle_holds faults settlement chosen [] done = ok ([], done)
settle_holds faults settlement chosen (r ∷ rs) done =
    let after = λ (r' : InventoryReservation) (done' : Progress).
      keep_row r' (settle_holds faults settlement chosen rs done') in
    elim (chosen r) [
      | false ↦ after r done
      | true ↦ elim (settle_hold faults settlement r done) [
        | http_error code ↦ http_error code
        | ok done' ↦ after (record r { status = settlement.final }) done'
      ]
    ]

-- What follows the loop: the error it raised, or the commit.
abbrev pub finish :
    Faults
    → Database
    → Response (List InventoryReservation × Progress)
    → Response SettleResponse × Database
finish faults db (http_error code) = (http_error code, db)
finish faults db (ok (rows, done)) =
    if faults.commits
    then (
      ok (record { units = done.units; reservations = done.count }),
      record db { items = done.items; reservations = rows; outbox = db.outbox ++ done.messages },
    )
    else (http_error 500, db)

abbrev pub start : Database → Progress
start db = record { items = db.items; messages = []; units = pos 0; count = 0 }

unfoldable pub settle :
    Settlement → Faults → SettleRequest → Database → Response SettleResponse × Database
unfolding settle_holds
settle settlement faults request db =
    let chosen = selects request.order_id request.product_ids in
    if any chosen db.reservations
    then finish faults db (settle_holds faults settlement chosen db.reservations (start db))
    else (ok (record { units = pos 0; reservations = 0 }), db)

-- The key of the request is not used: the rows' status makes these idempotent.
unfoldable pub release_inventory :
    Faults → SettleRequest → Database → Response SettleResponse × Database
unfolding settle releasing
release_inventory = settle releasing

unfoldable pub consume_inventory :
    Faults → SettleRequest → Database → Response SettleResponse × Database
unfolding settle consuming
consume_inventory = settle consuming
