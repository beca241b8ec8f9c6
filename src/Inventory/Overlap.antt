-- ===== src/Inventory/Overlap.antt =====
-- Releases and consumptions that overlap (release_inventory and consume_inventory of
-- services/inventory-service/app/services/inventory_service.py): the held rows are read with no
-- lock, and another request may commit before the rows of the items are locked. The items are read
-- again under their locks; the held rows are not.
pub mod Apart
use ecommerce_platform.Base.Int.{◌-ℤ◌, pos, ◌+ℤ◌}
use ecommerce_platform.Inventory.Table.{
  find_item, level_of, InventoryReservation, held, Database, selects,
}
use ecommerce_platform.Inventory.Service.{
  ReserveRequest, reserve_inventory, Faults, granted, Settlement, Progress, settle_hold,
  settle_holds, keep_row, finish, start, SettleRequest, SettleResponse, settle, releasing,
}
use ecommerce_platform.Base.{
  some, sym, Bool, true, false, ℕ, List, [], ◌∷◌, map, any, if◌then◌else◌, ◌≡◌, refl, ap,
  Bool-cases, inl, inr,
}
use ecommerce_platform.Base.Http.{Response, ok, http_error}
use ecommerce_platform.Inventory.Invariant.{held_units}

-- Which rows of the table the query selected.
abbrev pub seen_by : SettleRequest → Database → List Bool
seen_by request db = map (selects request.order_id request.product_ids) db.reservations

-- The loop over the rows that were read, whatever has become of them; rows that came later are not
-- among them.
unfoldable pub settle_seen :
    Faults
    → Settlement
    → List Bool
    → List InventoryReservation
    → Progress
    → Response (List InventoryReservation × Progress)
unfolding settle_hold
settle_seen faults settlement [] rs done = ok (rs, done)
settle_seen faults settlement (b ∷ bs) [] done = ok ([], done)
settle_seen faults settlement (b ∷ bs) (r ∷ rs) done =
    let after = λ (r' : InventoryReservation) (done' : Progress).
      keep_row r' (settle_seen faults settlement bs rs done') in
    elim b [
      | false ↦ after r done
      | true ↦ elim (settle_hold faults settlement r done) [
        | http_error code ↦ http_error code
        | ok done' ↦ after (record r { status = settlement.final }) done'
      ]
    ]

-- The rest of the request, from the rows that it has read.
unfoldable pub settle_later :
    Settlement → Faults → List Bool → Database → Response SettleResponse × Database
unfolding settle_seen
settle_later settlement faults seen db =
    if any (λ (b : Bool). b) seen
    then finish faults db (settle_seen faults settlement seen db.reservations (start db))
    else (ok (record { units = pos 0; reservations = 0 }), db)

-- What is left of the two loops, after one row.
abbrev pub go_on :
    (Progress → Response (List InventoryReservation × Progress))
    → InventoryReservation
    → Response Progress
    → Response (List InventoryReservation × Progress)
go_on rest r (http_error code) = http_error code
go_on rest r (ok done) = keep_row r (rest done)

pub go_on-same :
    (rest rest' : Progress → Response (List InventoryReservation × Progress))
    (r : InventoryReservation) (res : Response Progress)
    → ((done : Progress) → rest done ≡ rest' done)
    → go_on rest r res ≡ go_on rest' r res
go_on-same rest rest' r (http_error code) h = refl
go_on-same rest rest' r (ok done) h = ap (keep_row r) (h done)

holds-seen :
    (faults : Faults) (settlement : Settlement) (chosen : InventoryReservation → Bool)
    (rs : List InventoryReservation) (done : Progress)
    → settle_holds faults settlement chosen rs done
      ≡ settle_seen faults settlement (map chosen rs) rs done
unfolding settle_holds settle_seen
holds-seen faults settlement chosen [] done = refl
holds-seen faults settlement chosen (r ∷ rs) done =
    let same = holds-seen faults settlement chosen rs in
    elim (Bool-cases (chosen r)) [
      | inr skipped ↦ rw (settle_holds, settle_seen, skipped) (ap (keep_row r) (same done))
      | inl taken ↦
          rw (settle_holds, settle_seen, taken)
            (go_on-same (settle_holds faults settlement chosen rs)
              (settle_seen faults settlement (map chosen rs) rs)
              (record r { status = settlement.final }) (settle_hold faults settlement r done) same)
    ]

any-seen :
    (chosen : InventoryReservation → Bool) (rs : List InventoryReservation)
    → any chosen rs ≡ any (λ (b : Bool). b) (map chosen rs)
any-seen chosen [] = refl
any-seen chosen (r ∷ rs) = rw (any-seen chosen rs) refl

-- A request that meets no other is the same as one that reads and then settles.
settle_at_once :
    (settlement : Settlement) (faults : Faults) (request : SettleRequest) (db : Database)
    → settle settlement faults request db ≡ settle_later settlement faults (seen_by request db) db
unfolding settle settle_later
settle_at_once settlement faults request db =
    let chosen = selects request.order_id request.product_ids in
    rw
      (
        sym (any-seen chosen db.reservations),
        holds-seen faults settlement chosen db.reservations (start db),
      )
      refl

abbrev give_back : SettleRequest
give_back = record { order_id = 7; product_ids = [] }

abbrev hold : ℕ → InventoryReservation
hold order = record { order_id = order; product_id = 1; quantity = pos 2; status = held }

-- Five units of a product: orders 7 and 8 hold two each.
abbrev shared : Database
shared = record {
  items =
      record {
        id = 10;
        product_id = 1;
        level = record { quantity_available = pos 1; quantity_reserved = pos 4 };
      }
      ∷ [];
  reservations = hold 7 ∷ hold 8 ∷ [];
  outbox = [];
  keys = [];
}

abbrev smooth : Faults
smooth = record { lock = λ p. granted; commits = true }

abbrev five_more : ReserveRequest
five_more = record { product_id = 1; quantity = pos 5; order_id = some 9 }

abbrev later : List Bool → Database → Database
unfolding settle_later releasing
later seen db = (settle_later releasing smooth seen db).1

-- Two releases of order 7 that have both read its hold before either commits: the second puts two
-- more units back, out of those that order 8 holds, and a reservation of five units is then granted,
-- so that orders 8 and 9 hold seven units of the five. One after the other, the second release finds
-- nothing, and the reservation is refused.
release_overlapped :
    let seen = seen_by give_back shared in
    let once = later seen shared in
    let twice = later seen once in
    let sold = reserve_inventory smooth five_more 9 twice in
    let unsold = reserve_inventory smooth five_more 9 (later (seen_by give_back once) once) in
    (level_of (find_item 1 twice.items)
      ≡ some (record { quantity_available = pos 5; quantity_reserved = pos 0 }))
    × (held_units 1 sold.1.reservations ≡ pos 7)
    × (unsold.0 ≡ http_error 409)
    × (held_units 1 unsold.1.reservations ≡ pos 2)
unfolding later reserve_inventory ◌+ℤ◌ ◌-ℤ◌
release_overlapped = (refl, refl, refl, refl)
