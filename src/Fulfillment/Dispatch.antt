-- ===== src/Fulfillment/Dispatch.antt =====
-- dispatch_order of services/fulfillment-service/app/services/fulfillment_service.py. The identifiers
-- that uuid4 gives out are arguments.
use ecommerce_platform.Base.{Bool, ℕ, List, [], ◌∷◌, ◌++◌, if◌then◌else◌, elem}
use ecommerce_platform.Base.Http.{Response, ok, http_error}

-- A destination region: Blatten, or another.
pub data Region : Type 0 where
  blatten : Region
  elsewhere : ℕ → Region

pub data FulfillmentStatus : Type 0 where
  held_for_clearance dispatched : FulfillmentStatus

pub record FulfillmentRecord : Type 0 where
  pub id : ℕ
  pub order_id : ℕ
  pub destination_region : Region
  pub tracking_number : ℕ
  pub status : FulfillmentStatus

-- OrderHeld or OrderDispatched, with the record.
pub data OutboxMessage : Type 0 where
  order_held order_dispatched : FulfillmentRecord → OutboxMessage

pub record Database : Type 0 where
  pub records : List FulfillmentRecord
  pub outbox : List OutboxMessage
  pub keys : List ℕ

pub record DispatchRequest : Type 0 where
  pub order_id : ℕ
  pub destination_region : Region

abbrev pub status_for : Region → FulfillmentStatus
status_for blatten = held_for_clearance
status_for (elsewhere r) = dispatched

abbrev pub message_for : FulfillmentRecord → OutboxMessage
message_for r = elim (r.status) [
  | held_for_clearance ↦ order_held r
  | dispatched ↦ order_dispatched r
]

abbrev pub fulfillment_record : ℕ → ℕ → DispatchRequest → FulfillmentRecord
fulfillment_record id tracking request = record {
  id = id;
  order_id = request.order_id;
  destination_region = request.destination_region;
  tracking_number = tracking;
  status = status_for request.destination_region;
}

unfoldable pub dispatch_order :
    Bool → ℕ → ℕ → DispatchRequest → ℕ → Database → Response FulfillmentRecord × Database
dispatch_order commits id tracking request key db =
    if elem key db.keys
    then (http_error 409, db)
    else if commits
    then (
      ok (fulfillment_record id tracking request),
      record {
        records = db.records ++ fulfillment_record id tracking request ∷ [];
        outbox = db.outbox ++ message_for (fulfillment_record id tracking request) ∷ [];
        keys = key ∷ db.keys;
      },
    )
    else (http_error 500, db)
