-- ===== src/Fulfillment/Tests.antt =====
-- A settlement file of courier 3 (services/fulfillment-service/app/services/shipment_service.py): two
-- parcels, of which one is paid for in full.
use ecommerce_platform.Fulfillment.Mapping.{Mapping, Index, build_index}
use ecommerce_platform.Fulfillment.Mapping.Taught.{Taught, build_index-Taught}
use Prim.Native.String.{String}
use ecommerce_platform.Orchestrator
use ecommerce_platform.SellerOrder.{SellerOrderStatus, deliver, plan_transition}
use ecommerce_platform.Orchestrator.SellerOrders.{transition_seller_order}
use ecommerce_platform.Fulfillment.Shipments.{
  map_status, applied, not_applicable, CallbackResponse, drive,
}
use ecommerce_platform.Fulfillment.Shipments.Redelivery.{order_saga, redelivered_once}
use ecommerce_platform.Base.{◌↔◌, true, false, Option, some, none, ℕ, [], ◌∷◌, ◌≡◌, refl, arith}
use ecommerce_platform.Base.Int.{pos, negsuc}
use ecommerce_platform.Fulfillment.{CourierStatus, Known, Summary}
use ecommerce_platform.Fulfillment.Settlement.{
  Shipment, RowInput, SettlementRequest, Database, ingest_settlement,
}
use ecommerce_platform.Fulfillment.Settlement.Fresh.{IsSettledOnce}
use ecommerce_platform.Fulfillment.Settlement.Once.{ingest_all, matched_at_most_once}

abbrev parcel : ℕ → ℕ → Shipment
parcel seller_order code = record {
  id = code;
  seller_order_id = seller_order;
  order_id = 7;
  provider = 3;
  tracking_code = some code;
  status = CourierStatus.delivered;
  unmapped = false;
  cod_amount_cents = pos 999;
}

abbrev parcels : Database
parcels = record {
  shipments = parcel 31 501 ∷ parcel 32 502 ∷ [];
  settlement_rows = [];
  outbox = [];
}

abbrev delivered_order : ℕ → ℕ → Option Known
delivered_order order seller_order = some (record { expected_cents = pos 999; is_delivered = true })

abbrev silent : ℕ → ℕ → Option Known
silent order seller_order = none

abbrev paid_row : RowInput
paid_row = record { reference = 501; collected_cents = pos 999 }

abbrev short_row : RowInput
short_row = record { reference = 502; collected_cents = pos 900 }

abbrev remittance : ℕ → SettlementRequest
remittance batch = record {
  provider = 3;
  batch_reference = batch;
  rows = paid_row ∷ short_row ∷ [];
}

matched_at_most_once_example :
    IsSettledOnce
      (ingest_all
        (3 ∷ [])
        ((true, delivered_order, remittance 1) ∷ (true, silent, remittance 2) ∷ [])
        parcels).settlement_rows
matched_at_most_once_example =
    matched_at_most_once (3 ∷ [])
      ((true, delivered_order, remittance 1) ∷ (true, silent, remittance 2) ∷ []) parcels
      (record { once = λ n. omega arith; exact = tt })

abbrev ingested : Database
unfolding ingest_settlement
ingested = (ingest_settlement delivered_order true (3 ∷ []) (remittance 1) parcels).1

abbrev result : Summary
result = record { rows = 2; matched_rows = 1; attention_rows = 1; variance = negsuc 98 }

abbrev on_the_road : Orchestrator.Database
on_the_road = record {
  sagas = [];
  seller_orders =
      record {
        id = 31;
        order_id = 7;
        seller_id = 4;
        status = SellerOrderStatus.dispatched;
        status_reason = none;
        subtotal_cents = pos 999;
        item_count = pos 1;
        courier_name = none;
        tracking_code = none;
      }
      ∷ [];
  lines = [];
  outbox = [];
  keys = [];
}

abbrev word : String
word = "courier pathao reported Delivered"

abbrev at_the_door : Orchestrator.Database
unfolding drive order_saga
at_the_door = (drive (order_saga word) (parcel 31 501) (some CourierStatus.delivered) on_the_road).1

abbrev taken : CallbackResponse
taken = record {
  shipment_id = 501;
  canonical_status = some CourierStatus.delivered;
  action = some deliver;
  action_result = some applied;
}

redelivered_once_example :
    drive (order_saga word) (parcel 31 501) (some CourierStatus.delivered) at_the_door
    ≡ (record taken { action_result = some not_applicable }, at_the_door)
unfolding at_the_door drive order_saga transition_seller_order plan_transition
redelivered_once_example =
    redelivered_once word (parcel 31 501) (some CourierStatus.delivered) on_the_road taken
      at_the_door refl refl

abbrev words : Mapping
words = (some CourierStatus.delivered, 1 ∷ 2 ∷ []) ∷ (some CourierStatus.returned, 3 ∷ 0 ∷ []) ∷ []

abbrev index : Index
index =
    (3, CourierStatus.returned) ∷ (2, CourierStatus.delivered) ∷ (1, CourierStatus.delivered) ∷ []

build_index-Taught_example :
    (map_status index 2 ≡ some CourierStatus.delivered) ↔ Taught 2 CourierStatus.delivered words
unfolding build_index
build_index-Taught_example = build_index-Taught words index 2 CourierStatus.delivered refl refl
