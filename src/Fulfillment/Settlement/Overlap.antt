-- ===== src/Fulfillment/Settlement/Overlap.antt =====
-- Two settlement files that overlap (ingest_settlement of
-- services/fulfillment-service/app/services/shipment_service.py): a row is compared with the matched
-- rows that are committed when it is read, with no lock, and other files may commit before its own
-- file does. The unique index tells rows of different batches apart.
use ecommerce_platform.Base.{false, true, ℕ, Option, some, List, [], ◌∷◌, ◌≡◌, refl}
use ecommerce_platform.Base.Int.{pos}
use ecommerce_platform.Fulfillment.{CourierStatus, duplicate, Known}
use ecommerce_platform.Fulfillment.Settlement.{Shipment, SettlementRow, RowInput, flush, row_of}
use ecommerce_platform.Fulfillment.Settlement.Fresh.{settled_rows}

abbrev parcel : Shipment
parcel = record {
  id = 501;
  seller_order_id = 31;
  order_id = 7;
  provider = 3;
  tracking_code = some 501;
  status = CourierStatus.delivered;
  unmapped = false;
  cod_amount_cents = pos 999;
}

abbrev delivered_order : ℕ → ℕ → Option Known
delivered_order order seller_order = some (record { expected_cents = pos 999; is_delivered = true })

abbrev paid : RowInput
paid = record { reference = 501; collected_cents = pos 999 }

-- The row of a batch, by the table that is committed when it is read.
abbrev row_in : ℕ → List SettlementRow → SettlementRow
unfolding row_of
row_in batch table = row_of delivered_order 3 batch paid (parcel ∷ []) table

-- Two batches with one row for the same parcel, both read before either commits: each is matched,
-- both commits go through, and the seller order is settled twice. One after the other, the second
-- row is a duplicate.
files_overlapped :
    let first = row_in 1 [] in
    let second = row_in 2 [] in
    let later = row_in 2 (first ∷ []) in
    (flush (some first) [] ≡ some (first ∷ []))
    × (flush (some second) (first ∷ []) ≡ some (first ∷ second ∷ []))
    × (settled_rows 31 (first ∷ second ∷ []) ≡ 2)
    × (later.outcome ≡ duplicate)
    × (settled_rows 31 (first ∷ later ∷ []) ≡ 1)
unfolding row_in
files_overlapped = (refl, refl, refl, refl, refl)
