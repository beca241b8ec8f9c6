-- ===== src/Fulfillment/Settlement.antt =====
-- ingest_settlement of services/fulfillment-service/app/services/shipment_service.py, over the
-- tables of services/fulfillment-service/app/models.py. What order-saga answers about a seller
-- order is an argument, none where it does not answer; so is whether the commit succeeds. Files
-- are taken one after another, which no lock ensures (see Overlap).
pub mod Once
pub mod Resent
pub mod Fresh
pub mod Overlap
use ecommerce_platform.Base.{
  Bool, true, false, Option, some, none, ℕ, List, [], ◌∷◌, ◌++◌, ◌==◌, ◌&&◌, if◌then◌else◌, any,
}
use ecommerce_platform.Base.Int.{ℤ}
use ecommerce_platform.Base.Http.{Response, ok, http_error}
use ecommerce_platform.Dispatcher.Items.{int}
use ecommerce_platform.Fulfillment.{
  CourierStatus, ReconcileOutcome, is_matched, Reconciliation, Known, reconcile_row, Summary,
  summarise_settlement,
}

pub record Shipment : Type 0 where
  pub id : ℕ
  pub seller_order_id : ℕ
  pub order_id : ℕ
  pub provider : ℕ
  pub tracking_code : Option ℕ
  pub status : CourierStatus
  pub unmapped : Bool
  pub cod_amount_cents : ℤ

pub record SettlementRow : Type 0 where
  pub provider : ℕ
  pub batch_reference : ℕ
  pub row_reference : ℕ
  pub seller_order_id : Option ℕ
  pub expected_cents : ℤ
  pub collected_cents : ℤ
  pub outcome : ReconcileOutcome

-- A row of a request, its reference stripped.
pub record RowInput : Type 0 where
  pub reference : ℕ
  pub collected_cents : ℤ

pub record SettlementRequest : Type 0 where
  pub provider : ℕ
  pub batch_reference : ℕ
  pub rows : List RowInput

pub data OutboxMessage : Type 0 where
  settlement_reconciled : ℕ → ℕ → Summary → OutboxMessage

pub record Database : Type 0 where
  pub shipments : List Shipment
  pub settlement_rows : List SettlementRow
  pub outbox : List OutboxMessage

-- An index of couriers: the provider a request names, and the courier's own.
abbrev pub find_courier : ℕ → List ℕ → Option ℕ
find_courier provider [] = none
find_courier provider (c ∷ cs) = if c == provider then some c else find_courier provider cs

abbrev pub has_code : ℕ → Option ℕ → Bool
has_code reference none = false
has_code reference (some code) = code == reference

-- SELECT ... WHERE provider = ... AND tracking_code = ..., which a unique index keeps to one row.
abbrev pub find_shipment : ℕ → ℕ → List Shipment → Option Shipment
find_shipment provider reference [] = none
find_shipment provider reference (s ∷ ss) =
    if s.provider == provider && has_code reference s.tracking_code
    then some s
    else find_shipment provider reference ss

abbrev pub is_delivered : CourierStatus → Bool
is_delivered CourierStatus.delivered = true
is_delivered _ = false

-- What order-saga believes, or else what was agreed when the parcel went out.
abbrev pub known_of : Option Known → Shipment → Known
known_of (some k) s = k
known_of none s = record {
  expected_cents = s.cod_amount_cents;
  is_delivered = is_delivered s.status;
}

-- A stored row that says that the seller order was settled.
abbrev pub settles_order : ℕ → SettlementRow → Bool
settles_order n row = has_code n row.seller_order_id && is_matched row.outcome

abbrev pub stored_row : ℕ → ℕ → RowInput → Option ℕ → Reconciliation → SettlementRow
stored_row provider batch input n r = record {
  provider = provider;
  batch_reference = batch;
  row_reference = input.reference;
  seller_order_id = n;
  expected_cents = r.expected_cents;
  collected_cents = r.remitted_cents;
  outcome = r.outcome;
}

-- The unique index on provider, batch_reference and row_reference.
abbrev pub same_key : SettlementRow → SettlementRow → Bool
same_key row other =
    other.provider == row.provider
    && other.batch_reference == row.batch_reference
    && other.row_reference == row.row_reference

-- The row added last is written by the next query, or by the commit.
abbrev pub flush : Option SettlementRow → List SettlementRow → Option (List SettlementRow)
flush none table = some table
flush (some row) table = if any (same_key row) table then none else some (table ++ row ∷ [])

-- How the loop ends: the rows written, the one still to write, and the results; or a query whose
-- flush the index refuses.
pub data Loop : Type 0 where
  read : List SettlementRow → Option SettlementRow → List Reconciliation → Loop
  flush_failed : Loop

module _ (snapshot : ℕ → ℕ → Option Known) where
  -- One row of the file, against the rows written so far.
  unfoldable pub reconcile :
      ℕ → RowInput → List Shipment → List SettlementRow → Option ℕ × Reconciliation
  unfolding reconcile_row
  reconcile provider input shipments table =
      elim (find_shipment provider input.reference shipments) [
        | none ↦ (none, reconcile_row input.reference (int input.collected_cents) none false)
        | some s ↦ (
          some s.seller_order_id,
          reconcile_row input.reference (int input.collected_cents)
              (some (known_of (snapshot s.order_id s.seller_order_id) s))
              (any (settles_order s.seller_order_id) table),
        )
      ]

  abbrev pub row_of : ℕ → ℕ → RowInput → List Shipment → List SettlementRow → SettlementRow
  unfolding reconcile
  row_of provider batch input shipments table =
      let (n, r) = reconcile provider input shipments table in stored_row provider batch input n r

  unfoldable pub ingest_rows :
      ℕ
      → ℕ
      → List Shipment
      → List RowInput
      → List SettlementRow
      → Option SettlementRow
      → List Reconciliation
      → Loop
  unfolding reconcile row_of
  ingest_rows provider batch shipments [] table pending results = read table pending results
  ingest_rows provider batch shipments (input ∷ inputs) table pending results =
      elim (flush pending table) [
        | none ↦ flush_failed
        | some written ↦
            ingest_rows provider batch shipments inputs written
              (some (row_of provider batch input shipments written))
              (results ++ (reconcile provider input shipments written).1 ∷ [])
      ]

  -- The summary, its event, and the commit.
  unfoldable pub conclude : Bool → SettlementRequest → Database → Loop → Response Summary × Database
  unfolding summarise_settlement
  conclude commits request db flush_failed = (http_error 500, db)
  conclude commits request db (read table pending results) = elim (flush pending table) [
    | none ↦ (http_error 409, db)
    | some written ↦
        let summary = summarise_settlement results in
        if commits
        then (
          ok summary,
          record db {
            settlement_rows = written;
            outbox =
                db.outbox
                ++ settlement_reconciled request.provider request.batch_reference summary ∷ [];
          },
        )
        else (http_error 409, db)
  ]

  unfoldable pub ingest_settlement :
      Bool → List ℕ → SettlementRequest → Database → Response Summary × Database
  unfolding ingest_rows conclude
  ingest_settlement commits couriers request db = elim (find_courier request.provider couriers) [
    | none ↦ (http_error 404, db)
    | some provider ↦ conclude commits request db (
        ingest_rows provider request.batch_reference db.shipments request.rows db.settlement_rows
          none [])
  ]
