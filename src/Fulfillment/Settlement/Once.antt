-- ===== src/Fulfillment/Settlement/Once.antt =====
-- How often ingest_settlement of services/fulfillment-service/app/services/shipment_service.py
-- matches a seller order with cash.
use ecommerce_platform.Base.{
  Bool, false, Option, some, none, ℕ, List, [], ◌∷◌, ◌++◌, ◌==◌, ◌≡◌, any, refl, ◌⊎◌, ==_iff,
  Option-cases, Bool-cases, inl, inr,
}
use mathlib.Core.Path.{subst}
use ecommerce_platform.Dispatcher.Items.{int}
use ecommerce_platform.Fulfillment.{Known, Reconciliation, reconcile_row}
use ecommerce_platform.Fulfillment.Settlement.{
  Shipment, SettlementRow, RowInput, SettlementRequest, Database, settles_order, known_of,
  find_shipment, stored_row, same_key, flush, Loop, read, flush_failed, reconcile, row_of,
  ingest_rows, conclude, find_courier, ingest_settlement,
}
use ecommerce_platform.Fulfillment.Settlement.Fresh.{
  IsSettledOnce, Exact, Fresh, row-Fresh, and_false, one_table, IsSettledOnce-append,
}

module _ (snapshot : ℕ → ℕ → Option Known) where
  abbrev New : ℕ → ℕ → RowInput → List SettlementRow → Option ℕ × Reconciliation → Type 0
  New provider batch input t (m, r) =
      Exact (stored_row provider batch input m r)
      × ((n : ℕ)
          → (any (settles_order n) t ≡ false)
            ⊎ (settles_order n (stored_row provider batch input m r) ≡ false))

  found-New :
      (provider batch : ℕ) (input : RowInput) (t : List SettlementRow) (m : ℕ) (r : Reconciliation)
      → Fresh (any (settles_order m) t) r
      → New provider batch input t (some m, r)
  found-New provider batch input t m r (e, inr f) = (e, λ n. inr (rw f (and_false (m == n))))
  found-New provider batch input t m r (e, inl f) = (
    e,
    λ n. elim (Bool-cases (m == n)) [
      | inl same ↦ inl (subst (λ k. any (settles_order k) t ≡ false) ((==_iff m n).0 same) f)
      | inr other ↦ inr (rw other refl)
    ],
  )

  reconcile-New :
      (provider batch : ℕ) (input : RowInput) (shipments : List Shipment) (t : List SettlementRow)
      → New provider batch input t (reconcile snapshot provider input shipments t)
  unfolding reconcile
  reconcile-New provider batch input shipments t =
      elim (Option-cases (find_shipment provider input.reference shipments)) [
        | inl f ↦
            rw (reconcile, f)
              ((row-Fresh input.reference input.collected_cents none false).0, λ n. inr refl)
        | inr (s, f) ↦
            rw (reconcile, f)
              (found-New provider batch input t s.seller_order_id
                (reconcile_row input.reference (int input.collected_cents)
                  (some (known_of (snapshot s.order_id s.seller_order_id) s))
                  (any (settles_order s.seller_order_id) t))
                (row-Fresh input.reference input.collected_cents
                  (some (known_of (snapshot s.order_id s.seller_order_id) s))
                  (any (settles_order s.seller_order_id) t)))
      ]

  -- The rows written, with the one still to write.
  abbrev Kept : Option SettlementRow → List SettlementRow → Type 0
  Kept none t = IsSettledOnce t
  Kept (some row) t = IsSettledOnce (t ++ row ∷ [])

  flush-Kept :
      (pending : Option SettlementRow) (t w : List SettlementRow)
      → flush pending t ≡ some w
      → Kept pending t
      → IsSettledOnce w
  flush-Kept none t w h k = subst IsSettledOnce (one_table (some t) t w refl h) k
  flush-Kept (some row) t w h k = elim (Bool-cases (any (same_key row) t)) [
    | inl clash ↦ (let f : none ≡ some w = rw clash at h in cc)
    | inr free ↦
        subst IsSettledOnce (one_table (some (t ++ row ∷ [])) (t ++ row ∷ []) w refl (rw free at h))
          k
  ]

  abbrev LoopKept : Loop → Type 0
  LoopKept flush_failed = Unit
  LoopKept (read t pending results) = Kept pending t

  ingest_rows-LoopKept :
      (provider batch : ℕ) (shipments : List Shipment) (inputs : List RowInput)
      (t : List SettlementRow) (pending : Option SettlementRow) (results : List Reconciliation)
      → Kept pending t
      → LoopKept (ingest_rows snapshot provider batch shipments inputs t pending results)
  unfolding ingest_rows row_of
  ingest_rows-LoopKept provider batch shipments [] t pending results k = k
  ingest_rows-LoopKept provider batch shipments (input ∷ inputs) t pending results k =
      elim (Option-cases (flush pending t)) [
        | inl f ↦ rw (ingest_rows, f) tt
        | inr (w, f) ↦
            let (exact, new) = reconcile-New provider batch input shipments w in
            rw (ingest_rows, f)
              (ingest_rows-LoopKept provider batch shipments inputs w
                (some (row_of snapshot provider batch input shipments w))
                (results ++ (reconcile snapshot provider input shipments w).1 ∷ [])
                (IsSettledOnce-append w (row_of snapshot provider batch input shipments w)
                  (flush-Kept pending t w f k) exact new))
      ]

  conclude-IsSettledOnce :
      (commits : Bool) (request : SettlementRequest) (db : Database) (loop : Loop)
      → IsSettledOnce db.settlement_rows
      → LoopKept loop
      → IsSettledOnce (conclude snapshot commits request db loop).1.settlement_rows
  unfolding conclude
  conclude-IsSettledOnce commits request db flush_failed v k = v
  conclude-IsSettledOnce commits request db (read t pending results) v k =
      elim (Option-cases (flush pending t)) [
        | inl f ↦ rw (conclude, f) v
        | inr (w, f) ↦ elim (Bool-cases commits) [
          | inl c ↦ rw (conclude, f, c) (flush-Kept pending t w f k)
          | inr c ↦ rw (conclude, f, c) v
        ]
      ]

  ingest-IsSettledOnce :
      (commits : Bool) (couriers : List ℕ) (request : SettlementRequest) (db : Database)
      → IsSettledOnce db.settlement_rows
      → IsSettledOnce (ingest_settlement snapshot commits couriers request db).1.settlement_rows
  unfolding ingest_settlement
  ingest-IsSettledOnce commits couriers request db v =
      elim (Option-cases (find_courier request.provider couriers)) [
        | inl f ↦ rw (ingest_settlement, f) v
        | inr (p, f) ↦
            rw (ingest_settlement, f)
              (conclude-IsSettledOnce commits request db
                (ingest_rows snapshot p request.batch_reference db.shipments request.rows
                  db.settlement_rows none [])
                v
                (ingest_rows-LoopKept p request.batch_reference db.shipments request.rows
                  db.settlement_rows none [] v))
      ]

-- Any files, one after another, each with what order-saga answers about the seller orders meanwhile.
unfoldable pub ingest_all :
    List ℕ → List (Bool × (ℕ → ℕ → Option Known) × SettlementRequest) → Database → Database
unfolding ingest_settlement
ingest_all couriers [] db = db
ingest_all couriers ((commits, snapshot, request) ∷ more) db =
    ingest_all couriers more (ingest_settlement snapshot commits couriers request db).1

-- However many settlement files are ingested one after another, with whatever rows, repeated or
-- corrected, and whatever order-saga answers meanwhile: if each seller order was matched with cash
-- at most once, and with the amount expected, this stays so.
pub matched_at_most_once :
    (couriers : List ℕ) (files : List (Bool × (ℕ → ℕ → Option Known) × SettlementRequest))
    (db : Database)
    → IsSettledOnce db.settlement_rows
    → IsSettledOnce (ingest_all couriers files db).settlement_rows
unfolding ingest_all
matched_at_most_once couriers [] db v = v
matched_at_most_once couriers ((commits, snapshot, request) ∷ more) db v =
    matched_at_most_once couriers more (ingest_settlement snapshot commits couriers request db).1
      (ingest-IsSettledOnce snapshot commits couriers request db v)
