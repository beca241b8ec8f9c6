-- ===== src/Fulfillment/Settlement/Resent.antt =====
-- A settlement file that is sent once more: ingest_settlement of
-- services/fulfillment-service/app/services/shipment_service.py.
use ecommerce_platform.Base.{
  Bool, true, Option, some, none, ℕ, List, [], ◌∷◌, ◌++◌, ◌==◌, ◌&&◌, ◌≡◌, any, arith, refl,
  Option-cases, Bool-cases, inl, inr, ==_refl,
}
use mathlib.Core.Path.{subst}
use ecommerce_platform.Base.Http.{Response, ok, http_error}
use ecommerce_platform.Fulfillment.{Known, Reconciliation, Summary}
use ecommerce_platform.Fulfillment.Settlement.{
  Shipment, SettlementRow, RowInput, SettlementRequest, Database, same_key, flush, Loop, read,
  flush_failed, reconcile, row_of, ingest_rows, conclude, find_courier, ingest_settlement,
}

one_table :
    (o : Option (List SettlementRow)) (t w : List SettlementRow) → o ≡ some t → o ≡ some w → t ≡ w
one_table o t w h k = cc

own_key : (p b r : ℕ) → ((p == p) && (b == b) && (r == r)) ≡ true
own_key p b r = rw (==_refl p, ==_refl b, ==_refl r) refl

any-append_left :
    (q : SettlementRow → Bool) (t u : List SettlementRow) → any q t ≡ true → any q (t ++ u) ≡ true
any-append_left q [] u h = cc
any-append_left q (x ∷ t) u h = ground (arith, any-append_left q t u)

any-append_last :
    (q : SettlementRow → Bool) (t : List SettlementRow) (r : SettlementRow)
    → q r ≡ true
    → any q (t ++ r ∷ []) ≡ true
any-append_last q [] r h = ground arith
any-append_last q (x ∷ t) r h = ground (arith, any-append_last q t r h)

-- The key of the unique index.
abbrev keyed : ℕ → ℕ → ℕ → SettlementRow → Bool
keyed provider batch reference row =
    row.provider == provider && row.batch_reference == batch && row.row_reference == reference

module _ (q : SettlementRow → Bool) where
  -- The key is among the rows written and the one still to write.
  abbrev Has : Option SettlementRow → List SettlementRow → Type 0
  Has none t = any q t ≡ true
  Has (some row) t = any q (t ++ row ∷ []) ≡ true

  flush-Has :
      (pending : Option SettlementRow) (t w : List SettlementRow)
      → flush pending t ≡ some w
      → Has pending t
      → any q w ≡ true
  flush-Has none t w h k = subst (λ u. any q u ≡ true) (one_table (some t) t w refl h) k
  flush-Has (some row) t w h k = elim (Bool-cases (any (same_key row) t)) [
    | inl clash ↦ (let f : none ≡ some w = rw clash at h in cc)
    | inr free ↦
        subst (λ u. any q u ≡ true)
          (one_table (some (t ++ row ∷ [])) (t ++ row ∷ []) w refl (rw free at h)) k
  ]

  abbrev LoopHas : Loop → Type 0
  LoopHas flush_failed = Unit
  LoopHas (read t pending results) = Has pending t

  ingest_rows-LoopHas :
      (snapshot : ℕ → ℕ → Option Known) (provider batch : ℕ) (shipments : List Shipment)
      (inputs : List RowInput) (t : List SettlementRow) (pending : Option SettlementRow)
      (results : List Reconciliation)
      → Has pending t
      → LoopHas (ingest_rows snapshot provider batch shipments inputs t pending results)
  unfolding ingest_rows row_of
  ingest_rows-LoopHas snapshot provider batch shipments [] t pending results k = k
  ingest_rows-LoopHas snapshot provider batch shipments (input ∷ inputs) t pending results k =
      elim (Option-cases (flush pending t)) [
        | inl f ↦ rw (ingest_rows, f) tt
        | inr (w, f) ↦
            let row = row_of snapshot provider batch input shipments w in
            rw (ingest_rows, f)
              (ingest_rows-LoopHas snapshot provider batch shipments inputs w (some row)
                (results ++ (reconcile snapshot provider input shipments w).1 ∷ [])
                (any-append_left q w (row ∷ []) (flush-Has pending t w f k)))
      ]

  -- An answer that is a summary leaves the key in the table.
  abbrev Answers : Response Summary × Database → Type 0
  Answers (http_error code, db) = Unit
  Answers (ok summary, db) = any q db.settlement_rows ≡ true

  conclude-Answers :
      (snapshot : ℕ → ℕ → Option Known) (commits : Bool) (request : SettlementRequest)
      (db : Database) (loop : Loop)
      → LoopHas loop
      → Answers (conclude snapshot commits request db loop)
  unfolding conclude
  conclude-Answers snapshot commits request db flush_failed k = tt
  conclude-Answers snapshot commits request db (read t pending results) k =
      elim (Option-cases (flush pending t)) [
        | inl f ↦ rw (conclude, f) tt
        | inr (w, f) ↦ elim (Bool-cases commits) [
          | inl c ↦ rw (conclude, f, c) (flush-Has pending t w f k)
          | inr c ↦ rw (conclude, f, c) tt
        ]
      ]

module _ (couriers : List ℕ) (named batch provider : ℕ) (input : RowInput) (inputs : List RowInput)
    (known : find_courier named couriers ≡ some provider) where
  abbrev file : SettlementRequest
  file = record { provider = named; batch_reference = batch; rows = input ∷ inputs }

  first_time :
      (snapshot : ℕ → ℕ → Option Known) (commits : Bool) (db : Database)
      → Answers
          (keyed provider batch input.reference)
          (ingest_settlement snapshot commits couriers file db)
  unfolding ingest_settlement ingest_rows row_of
  first_time snapshot commits db =
      let q = keyed provider batch input.reference in
      let row = row_of snapshot provider batch input db.shipments db.settlement_rows in
      rw (ingest_settlement, known)
        (conclude-Answers q snapshot commits file db
          (ingest_rows snapshot provider batch db.shipments (input ∷ inputs) db.settlement_rows none
            [])
          (ingest_rows-LoopHas q snapshot provider batch db.shipments inputs db.settlement_rows
            (some row) ((reconcile snapshot provider input db.shipments db.settlement_rows).1 ∷ [])
            (any-append_last q db.settlement_rows row (own_key provider batch input.reference))))

  -- The answer to a file whose first row is in the table already.
  abbrev refusal : List RowInput → ℕ
  refusal [] = 409
  refusal (i ∷ is) = 500

  second_time :
      (snapshot : ℕ → ℕ → Option Known) (commits : Bool) (db : Database)
      → any (keyed provider batch input.reference) db.settlement_rows ≡ true
      → ingest_settlement snapshot commits couriers file db ≡ (http_error (refusal inputs), db)
  unfolding ingest_settlement ingest_rows row_of conclude
  second_time snapshot commits db h = rw (ingest_settlement, known) (rest inputs)
    where
      rest :
          (is : List RowInput)
          → conclude snapshot commits file db (
              ingest_rows snapshot provider batch db.shipments
                (input ∷ is)
                db.settlement_rows
                none
                [])
            ≡ (http_error (refusal is), db)
      rest [] = rw (conclude, h) refl
      rest (i ∷ is) = rw (ingest_rows, h) refl

  answered :
      (summary : Summary) (x : Response Summary × Database)
      → Answers (keyed provider batch input.reference) x
      → x.0 ≡ ok summary
      → any (keyed provider batch input.reference) x.1.settlement_rows ≡ true
  answered summary (ok s, db) a h = a
  answered summary (http_error code, db) a h = cc

  -- When a settlement file of a known courier was ingested, the same file sent again changes nothing,
  -- whatever order-saga answers meanwhile: it is answered 409 if it has one row, and 500 if it has
  -- more.
  pub resent_file :
      (snapshot later : ℕ → ℕ → Option Known) (commits again : Bool) (db : Database)
      (summary : Summary)
      → (ingest_settlement snapshot commits couriers file db).0 ≡ ok summary
      → ingest_settlement later again couriers file
          (ingest_settlement snapshot commits couriers file db).1
        ≡ (http_error (refusal inputs), (ingest_settlement snapshot commits couriers file db).1)
  resent_file snapshot later commits again db summary h =
      let x = ingest_settlement snapshot commits couriers file db in
      second_time later again x.1 (answered summary x (first_time snapshot commits db) h)
