-- ===== src/Fulfillment/Settlement/Fresh.antt =====
-- One row of ingest_settlement of services/fulfillment-service/app/services/shipment_service.py, and the
-- rows written before it.
use ecommerce_platform.Base.{
  ◌&&◌, Bool, true, false, Option, some, none, ℕ, List, [], ◌∷◌, ◌++◌, ◌==◌, ◌≡◌, ◌≤◌, ◌+◌,
  if◌then◌else◌, any, All, All-append, arith, refl, ◌⊎◌, ==_iff, Bool-cases, inl, inr,
}
use ecommerce_platform.Base.Int.{eq_of_parts, pos_part, neg_part, ℤ, pos, ◌==ℤ◌, ltb_ℤ}
use ecommerce_platform.Dispatcher.Items.{int}
use ecommerce_platform.Fulfillment.{
  ReconcileOutcome, matched, is_matched, Known, Reconciliation, reconcile_row, reconcile_amount,
  compare_amounts,
}
use ecommerce_platform.Fulfillment.Settlement.{SettlementRow, settles_order}

-- The rows that say that a seller order was settled.
abbrev pub settled_rows : ℕ → List SettlementRow → ℕ
settled_rows n [] = 0
settled_rows n (r ∷ rs) = (if settles_order n r then 1 else 0) + settled_rows n rs

-- A matched row's cash is what was expected.
abbrev pub ExactFor : ReconcileOutcome → ℤ → ℤ → Type 0
ExactFor matched expected collected = collected ≡ expected
ExactFor _ expected collected = Unit

abbrev pub Exact : SettlementRow → Type 0
Exact row = ExactFor row.outcome row.expected_cents row.collected_cents

-- Every seller order is settled at most once, with the cash that was expected.
pub record IsSettledOnce (table : List SettlementRow) : Type 0 where
  pub once : (n : ℕ) → settled_rows n table ≤ 1
  pub exact : All Exact table

pub same_amount : (a b : ℤ) → (a ==ℤ b) ≡ true → a ≡ b
same_amount a b h =
    eq_of_parts a b ((==_iff (pos_part a + neg_part b) (pos_part b + neg_part a)).0 h)

pub settled_rows-append :
    (n : ℕ) (t : List SettlementRow) (r : SettlementRow)
    → settled_rows n (t ++ r ∷ []) ≡ settled_rows n t + (if settles_order n r then 1 else 0)
settled_rows-append n [] r = omega arith
settled_rows-append n (x ∷ t) r = omega (arith, settled_rows-append n t r)

pub never_settled :
    (n : ℕ) (t : List SettlementRow) → any (settles_order n) t ≡ false → settled_rows n t ≡ 0
never_settled n [] h = refl
never_settled n (x ∷ t) h = ground (arith, never_settled n t)

-- What a row's classification says of the seller order it is for.
abbrev pub Fresh : Bool → Reconciliation → Type 0
Fresh settled r =
    ExactFor r.outcome r.expected_cents r.remitted_cents
    × ((settled ≡ false) ⊎ (is_matched r.outcome ≡ false))

pub compared :
    (expected remitted : ℤ) → ExactFor (compare_amounts expected remitted) expected remitted
compared expected remitted = elim (Bool-cases (remitted ==ℤ expected)) [
  | inl e ↦ rw e (same_amount remitted expected e)
  | inr e ↦ elim (Bool-cases (ltb_ℤ remitted expected)) [
    | inl l ↦ rw (e, l) tt
    | inr l ↦ rw (e, l) tt
  ]
]

pub usable-Fresh :
    (reference : ℕ) (remitted : ℤ) (known : Option Known) (settled : Bool)
    → ltb_ℤ remitted (pos 0) ≡ false
    → Fresh settled (reconcile_amount reference remitted known settled)
usable-Fresh reference remitted none settled g = rw g (tt, inr refl)
usable-Fresh reference remitted (some k) true g = rw g (tt, inr refl)
usable-Fresh reference remitted (some k) false g = elim (Bool-cases (k.is_delivered)) [
  | inl d ↦ rw (g, d) (compared k.expected_cents remitted, inl refl)
  | inr d ↦ rw (g, d) (tt, inr refl)
]

pub amount-Fresh :
    (reference : ℕ) (remitted : ℤ) (known : Option Known) (settled : Bool)
    → Fresh settled (reconcile_amount reference remitted known settled)
amount-Fresh reference remitted known settled = elim (Bool-cases (ltb_ℤ remitted (pos 0))) [
  | inl bad ↦ rw bad (tt, inr refl)
  | inr good ↦ usable-Fresh reference remitted known settled good
]

pub row-Fresh :
    (reference : ℕ) (remitted : ℤ) (known : Option Known) (settled : Bool)
    → Fresh settled (reconcile_row reference (int remitted) known settled)
unfolding reconcile_row
row-Fresh reference remitted known settled = elim (Bool-cases (reference == 0)) [
  | inl e ↦ rw (reconcile_row, e) (tt, inr refl)
  | inr e ↦ rw (reconcile_row, e) (amount-Fresh reference remitted known settled)
]

pub and_false : (b : Bool) → (b && false) ≡ false
and_false b = ground arith

pub one_table :
    (o : Option (List SettlementRow)) (t w : List SettlementRow) → o ≡ some t → o ≡ some w → t ≡ w
one_table o t w h k = cc

pub at_most_one : (b : Bool) → 0 + (if b then 1 else 0) ≤ 1
at_most_one b = ground arith

pub IsSettledOnce-append :
    (t : List SettlementRow) (row : SettlementRow)
    → IsSettledOnce t
    → Exact row
    → ((n : ℕ) → (any (settles_order n) t ≡ false) ⊎ (settles_order n row ≡ false))
    → IsSettledOnce (t ++ row ∷ [])
IsSettledOnce-append t row v e new = record {
  once = λ n. elim (new n) [
    | inl f ↦
        rw (settled_rows-append n t row, never_settled n t f) (at_most_one (settles_order n row))
    | inr f ↦ rw (settled_rows-append n t row, f) (omega (arith, v.once n))
  ];
  exact = All-append Exact t (row ∷ []) v.exact (e, tt);
}
