-- ===== src/Fulfillment.antt =====
-- One contract for many couriers: services/fulfillment-service/app/services/courier_rules.py, its
-- status actions and the reconciliation of a settlement row. Texts are numbers, 0 the empty text; the
-- texts of details are left out.
mod Tests
pub mod Mapping
pub mod Dispatch
pub mod Settlement
pub mod Shipments
use ecommerce_platform.Base.{
  Bool, true, false, Option, some, none, ℕ, List, [], ◌∷◌, ◌==◌, if◌then◌else◌, map, keep_if,
  length, not,
}
use ecommerce_platform.Base.Int.{ℤ, pos, ltb_ℤ, ◌==ℤ◌, ◌-ℤ◌, sum}
use ecommerce_platform.Dispatcher.Items.{Field}
use ecommerce_platform.SellerOrder.{Action, dispatch, deliver, mark_rto, complete_return, cancel}
use ecommerce_platform.SellerOrder.Split.{int_of}

pub data CourierStatus : Type 0 where
  pickup_pending picked_up in_transit out_for_delivery delivered delivery_failed : CourierStatus
  returning returned cancelled : CourierStatus

-- STATUS_ACTIONS, and action_for
unfoldable pub action_for : Option CourierStatus → Option Action
action_for (some picked_up) = some dispatch
action_for (some delivered) = some deliver
action_for (some returning) = some mark_rto
action_for (some returned) = some complete_return
action_for (some cancelled) = some cancel
action_for _ = none

pub data ReconcileOutcome : Type 0 where
  matched short over unknown_order not_delivered duplicate invalid : ReconcileOutcome

pub record Reconciliation : Type 0 where
  pub outcome : ReconcileOutcome
  pub reference : Option ℕ
  pub expected_cents : ℤ
  pub remitted_cents : ℤ

abbrev pub is_matched : ReconcileOutcome → Bool
is_matched matched = true
is_matched _ = false

-- Reconciliation.needs_attention
abbrev pub needs_attention : ReconcileOutcome → Bool
needs_attention matched = false
needs_attention duplicate = false
needs_attention _ = true

abbrev pub variance_cents : Reconciliation → ℤ
variance_cents r = r.remitted_cents -ℤ r.expected_cents

-- What is known of the seller order: the amount expected, and whether its status is DELIVERED.
pub record Known : Type 0 where
  pub expected_cents : ℤ
  pub is_delivered : Bool

abbrev pub reconciled : ReconcileOutcome → ℕ → ℤ → ℤ → Reconciliation
reconciled o reference expected remitted = record {
  outcome = o;
  reference = some reference;
  expected_cents = expected;
  remitted_cents = remitted;
}

-- The comparison of the two amounts.
abbrev pub compare_amounts : ℤ → ℤ → ReconcileOutcome
compare_amounts expected remitted =
    if remitted ==ℤ expected then matched else if ltb_ℤ remitted expected then short else over

-- What follows an amount that is usable.
abbrev pub reconcile_amount : ℕ → ℤ → Option Known → Bool → Reconciliation
reconcile_amount reference remitted known already_settled =
    if ltb_ℤ remitted (pos 0) then reconciled invalid reference (pos 0) remitted else elim known [
      | none ↦ reconciled unknown_order reference (pos 0) remitted
      | some k ↦
          if already_settled
          then reconciled duplicate reference k.expected_cents remitted
          else if k.is_delivered
          then reconciled (compare_amounts k.expected_cents remitted) reference k.expected_cents
              remitted
          else reconciled not_delivered reference k.expected_cents remitted
    ]

unfoldable pub reconcile_row : ℕ → Field → Option Known → Bool → Reconciliation
reconcile_row reference collected known already_settled =
    if reference == 0
    then record {
      outcome = invalid;
      reference = none;
      expected_cents = pos 0;
      remitted_cents = pos 0;
    }
    else elim (int_of collected) [
      | none ↦ reconciled invalid reference (pos 0) (pos 0)
      | some remitted ↦ reconcile_amount reference remitted known already_settled
    ]

-- summarise_settlement, without the count of every outcome.
pub record Summary : Type 0 where
  pub rows : ℕ
  pub matched_rows : ℕ
  pub attention_rows : ℕ
  pub variance : ℤ

unfoldable pub summarise_settlement : List Reconciliation → Summary
unfolding sum
summarise_settlement results =
    let attention = keep_if (λ (r : Reconciliation). needs_attention r.outcome) results in
    record {
      rows = length results;
      matched_rows = length (keep_if (λ (r : Reconciliation). is_matched r.outcome) results);
      attention_rows = length attention;
      variance = sum (map variance_cents attention);
    }
