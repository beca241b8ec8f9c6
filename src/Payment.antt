-- ===== src/Payment.antt =====
-- Decisions about charges and refunds: services/payment-service/app/services/charge_rules.py and
-- refund_rules.py. A decision's `detail`, a text for people, is left out.
mod Tests
pub mod Service
use ecommerce_platform.Base.{Bool, true, false, Option, none, some, ℕ, if◌then◌else◌, ◌&&◌}
use ecommerce_platform.Base.Int.{ℤ, pos, neg, abs}
use Prim.Native.String.{String}

-- DECLINE_TOKEN, no token, and every other token.
pub data PaymentToken : Type 0 where
  tok_fail no_token : PaymentToken
  token : String → PaymentToken

-- The statuses of a row of the payment ledger.
pub data PaymentStatus : Type 0 where
  success failed refunded refund_noop : PaymentStatus

-- EVENT_CHARGED, EVENT_FAILED, and the event of process_refund.
pub data PaymentEvent : Type 0 where
  payment_charged payment_failed payment_refunded : PaymentEvent

unfoldable pub authorize : PaymentToken → PaymentStatus
authorize tok_fail = failed
authorize no_token = success
authorize (token t) = success

abbrev pub is_success : PaymentStatus → Bool
is_success success = true
is_success failed = false
is_success refunded = false
is_success refund_noop = false

unfoldable pub event_for : PaymentStatus → PaymentEvent
event_for status = if is_success status then payment_charged else payment_failed

pub data IdempotencyOutcome : Type 0 where
  proceed return_cached retry_later : IdempotencyOutcome

unfoldable pub resolve_idempotency : Bool → Option ℕ → Bool → IdempotencyOutcome
resolve_idempotency true stored_result_id cached_result_found = proceed
resolve_idempotency false none cached_result_found = retry_later
resolve_idempotency false (some id) cached_result_found =
    if cached_result_found then return_cached else retry_later

-- SETTLED_STATUSES
abbrev pub is_settled : PaymentStatus → Bool
is_settled refunded = true
is_settled refund_noop = true
is_settled success = false
is_settled failed = false

abbrev pub is_refunded : PaymentStatus → Bool
is_refunded refunded = true
is_refunded refund_noop = false
is_refunded success = false
is_refunded failed = false

-- LedgerEntry
pub record LedgerEntry : Type 0 where
  pub status : PaymentStatus
  pub amount_cents : ℤ

pub data RefundOutcome : Type 0 where
  already_settled no_charge reversed : RefundOutcome

pub record RefundPlan : Type 0 where
  pub outcome : RefundOutcome
  pub refunded : Bool
  pub refunded_cents : ℤ
  pub append_status : Option PaymentStatus
  pub append_amount_cents : ℤ
  pub emit_event : Bool

unfoldable pub plan_refund : Option LedgerEntry → Option LedgerEntry → RefundPlan
plan_refund (some prior) charge = record {
  outcome = already_settled;
  refunded = is_refunded prior.status;
  refunded_cents = abs prior.amount_cents;
  append_status = none;
  append_amount_cents = pos 0;
  emit_event = false;
}
plan_refund none none = record {
  outcome = no_charge;
  refunded = false;
  refunded_cents = pos 0;
  append_status = some refund_noop;
  append_amount_cents = pos 0;
  emit_event = true;
}
plan_refund none (some charge) = record {
  outcome = reversed;
  refunded = true;
  refunded_cents = charge.amount_cents;
  append_status = some PaymentStatus.refunded;
  append_amount_cents = neg charge.amount_cents;
  emit_event = true;
}
