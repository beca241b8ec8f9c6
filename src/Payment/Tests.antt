-- ===== src/Payment/Tests.antt =====
-- A charge of 999 cents for order 7 and its refund
-- (services/payment-service/app/services/payment_service.py).
use ecommerce_platform.Base.{List, [], ◌∷◌, ◌≡◌, refl, true, some, none, ◌≤◌, arith}
use ecommerce_platform.Base.Int.{pos}
use ecommerce_platform.Base.Http.{ok}
use ecommerce_platform.Payment.{PaymentToken, refund_noop, success}
use ecommerce_platform.Payment.Service.{
  PaymentRow, Database, ChargeRequest, RefundRequest, RefundResponse, charge_row, process_charge,
  process_refund,
}
use ecommerce_platform.Payment.Service.Refunds.{
  net_of_order, settlements, process_refund-squares, late_charge_kept,
}
use ecommerce_platform.Payment.Service.Retries.{Request, serve_all, refunded_at_most_once}

abbrev order_charge : ChargeRequest
order_charge = record {
  order_id = 7;
  user_id = 3;
  amount_cents = pos 999;
  payment_token = PaymentToken.token "internal_saga_bypass";
}

abbrev order_refund : RefundRequest
order_refund = record { order_id = 7; user_id = 3 }

abbrev paid_row : PaymentRow
paid_row = record {
  id = 1;
  order_id = 7;
  user_id = 3;
  amount_cents = pos 999;
  payment_token = some (PaymentToken.token "internal_saga_bypass");
  status = success;
}

abbrev noop_row : PaymentRow
noop_row = record {
  id = 2;
  order_id = 7;
  user_id = 3;
  amount_cents = pos 0;
  payment_token = none;
  status = refund_noop;
}

abbrev empty_ledger : Database
empty_ledger = record { rows = []; outbox = []; keys = [] }

abbrev paid_ledger : Database
paid_ledger = record { rows = paid_row ∷ []; outbox = []; keys = (50, some 1) ∷ [] }

abbrev noop_ledger : Database
noop_ledger = record { rows = noop_row ∷ []; outbox = []; keys = [] }

process_refund-squares_example :
    (response : RefundResponse) × ((process_refund true 9 order_refund paid_ledger).0 ≡ ok response)
    × (net_of_order 7 (process_refund true 9 order_refund paid_ledger).1.rows ≡ pos 0)
process_refund-squares_example =
    process_refund-squares 9 order_refund (some paid_row) paid_ledger refl refl

late_charge_kept_example :
    ((process_charge true 9 order_charge 51 noop_ledger).1.rows
      ≡ noop_row ∷ charge_row 9 order_charge ∷ [])
    × ((process_refund true 10 order_refund (process_charge true 9 order_charge 51 noop_ledger).1).1
        ≡ (process_charge true 9 order_charge 51 noop_ledger).1)
late_charge_kept_example =
    late_charge_kept 9 10 51 true order_charge order_refund noop_row noop_ledger refl refl refl

abbrev traffic : List Request
traffic =
    Request.charge true 1 order_charge 50
    ∷ Request.refund true 2 order_refund
    ∷ Request.refund true 3 order_refund
    ∷ []

refunded_at_most_once_example : settlements 7 (serve_all traffic empty_ledger).rows ≤ 1
refunded_at_most_once_example = refunded_at_most_once traffic 7 empty_ledger (omega arith)
