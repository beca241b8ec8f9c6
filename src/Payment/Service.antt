-- ===== src/Payment/Service.antt =====
-- Charging and refunding: services/payment-service/app/services/payment_service.py, over the
-- payment_ledger table of services/payment-service/app/models.py. Currency and timestamps are left
-- out. The id of a new row is fresh, and is an argument, as is whether the commit succeeds. The
-- advisory lock takes refunds of one order one after another.
pub mod Refunds
pub mod Retries
use ecommerce_platform.Base.{
  Bool, true, false, Option, none, some, ℕ, List, [], ◌∷◌, ◌++◌, if◌then◌else◌, ◌&&◌, ◌==◌, keep_if,
}
use ecommerce_platform.Base.Int.{ℤ, pos, sum}
use ecommerce_platform.Base.Http.{Response, ok, http_error}
use ecommerce_platform.Payment.{
  PaymentToken, PaymentStatus, PaymentEvent, payment_refunded, authorize, is_success, event_for,
  IdempotencyOutcome, proceed, return_cached, retry_later, resolve_idempotency, is_settled,
  is_refunded, LedgerEntry, RefundPlan, plan_refund, failed,
}

-- PaymentLedger; the token is NULL-like ("n/a") on the row of a refund with no charge.
pub record PaymentRow : Type 0 where
  pub id : ℕ
  pub order_id : ℕ
  pub user_id : ℕ
  pub amount_cents : ℤ
  pub payment_token : Option PaymentToken
  pub status : PaymentStatus

-- An event, the row that it reports, and refunded_cents.
pub record PaymentMessage : Type 0 where
  pub event : PaymentEvent
  pub row : PaymentRow
  pub refunded_cents : ℤ

pub record Database : Type 0 where
  pub rows : List PaymentRow
  pub outbox : List PaymentMessage
  pub keys : List (ℕ × Option ℕ)

pub record ChargeRequest : Type 0 where
  pub order_id : ℕ
  pub user_id : ℕ
  pub amount_cents : ℤ
  pub payment_token : PaymentToken

pub record RefundRequest : Type 0 where
  pub order_id : ℕ
  pub user_id : ℕ

pub record RefundResponse : Type 0 where
  pub order_id : ℕ
  pub refunded : Bool
  pub refunded_cents : ℤ
  pub status : PaymentStatus

abbrev pub find_row : ℕ → List PaymentRow → Option PaymentRow
find_row n [] = none
find_row n (r ∷ rs) = if r.id == n then some r else find_row n rs

abbrev pub find_key : ℕ → List (ℕ × Option ℕ) → Option (Option ℕ)
find_key k [] = none
find_key k ((j, r) ∷ ks) = if j == k then some r else find_key k ks

-- key_was_inserted and stored_result_id
abbrev pub is_new : Option (Option ℕ) → Bool
is_new none = true
is_new (some r) = false

abbrev pub stored_result : Option (Option ℕ) → Option ℕ
stored_result none = none
stored_result (some r) = r

-- The row that the stored id still resolves to.
abbrev pub cached : Option ℕ → List PaymentRow → Option PaymentRow
cached none rows = none
cached (some id) rows = find_row id rows

abbrev pub is_found : Option PaymentRow → Bool
is_found none = false
is_found (some r) = true

abbrev pub charge_row : ℕ → ChargeRequest → PaymentRow
charge_row id request = record {
  id = id;
  order_id = request.order_id;
  user_id = request.user_id;
  amount_cents = request.amount_cents;
  payment_token = some request.payment_token;
  status = authorize request.payment_token;
}

-- What is written once the charge goes ahead.
unfoldable pub store_charge :
    Bool → ℕ → ChargeRequest → ℕ → Database → Response PaymentRow × Database
unfolding authorize event_for
store_charge commits id request key db =
    let row = charge_row id request in
    if commits
    then (
      ok row,
      record {
        rows = db.rows ++ row ∷ [];
        outbox =
            db.outbox
            ++ record { event = event_for row.status; row = row; refunded_cents = pos 0 } ∷ [];
        keys = (key, some id) ∷ db.keys;
      },
    )
    else (http_error 500, db)

unfoldable pub process_charge :
    Bool → ℕ → ChargeRequest → ℕ → Database → Response PaymentRow × Database
unfolding resolve_idempotency store_charge
process_charge commits id request key db =
    let stored = find_key key db.keys in
    let found = cached (stored_result stored) db.rows in
    elim (resolve_idempotency (is_new stored) (stored_result stored) (is_found found)) [
      | return_cached ↦ elim found [ some row ↦ (ok row, db) | none ↦ (http_error 500, db) ]
      | retry_later ↦ (http_error 409, db)
      | proceed ↦ store_charge commits id request key db
    ]

-- The settled row of an order; there is at most one.
abbrev pub find_settled : ℕ → List PaymentRow → Option PaymentRow
find_settled order [] = none
find_settled order (r ∷ rs) =
    if r.order_id == order && is_settled r.status then some r else find_settled order rs

abbrev pub is_charge_of : ℕ → PaymentRow → Bool
is_charge_of order r = r.order_id == order && is_success r.status

-- scalar_one_or_none: several rows raise.
abbrev pub one_or_none : List PaymentRow → Response (Option PaymentRow)
one_or_none [] = ok none
one_or_none (r ∷ []) = ok (some r)
one_or_none (r ∷ s ∷ rs) = http_error 500

abbrev pub entry_of : Option PaymentRow → Option LedgerEntry
entry_of none = none
entry_of (some r) = some (record { status = r.status; amount_cents = r.amount_cents })

-- `charge.user_id if charge else request.user_id`, and the token likewise.
abbrev pub user_of : Option PaymentRow → RefundRequest → ℕ
user_of none request = request.user_id
user_of (some charge) request = charge.user_id

abbrev pub token_of : Option PaymentRow → Option PaymentToken
token_of none = none
token_of (some charge) = charge.payment_token

abbrev pub refund_row :
    ℕ → RefundRequest → RefundPlan → PaymentStatus → Option PaymentRow → PaymentRow
refund_row id request plan status charge = record {
  id = id;
  order_id = request.order_id;
  user_id = user_of charge request;
  amount_cents = plan.append_amount_cents;
  payment_token = token_of charge;
  status = status;
}

abbrev pub refund_response : RefundRequest → RefundPlan → PaymentStatus → RefundResponse
refund_response request plan status = record {
  order_id = request.order_id;
  refunded = plan.refunded;
  refunded_cents = plan.refunded_cents;
  status = status;
}

-- What follows the two queries. A plan that appends nothing has a prior row.
unfoldable pub carry_out_refund :
    Bool
    → ℕ
    → RefundRequest
    → Option PaymentRow
    → Option PaymentRow
    → Database
    → Response RefundResponse × Database
unfolding plan_refund
carry_out_refund commits id request prior charge db =
    let plan = plan_refund (entry_of prior) (entry_of charge) in
    elim (plan.append_status) [
      | none ↦ elim prior [
        | some row ↦ (ok (refund_response request plan row.status), db)
        | none ↦ (http_error 500, db)
      ]
      | some status ↦
          let row = refund_row id request plan status charge in
          if commits
          then (
            ok (refund_response request plan status),
            record db {
              rows = db.rows ++ row ∷ [];
              outbox =
                  db.outbox
                  ++ record {
                    event = payment_refunded;
                    row = row;
                    refunded_cents = plan.refunded_cents;
                  }
                    ∷ [];
            },
          )
          else (http_error 500, db)
    ]

unfoldable pub process_refund :
    Bool → ℕ → RefundRequest → Database → Response RefundResponse × Database
unfolding carry_out_refund
process_refund commits id request db =
    elim (one_or_none (keep_if (is_charge_of request.order_id) db.rows)) [
      | http_error code ↦ (http_error code, db)
      | ok charge ↦
          carry_out_refund commits id request (find_settled request.order_id db.rows) charge db
    ]
