-- ===== src/Payment/Service/Retries.antt =====
-- Repeated and mixed requests to services/payment-service/app/services/payment_service.py, with any
-- commits failing.
use ecommerce_platform.Base.{
  ap, ◌∙◌, ◌⊎◌, ==_refl, Bool, true, false, Option, none, some, ℕ, List, [], ◌∷◌, ◌++◌, keep_if,
  ◌≡◌, refl, arith, ◌≤◌, Option-cases, inl, inr,
}
use ecommerce_platform.Base.Int.{ℤ, pos, neg, abs, ◌≤ℤ◌}
use ecommerce_platform.Base.Http.{Response, ok, http_error}
use ecommerce_platform.Payment.{
  is_settled, is_success, PaymentStatus, refund_noop, resolve_idempotency, plan_refund,
}
use ecommerce_platform.Payment.Service.{
  refund_response, entry_of, refund_row, PaymentRow, Database, ChargeRequest, RefundRequest,
  find_row, find_key, process_charge, store_charge, charge_row, find_settled, is_charge_of,
  one_or_none, carry_out_refund, process_refund,
}
use ecommerce_platform.Payment.Service.Refunds.{
  find_settled-new, settlements, settlements-append, unsettled, settled_refund,
}

pub data Request : Type 0 where
  charge : Bool → ℕ → ChargeRequest → ℕ → Request
  refund : Bool → ℕ → RefundRequest → Request

unfoldable pub serve : Request → Database → Database
unfolding process_charge process_refund
serve (charge commits id request key) db = (process_charge commits id request key db).1
serve (refund commits id request) db = (process_refund commits id request db).1

unfoldable pub serve_all : List Request → Database → Database
unfolding serve
serve_all [] db = db
serve_all (r ∷ rs) db = serve_all rs (serve r db)

charge-settles :
    (order : ℕ) (commits : Bool) (id : ℕ) (request : ChargeRequest) (key : ℕ) (db : Database)
    → settlements order (process_charge commits id request key db).1.rows
      ≡ settlements order db.rows
unfolding process_charge store_charge resolve_idempotency
charge-settles order commits id request key db =
    ground (arith, settlements-append order db.rows (charge_row id request ∷ []))

-- What a refund of an order with no settled row does to the rows.
abbrev AddsOne : ℕ → List PaymentRow → List PaymentRow → Type 0
AddsOne order rows rows' =
    (rows' ≡ rows) ⊎ ((r : PaymentRow) × (rows' ≡ rows ++ r ∷ []) × (r.order_id ≡ order))

refund-AddsOne :
    (commits : Bool) (id : ℕ) (request : RefundRequest) (db : Database)
    (c : Response (Option PaymentRow))
    → find_settled request.order_id db.rows ≡ none
    → one_or_none (keep_if (is_charge_of request.order_id) db.rows) ≡ c
    → AddsOne request.order_id db.rows (process_refund commits id request db).1.rows
unfolding process_refund carry_out_refund plan_refund
refund-AddsOne commits id request db (http_error code) f e = rw (process_refund, e) (inl refl)
refund-AddsOne false id request db (ok none) f e = rw (process_refund, e, f) (inl refl)
refund-AddsOne false id request db (ok (some r)) f e = rw (process_refund, e, f) (inl refl)
refund-AddsOne true id request db (ok none) f e =
    rw (process_refund, e, f)
      (inr (refund_row id request (plan_refund none none) refund_noop none, refl, refl))
refund-AddsOne true id request db (ok (some r)) f e =
    rw (process_refund, e, f)
      (inr (
        refund_row id request (plan_refund none (entry_of (some r))) PaymentStatus.refunded
            (some r),
        refl,
        refl,
      ))

AddsOne-settles :
    (order n : ℕ) (rows rows' : List PaymentRow)
    → AddsOne n rows rows'
    → settlements n rows ≡ 0
    → settlements order rows ≤ 1
    → settlements order rows' ≤ 1
AddsOne-settles order n rows rows' (inl e) z h = rw e h
AddsOne-settles order n rows rows' (inr (r, e, o)) z h =
    rw (e, settlements-append order rows (r ∷ [])) (ground arith)

refund-settles :
    (order : ℕ) (commits : Bool) (id : ℕ) (request : RefundRequest) (db : Database)
    → settlements order db.rows ≤ 1
    → settlements order (process_refund commits id request db).1.rows ≤ 1
refund-settles order commits id request db h =
    elim (Option-cases (find_settled request.order_id db.rows)) [
      | inr (p, f) ↦ rw (settled_refund commits id request db p f) h
      | inl f ↦
          AddsOne-settles order request.order_id db.rows
            (process_refund commits id request db).1.rows
            (refund-AddsOne commits id request db
              (one_or_none (keep_if (is_charge_of request.order_id) db.rows)) f refl)
            (unsettled request.order_id db.rows f) h
    ]

-- Whatever charges and refunds are requested, in any order and with any commits failing, an order
-- that has at most one settled row (a refund, or the record that there was nothing to refund)
-- never gets a second one.
pub refunded_at_most_once :
    (requests : List Request) (order : ℕ) (db : Database)
    → settlements order db.rows ≤ 1
    → settlements order (serve_all requests db).rows ≤ 1
unfolding serve_all serve
refunded_at_most_once [] order db h = h
refunded_at_most_once (charge commits id request key ∷ rs) order db h =
    refunded_at_most_once rs order (process_charge commits id request key db).1
      (rw (charge-settles order commits id request key db) h)
refunded_at_most_once (refund commits id request ∷ rs) order db h =
    refunded_at_most_once rs order (process_refund commits id request db).1
      (refund-settles order commits id request db h)

find_row-append :
    (n : ℕ) (r : PaymentRow) (rs : List PaymentRow)
    → find_row n rs ≡ none
    → r.id ≡ n
    → find_row n (rs ++ r ∷ []) ≡ some r
find_row-append n r [] f e = ground arith
find_row-append n r (s ∷ ss) f e = ground (arith, find_row-append n r ss)

charge_first :
    (id : ℕ) (request : ChargeRequest) (key : ℕ) (db : Database)
    → find_key key db.keys ≡ none
    → process_charge true id request key db ≡ store_charge true id request key db
unfolding process_charge resolve_idempotency
charge_first id request key db k = rw (process_charge, k)

charge_cached :
    (commits : Bool) (id i : ℕ) (request : ChargeRequest) (key : ℕ) (row : PaymentRow)
    (db : Database)
    → find_key key db.keys ≡ some (some i)
    → find_row i db.rows ≡ some row
    → process_charge commits id request key db ≡ (ok row, db)
unfolding process_charge resolve_idempotency
charge_cached commits id i request key row db k f = rw (process_charge, k, f) (rw (k, f))

-- A charge with a key that was not used before, under an id that is fresh and with a commit that
-- succeeds, is answered with its row; and every later charge with that key is answered with the same
-- row, whatever it asks for, and changes nothing.
pub charge_replay :
    (commits' : Bool) (id id' key : ℕ) (request request' : ChargeRequest) (db : Database)
    → find_key key db.keys ≡ none
    → find_row id db.rows ≡ none
    → let db' = (process_charge true id request key db).1 in
      ((process_charge true id request key db).0 ≡ ok (charge_row id request))
      × (process_charge commits' id' request' key db' ≡ (ok (charge_row id request), db'))
unfolding store_charge
charge_replay commits' id id' key request request' db k f =
    let db' = (store_charge true id request key db).1 in
    rw (charge_first id request key db k) (
      refl,
      charge_cached commits' id' id request' key (charge_row id request) db' (rw (==_refl key) refl)
          (find_row-append id (charge_row id request) db.rows f refl),
    )

-- The amount of the charge that a refund reverses.
abbrev pub charged : Option PaymentRow → ℤ
charged none = pos 0
charged (some c) = c.amount_cents

abs-neg : (a : ℤ) → pos 0 ≤ℤ a → abs (neg a) ≡ a
unfolding abs neg
abs-neg a h = ground arith

same_charges :
    (order : ℕ) (r : PaymentRow) (rs : List PaymentRow)
    → is_success r.status ≡ false
    → keep_if (is_charge_of order) (rs ++ r ∷ []) ≡ keep_if (is_charge_of order) rs
same_charges order r [] e = ground arith
same_charges order r (s ∷ ss) e = ground (arith, same_charges order r ss)

-- A refund of an order whose settled row and charge are known.
refund_settled :
    (commits : Bool) (id : ℕ) (request : RefundRequest) (p : PaymentRow) (c : Option PaymentRow)
    (db : Database)
    → find_settled request.order_id db.rows ≡ some p
    → one_or_none (keep_if (is_charge_of request.order_id) db.rows) ≡ ok c
    → process_refund commits id request db
      ≡ (ok (refund_response request (plan_refund (entry_of (some p)) none) p.status), db)
unfolding process_refund carry_out_refund plan_refund
refund_settled commits id request p c db f e = rw (process_refund, e, f)

refund_first :
    (id : ℕ) (request : RefundRequest) (c : Option PaymentRow) (db : Database)
    → find_settled request.order_id db.rows ≡ none
    → one_or_none (keep_if (is_charge_of request.order_id) db.rows) ≡ ok c
    → process_refund true id request db ≡ carry_out_refund true id request none c db
unfolding process_refund
refund_first id request c db f e = rw (process_refund, e, f)

-- A refund after `row` was put behind the rows of an order that was not settled.
refund_after :
    (commits : Bool) (id : ℕ) (request : RefundRequest) (c : Option PaymentRow) (row : PaymentRow)
    (db db' : Database)
    → find_settled request.order_id db.rows ≡ none
    → one_or_none (keep_if (is_charge_of request.order_id) db.rows) ≡ ok c
    → db'.rows ≡ db.rows ++ row ∷ []
    → row.order_id ≡ request.order_id
    → is_settled row.status ≡ true
    → process_refund commits id request db'
      ≡ (ok (refund_response request (plan_refund (entry_of (some row)) none) row.status), db')
refund_after commits id request c row db db' f e same o done =
    let own : find_settled request.order_id (row ∷ []) ≡ some row = ground arith in
    let not_charge : is_success row.status ≡ false = ground arith in
    refund_settled commits id request row c db'
      (rw same (find_settled-new request.order_id db.rows (row ∷ []) f ∙ own))
      (rw same (rw (same_charges request.order_id row db.rows not_charge) e))

-- Once a refund of an order has been committed, a retry of it, under whatever id and whether its
-- own commit would succeed or not, is answered exactly as the refund was and changes nothing. The
-- order was not settled before, and had at most one charge, of zero cents or more.
pub refund_again :
    (commits : Bool) (id id' : ℕ) (request : RefundRequest) (c : Option PaymentRow) (db : Database)
    → find_settled request.order_id db.rows ≡ none
    → one_or_none (keep_if (is_charge_of request.order_id) db.rows) ≡ ok c
    → pos 0 ≤ℤ charged c
    → process_refund commits id' request (process_refund true id request db).1
      ≡ process_refund true id request db
unfolding carry_out_refund plan_refund abs
refund_again commits id id' request none db f e h =
    let row = refund_row id request (plan_refund none none) refund_noop none in
    rw (refund_first id request none db f e) (
      refund_after commits id' request none row db (carry_out_refund true id request none none db).1
        f e refl refl refl)
refund_again commits id id' request (some r) db f e h =
    let plan = plan_refund none (entry_of (some r)) in
    let row = refund_row id request plan PaymentStatus.refunded (some r) in
    let db' = (carry_out_refund true id request none (some r) db).1 in
    rw (refund_first id request (some r) db f e) (
      refund_after commits id' request (some r) row db db' f e refl refl refl
      ∙ ap
          (λ a. (
            ok (
                refund_response request (record plan { refunded_cents = a })
                  PaymentStatus.refunded),
            db',
          ))
          (abs-neg r.amount_cents h))
