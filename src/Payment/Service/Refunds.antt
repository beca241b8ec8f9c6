-- ===== src/Payment/Service/Refunds.antt =====
-- process_refund of services/payment-service/app/services/payment_service.py, and the sums over the
-- payment ledger.
use ecommerce_platform.Base.{
  Bool, true, false, Option, none, some, ℕ, List, [], ◌∷◌, ◌++◌, if◌then◌else◌, ◌&&◌, ◌==◌, keep_if,
  not, ◌≡◌, refl, arith, ap, sym, ◌∙◌, ◌+◌,
}
use ecommerce_platform.Base.Int.{ℤ, pos, neg, ◌+ℤ◌, int_laws, zero-+ℤ, +ℤ-zero, +ℤ_assoc}
use ecommerce_platform.Base.Http.{ok}
use ecommerce_platform.Payment.{
  resolve_idempotency, PaymentStatus, is_settled, plan_refund, refund_noop, failed,
}
use ecommerce_platform.Payment.Service.{
  PaymentRow, Database, ChargeRequest, RefundRequest, RefundResponse, find_key, process_charge,
  store_charge, charge_row, find_settled, is_charge_of, one_or_none, carry_out_refund,
  process_refund, refund_row, refund_response, entry_of,
}

abbrev is_failed : PaymentStatus → Bool
is_failed failed = true
is_failed _ = false

-- The sum of the rows of an order through which money moved: all but declined charges.
abbrev pub net_of_order : ℕ → List PaymentRow → ℤ
net_of_order order [] = pos 0
net_of_order order (r ∷ rs) =
    (if r.order_id == order && not (is_failed r.status) then r.amount_cents else pos 0)
    +ℤ net_of_order order rs

net_of_order-append :
    (order : ℕ) (rs ss : List PaymentRow)
    → net_of_order order (rs ++ ss) ≡ net_of_order order rs +ℤ net_of_order order ss
net_of_order-append order [] ss = sym (zero-+ℤ (net_of_order order ss))
net_of_order-append order (r ∷ rs) ss =
    let own = if r.order_id == order && not (is_failed r.status) then r.amount_cents else pos 0 in
    ap (λ t. own +ℤ t) (net_of_order-append order rs ss)
    ∙ sym (+ℤ_assoc own (net_of_order order rs) (net_of_order order ss))

net-no_charge :
    (order : ℕ) (rs : List PaymentRow)
    → find_settled order rs ≡ none
    → keep_if (is_charge_of order) rs ≡ []
    → net_of_order order rs ≡ pos 0
net-no_charge order [] f e = refl
net-no_charge order (r ∷ rs) f e =
    ground (arith, net-no_charge order rs, zero-+ℤ (net_of_order order rs))

net-charge :
    (order : ℕ) (c : PaymentRow) (rs : List PaymentRow)
    → find_settled order rs ≡ none
    → keep_if (is_charge_of order) rs ≡ c ∷ []
    → net_of_order order rs ≡ c.amount_cents
net-charge order c [] f e = cc
net-charge order c (r ∷ rs) f e = ground (
  arith,
  net-charge order c rs,
  net-no_charge order rs,
  zero-+ℤ (net_of_order order rs),
  +ℤ-zero r.amount_cents,
)

-- How many rows settle an order.
abbrev pub settlements : ℕ → List PaymentRow → ℕ
settlements order [] = 0
settlements order (r ∷ rs) =
    (if r.order_id == order && is_settled r.status then 1 else 0) + settlements order rs

pub settlements-append :
    (order : ℕ) (rs ss : List PaymentRow)
    → settlements order (rs ++ ss) ≡ settlements order rs + settlements order ss
settlements-append order [] ss = omega arith
settlements-append order (r ∷ rs) ss = omega (arith, settlements-append order rs ss)

pub unsettled :
    (order : ℕ) (rs : List PaymentRow) → find_settled order rs ≡ none → settlements order rs ≡ 0
unsettled order [] f = refl
unsettled order (r ∷ rs) f = ground (arith, unsettled order rs)

find_settled-append :
    (order : ℕ) (p : PaymentRow) (rs ss : List PaymentRow)
    → find_settled order rs ≡ some p
    → find_settled order (rs ++ ss) ≡ some p
find_settled-append order p [] ss f = cc
find_settled-append order p (r ∷ rs) ss f = ground (arith, find_settled-append order p rs ss)

pub find_settled-new :
    (order : ℕ) (rs ss : List PaymentRow)
    → find_settled order rs ≡ none
    → find_settled order (rs ++ ss) ≡ find_settled order ss
find_settled-new order [] ss f = refl
find_settled-new order (r ∷ rs) ss f = ground (arith, find_settled-new order rs ss)

pub keep_if-append :
    (p : PaymentRow → Bool) (rs ss : List PaymentRow)
    → keep_if p (rs ++ ss) ≡ keep_if p rs ++ keep_if p ss
keep_if-append p [] ss = refl
keep_if-append p (r ∷ rs) ss = ground (arith, keep_if-append p rs ss)

-- A refund of an order that has a settled row changes nothing.
pub settled_refund :
    (commits : Bool) (id : ℕ) (request : RefundRequest) (db : Database) (p : PaymentRow)
    → find_settled request.order_id db.rows ≡ some p
    → (process_refund commits id request db).1 ≡ db
unfolding process_refund carry_out_refund plan_refund
settled_refund commits id request db p f = ground arith

plus_neg : (a : ℤ) → a +ℤ (neg a +ℤ pos 0) ≡ pos 0
plus_neg a = omega int_laws

is_none : (rs : List PaymentRow) → one_or_none rs ≡ ok none → rs ≡ []
is_none [] e = refl
is_none (r ∷ []) e = cc
is_none (r ∷ s ∷ rs) e = cc

is_one : (c : PaymentRow) (rs : List PaymentRow) → one_or_none rs ≡ ok (some c) → rs ≡ c ∷ []
is_one c [] e = cc
is_one c (r ∷ []) e = cc
is_one c (r ∷ s ∷ rs) e = cc

-- A reversing row of the order, put behind rows that come to `a`.
net-reversal :
    (order : ℕ) (rs : List PaymentRow) (r : PaymentRow) (a : ℤ)
    → net_of_order order rs ≡ a
    → r.order_id ≡ order
    → is_failed r.status ≡ false
    → net_of_order order (rs ++ r ∷ []) ≡ a +ℤ (r.amount_cents +ℤ pos 0)
net-reversal order rs r a n o live =
    let own : net_of_order order (r ∷ []) ≡ r.amount_cents +ℤ pos 0 = ground arith in
    net_of_order-append order rs (r ∷ [])
    ∙ ap (λ t. t +ℤ net_of_order order (r ∷ [])) n
    ∙ ap (λ t. a +ℤ t) own

-- A refund of an order that is not settled yet, with a commit that succeeds, is answered, and
-- leaves the order's rows, declined charges apart, with a sum of zero: whether there is a charge
-- to reverse or none. The order must have at most one charge.
pub process_refund-squares :
    (id : ℕ) (request : RefundRequest) (charge : Option PaymentRow) (db : Database)
    → find_settled request.order_id db.rows ≡ none
    → one_or_none (keep_if (is_charge_of request.order_id) db.rows) ≡ ok charge
    → (response : RefundResponse) × ((process_refund true id request db).0 ≡ ok response)
      × (net_of_order request.order_id (process_refund true id request db).1.rows ≡ pos 0)
unfolding process_refund carry_out_refund plan_refund
process_refund-squares id request none db f c =
    let plan = plan_refund none none in
    let row = refund_row id request plan refund_noop none in
    let empty =
      net-no_charge request.order_id db.rows f
        (is_none (keep_if (is_charge_of request.order_id) db.rows) c) in
    rw (process_refund, c, f)
      (
        refund_response request plan refund_noop,
        refl,
        net-reversal request.order_id db.rows row (pos 0) empty refl refl
            ∙ zero-+ℤ (pos 0 +ℤ pos 0)
            ∙ zero-+ℤ (pos 0),
      )
process_refund-squares id request (some charge) db f c =
    let plan = plan_refund none (entry_of (some charge)) in
    let row = refund_row id request plan PaymentStatus.refunded (some charge) in
    let paid =
      net-charge request.order_id charge db.rows f
        (is_one charge (keep_if (is_charge_of request.order_id) db.rows) c) in
    rw (process_refund, c, f)
      (
        refund_response request plan PaymentStatus.refunded,
        refl,
        net-reversal request.order_id db.rows row charge.amount_cents paid refl refl
            ∙ plus_neg charge.amount_cents,
      )

-- Once an order has a settled row, a charge that comes in for it afterwards is taken, and no
-- refund of that order gives it back: every refund then leaves the database as it is.
pub late_charge_kept :
    (id id' key : ℕ) (commits : Bool) (charge : ChargeRequest) (refund : RefundRequest)
    (p : PaymentRow) (db : Database)
    → refund.order_id ≡ charge.order_id
    → find_settled charge.order_id db.rows ≡ some p
    → find_key key db.keys ≡ none
    → let db' = (process_charge true id charge key db).1 in
      (db'.rows ≡ db.rows ++ charge_row id charge ∷ [])
      × ((process_refund commits id' refund db').1 ≡ db')
unfolding process_charge store_charge resolve_idempotency
late_charge_kept id id' key commits charge refund p db o f k =
    let row = charge_row id charge in
    let still = find_settled-append charge.order_id p db.rows (row ∷ []) f in
    rw (process_charge, k)
      (
        refl,
        settled_refund commits id' refund (store_charge true id charge key db).1 p (rw o still),
      )
