-- ===== src/Escrow/Books.antt =====
-- Booking the escrow ledger: services/payment-service/app/services/escrow_service.py, over the
-- ledger_entries table of services/payment-service/app/models.py. Currency, contract version and
-- timestamps are left out; a transaction id is fresh, and is an argument. What seller-service
-- answers, and whether the database accepts a commit, are arguments too. The unique index on
-- (seller_order_id, reason, account) is among the reasons for which a commit fails.
pub mod Balanced
pub mod Delivery
use ecommerce_platform.Base.Int.{ℤ, pos, neg, sum}
use ecommerce_platform.Base.{
  ◌&&◌, Bool, ◌++◌, List, ◌∷◌, none, [], Option, false, length, ◌==◌, any, ℕ, some, true,
  if◌then◌else◌,
}
use ecommerce_platform.Base.Http.{Response, ok, http_error}
use ecommerce_platform.Escrow.{
  Account, Entry, EntryReason, delivery, settlement, payout, Planned, planned, ledger_error,
  plan_delivery, plan_settlement, plan_payout, assert_balanced, is_payable, amounts, seller_owed,
  is_ledger_consistent,
}

pub record LedgerRow : Type 0 where
  pub transaction_id : ℕ
  pub entry : Entry
  pub commission_bps : Option ℤ

-- EscrowBooked, with the fields that a consumer reads.
pub record EscrowBooked : Type 0 where
  pub transaction_id : ℕ
  pub seller_id : ℕ
  pub seller_order_id : ℕ
  pub collected_cents : ℤ
  pub commission_bps : ℤ
  pub seller_owed_cents : ℤ

pub record Books : Type 0 where
  pub rows : List LedgerRow
  pub outbox : List EscrowBooked

-- How the call of seller-service ended: the breaker or the transport failed, or it answered with a
-- status and a commission_bps.
pub data SellerAnswer : Type 0 where
  unreachable : SellerAnswer
  answered : ℕ → ℤ → SellerAnswer

-- LedgerTransactionResponse
pub record Booked : Type 0 where
  pub reason : EntryReason
  pub entries : ℕ
  pub seller_owed_delta : ℤ

pub record DeliveryRequest : Type 0 where
  pub seller_id : ℕ
  pub seller_order_id : ℕ
  pub collected_cents : ℤ

pub record SettlementRequest : Type 0 where
  pub seller_id : ℕ
  pub seller_order_id : ℕ
  pub remitted_cents : ℤ

pub record PayoutRequest : Type 0 where
  pub seller_id : ℕ
  pub amount_cents : ℤ

abbrev pub bind {ℓ κ} : {A : Type ℓ} {B : Type κ} → Response A → (A → Response B) → Response B
bind (ok a) f = f a
bind (http_error code) f = http_error code

-- `except LedgerError as e: raise HTTPException(422)`
abbrev pub or_422 {ℓ} : {A : Type ℓ} → Planned A → Response A
or_422 (planned a) = ok a
or_422 ledger_error = http_error 422

-- _commission_for
unfoldable pub commission_for : SellerAnswer → Response ℤ
commission_for unreachable = http_error 503
commission_for (answered status bps) =
    if status == 404 then http_error 409 else if status == 200 then ok bps else http_error 503

abbrev pub same_reason : EntryReason → EntryReason → Bool
same_reason delivery delivery = true
same_reason settlement settlement = true
same_reason payout payout = true
same_reason _ _ = false

abbrev pub is_for : ℕ → EntryReason → LedgerRow → Bool
is_for order reason row = elim (row.entry.seller_order_id) [
  | none ↦ false
  | some o ↦ o == order && same_reason row.entry.reason reason
]

-- _already_booked
unfoldable pub already_booked : Books → ℕ → EntryReason → Bool
already_booked books order reason = any (is_for order reason) books.rows

abbrev pub stored : ℕ → Option ℤ → List Entry → List LedgerRow
stored id bps [] = []
stored id bps (e ∷ es) =
    record { transaction_id = id; entry = e; commission_bps = bps } ∷ stored id bps es

-- _write
unfoldable pub write : Books → ℕ → Option ℤ → List Entry → Response Books
write books id bps es =
    bind (or_422 (assert_balanced es))
      λ _. ok (record books { rows = books.rows ++ stored id bps es })

-- What is answered for a booking that was there before, and when the commit fails.
abbrev pub ignored : EntryReason → Booked
ignored reason = record { reason = reason; entries = 0; seller_owed_delta = pos 0 }

-- -sum(e.amount_cents for e in entries if e.account is Account.SELLER_PAYABLE)
abbrev pub owed_by : List Entry → ℤ
owed_by es = seller_owed es none

abbrev pub booked : EntryReason → List Entry → ℤ → Booked
booked reason es owed = record { reason = reason; entries = length es; seller_owed_delta = owed }

-- The end of a transaction: `answer` and the written books if the commit succeeds, `otherwise` and
-- the books as they were if it fails.
abbrev pub conclude :
    Bool → Books → Response Booked → Response Booked → Response Books → Response Booked × Books
conclude commits books otherwise answer (http_error code) = (http_error code, books)
conclude commits books otherwise answer (ok written) =
    if commits then (answer, written) else (otherwise, books)

abbrev pub announce : ℕ → DeliveryRequest → ℤ → List Entry → Books → Books
announce id request bps es books = record books {
  outbox =
      books.outbox
      ++ record {
        transaction_id = id;
        seller_id = request.seller_id;
        seller_order_id = request.seller_order_id;
        collected_cents = request.collected_cents;
        commission_bps = bps;
        seller_owed_cents = owed_by es;
      }
        ∷ [];
}

-- What follows once the rate and the entries are known.
abbrev pub store_delivery :
    Bool → ℕ → DeliveryRequest → Books → ℤ → Response (List Entry) → Response Booked × Books
store_delivery commits id request books bps (http_error code) = (http_error code, books)
store_delivery commits id request books bps (ok es) =
    conclude commits books (ok (ignored delivery)) (ok (booked delivery es (owed_by es)))
      (bind (write books id (some bps) es) λ written. ok (announce id request bps es written))

abbrev pub book_at_rate : Bool → ℕ → DeliveryRequest → Books → Response ℤ → Response Booked × Books
book_at_rate commits id request books (http_error code) = (http_error code, books)
book_at_rate commits id request books (ok bps) =
    store_delivery commits id request books bps
      (or_422 (plan_delivery request.seller_id request.seller_order_id request.collected_cents bps))

unfoldable pub book_delivery :
    Bool → ℕ → SellerAnswer → DeliveryRequest → Books → Response Booked × Books
unfolding already_booked commission_for write
book_delivery commits id answer request books =
    if already_booked books request.seller_order_id delivery
    then (ok (ignored delivery), books)
    else book_at_rate commits id request books (commission_for answer)

abbrev pub store_settlement : Bool → ℕ → Books → Response (List Entry) → Response Booked × Books
store_settlement commits id books (http_error code) = (http_error code, books)
store_settlement commits id books (ok es) =
    conclude commits books (ok (ignored settlement)) (ok (booked settlement es (pos 0)))
      (write books id none es)

unfoldable pub book_settlement : Bool → ℕ → SettlementRequest → Books → Response Booked × Books
unfolding already_booked write
book_settlement commits id request books =
    if already_booked books request.seller_order_id settlement
    then (ok (ignored settlement), books)
    else store_settlement commits id books
        (or_422 (plan_settlement request.seller_id request.seller_order_id request.remitted_cents))

abbrev pub store_payout : Bool → ℕ → ℤ → Books → Response (List Entry) → Response Booked × Books
store_payout commits id amount books (http_error code) = (http_error code, books)
store_payout commits id amount books (ok es) =
    conclude commits books (http_error 500) (ok (booked payout es (neg amount)))
      (write books id none es)

unfoldable pub book_payout : Bool → ℕ → PayoutRequest → Books → Response Booked × Books
unfolding write
book_payout commits id request books =
    store_payout commits id request.amount_cents books
      (or_422 (plan_payout request.seller_id request.amount_cents))

abbrev pub entries_of : List LedgerRow → List Entry
entries_of [] = []
entries_of (r ∷ rs) = r.entry ∷ entries_of rs

-- imbalance_cents of ledger_health
unfoldable pub imbalance : Books → ℤ
unfolding sum
imbalance books = sum (amounts (entries_of books.rows))

-- owed_cents of seller_balance
unfoldable pub seller_balance : Books → ℕ → ℤ
seller_balance books seller = seller_owed (entries_of books.rows) (some seller)
