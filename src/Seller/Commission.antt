-- ===== src/Seller/Commission.antt =====
-- seller-service's commission and payment-service's books: get_commission of
-- services/seller-service/app/services/seller_service.py, read by book_delivery of
-- services/payment-service/app/services/escrow_service.py. The comment in _commission_for there
-- wants a seller without a contract answered 409, as final; get_commission answers 409 and not 404
-- for one, which _commission_for takes for a failure that passes.
use ecommerce_platform.Base.Int.{◌≤ℤ◌, ℤ, pos}
use ecommerce_platform.Base.{List, arith, ℕ, none, some, ◌≡◌, Bool, true, refl, Option, false}
use ecommerce_platform.Base.Http.{Response, ok, http_error}
use ecommerce_platform.Seller.{commission_bps}
use ecommerce_platform.Seller.Table.{Database, Seller, find_seller}
use ecommerce_platform.Seller.Service.Queries.{SellerCommission, get_commission}
use ecommerce_platform.Seller.Sessions.{Event, init, run}
use ecommerce_platform.Seller.Sessions.Vetted.{Accepted}
use ecommerce_platform.Seller.Sessions.Vetted.Loaded.{find_seller-Vetted}
use ecommerce_platform.Seller.Sessions.Vetted.Runs.{run-IsTrue, init-IsTrue}
use ecommerce_platform.Escrow.{delivery}
use ecommerce_platform.Escrow.Books.{
  Books, SellerAnswer, answered, Booked, DeliveryRequest, book_delivery, booked, ignored, owed_by,
  already_booked, commission_for,
}
use ecommerce_platform.Escrow.Books.Delivery.{delivery_result, entries_at, books_with}

-- What payment-service receives of get_commission's answer.
abbrev pub over_http : Response SellerCommission → SellerAnswer
over_http (ok c) = answered 200 c.bps
over_http (http_error code) = answered code (pos 0)

-- What the booking of a delivery to a seller comes to, by the version that the seller has accepted.
abbrev pub outcome_by : Option ℤ → Bool → ℕ → DeliveryRequest → Books → Response Booked × Books
outcome_by none commits id request books = (http_error 503, books)
outcome_by (some v) true id request books = (
  ok (booked delivery (entries_at request (pos 1200)) (owed_by (entries_at request (pos 1200)))),
  books_with id request (pos 1200) books,
)
outcome_by (some v) false id request books = (ok (ignored delivery), books)

rate_of :
    (version : Option ℤ) (seller id : ℕ) (db : Database) (s : Seller)
    → find_seller seller db.sellers ≡ some s
    → s.accepted_contract_version ≡ version
    → Accepted version id db
    → over_http (get_commission seller db) ≡ elim version as (λ _. SellerAnswer) [
      | none ↦ answered 409 (pos 0)
      | some v ↦ answered 200 (pos 1200)
    ]
unfolding get_commission commission_bps
rate_of none seller id db s f e a = rw (get_commission, f, e) refl
rate_of (some v) seller id db s f e (one, t) = rw (get_commission, f, e, commission_bps, one) refl

booked_by :
    (version : Option ℤ) (commits : Bool) (id : ℕ) (request : DeliveryRequest) (books : Books)
    → pos 1 ≤ℤ request.collected_cents
    → already_booked books request.seller_order_id delivery ≡ false
    → book_delivery commits id
        (elim version as (λ _. SellerAnswer) [
          | none ↦ answered 409 (pos 0)
          | some v ↦ answered 200 (pos 1200)
        ])
        request
        books
      ≡ outcome_by version commits id request books
unfolding book_delivery commission_for
booked_by none commits id request books one fresh = rw (book_delivery, fresh) refl
booked_by (some v) true id request books one fresh =
    delivery_result id request (pos 1200) books one (omega arith) (omega arith) fresh true
booked_by (some v) false id request books one fresh =
    delivery_result id request (pos 1200) books one (omega arith) (omega arith) fresh false

-- The same, where the seller may be missing.
abbrev pub outcome_for :
    Option Seller → Bool → ℕ → DeliveryRequest → Books → Response Booked × Books
outcome_for none commits id request books = (http_error 409, books)
outcome_for (some s) commits id request books =
    outcome_by s.accepted_contract_version commits id request books

booked_for :
    (events : List Event) (found : Option Seller) (commits : Bool) (id : ℕ)
    (request : DeliveryRequest) (books : Books)
    → find_seller request.seller_id (run events init).db.sellers ≡ found
    → pos 1 ≤ℤ request.collected_cents
    → already_booked books request.seller_order_id delivery ≡ false
    → book_delivery commits id
        (over_http (get_commission request.seller_id (run events init).db))
        request
        books
      ≡ outcome_for found commits id request books
unfolding book_delivery commission_for get_commission
booked_for events none commits id request books f one fresh =
    rw (get_commission, f, book_delivery, fresh) refl
booked_for events (some s) commits id request books f one fresh =
    let db = (run events init).db in
    let (earned, accepted) =
      find_seller-Vetted db request.seller_id db.sellers s (run-IsTrue events init init-IsTrue).rows
        f in
    rw (rate_of s.accepted_contract_version request.seller_id s.id db s f refl accepted)
      (booked_by s.accepted_contract_version commits id request books one fresh)

-- After any overlapping requests to seller-service from empty tables, a delivery of a positive
-- amount that is not booked yet: for a seller that is there and has accepted a contract, it is
-- booked at 1200 basis points if the commit succeeds, and taken as booked already if the commit
-- fails; for a seller that is not there, it is answered 409 with nothing booked; for a seller that
-- has accepted no contract, it is answered 503 with nothing booked.
pub delivery_at_accepted_rate :
    (events : List Event) (commits : Bool) (id : ℕ) (request : DeliveryRequest) (books : Books)
    → pos 1 ≤ℤ request.collected_cents
    → already_booked books request.seller_order_id delivery ≡ false
    → book_delivery commits id
        (over_http (get_commission request.seller_id (run events init).db))
        request
        books
      ≡ outcome_for
          (find_seller request.seller_id (run events init).db.sellers)
          commits
          id
          request
          books
delivery_at_accepted_rate events commits id request books one fresh =
    booked_for events (find_seller request.seller_id (run events init).db.sellers) commits id
      request books refl one fresh
