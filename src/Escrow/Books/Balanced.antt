-- ===== src/Escrow/Books/Balanced.antt =====
-- The imbalance of the books under the bookings of
-- services/payment-service/app/services/escrow_service.py.
use ecommerce_platform.Base.{
  ◌∙◌, some, none, sym, Bool, false, inr, ◌⊎◌, Bool-cases, true, inl, Option, ◌++◌, List, ap, ◌≡◌,
  ◌∷◌, [], refl, ℕ,
}
use ecommerce_platform.Base.Int.{neg, sum-append, +ℤ-zero, ℤ, pos, sum}
use ecommerce_platform.Base.Http.{Response, ok, http_error}
use ecommerce_platform.Escrow.{
  Entry, delivery, settlement, payout, Planned, planned, ledger_error, assert_balanced, amounts,
}
use ecommerce_platform.Escrow.Balance.{assert_balanced-sum}
use ecommerce_platform.Escrow.Books.{
  LedgerRow, Books, SellerAnswer, Booked, DeliveryRequest, SettlementRequest, PayoutRequest, bind,
  or_422, commission_for, already_booked, stored, write, ignored, booked, conclude, announce,
  store_delivery, book_at_rate, book_delivery, store_settlement, book_settlement, store_payout,
  book_payout, entries_of, imbalance, owed_by,
}

pub amounts-append : (es ds : List Entry) → amounts (es ++ ds) ≡ amounts es ++ amounts ds
amounts-append [] ds = refl
amounts-append (e ∷ es) ds = ap (λ t. e.amount_cents ∷ t) (amounts-append es ds)

pub entries_of-append :
    (rows : List LedgerRow) (id : ℕ) (bps : Option ℤ) (es : List Entry)
    → entries_of (rows ++ stored id bps es) ≡ entries_of rows ++ es
entries_of-append [] id bps [] = refl
entries_of-append [] id bps (e ∷ es) = ap (λ t. e ∷ t) (entries_of-append [] id bps es)
entries_of-append (r ∷ rs) id bps es = ap (λ t. r.entry ∷ t) (entries_of-append rs id bps es)

-- A write that succeeds adds a balanced set of entries.
write-sum :
    (books written : Books) (id : ℕ) (bps : Option ℤ) (es : List Entry)
    → write books id bps es ≡ ok written
    → (written.rows ≡ books.rows ++ stored id bps es) × (sum (amounts es) ≡ pos 0)
unfolding write
write-sum books written id bps es h = by_check (assert_balanced es) refl h
  where
    by_check :
        (c : Planned (Unit {0}))
        → assert_balanced es ≡ c
        → bind (or_422 c) (λ _. ok (record books { rows = books.rows ++ stored id bps es }))
          ≡ ok written
        → (written.rows ≡ books.rows ++ stored id bps es) × (sum (amounts es) ≡ pos 0)
    by_check (planned u) e k =
        let same : record books { rows = books.rows ++ stored id bps es } ≡ written = cc in
        (ap (λ (b : Books). b.rows) (sym same), assert_balanced-sum es e)
    by_check ledger_error e k = cc

imbalance-write :
    (books : Books) (id : ℕ) (bps : Option ℤ) (es : List Entry) (rows : List LedgerRow)
    → rows ≡ books.rows ++ stored id bps es
    → sum (amounts es) ≡ pos 0
    → sum (amounts (entries_of rows)) ≡ imbalance books
unfolding imbalance
imbalance-write books id bps es rows e z =
    rw (e, entries_of-append books.rows id bps es, amounts-append (entries_of books.rows) es)
      (rw (sum-append (amounts (entries_of books.rows)) (amounts es), z) (+ℤ-zero _))

-- What a booking may do to the rows: nothing, or add a balanced set of entries.
abbrev AddsBalanced : Books → List LedgerRow → Type 0
AddsBalanced books rows =
    (rows ≡ books.rows)
    ⊎ ((id : ℕ) × (bps : Option ℤ) × (es : List Entry) × (rows ≡ books.rows ++ stored id bps es)
        × (sum (amounts es) ≡ pos 0))

AddsBalanced-imbalance :
    (books : Books) (rows : List LedgerRow)
    → AddsBalanced books rows
    → sum (amounts (entries_of rows)) ≡ imbalance books
unfolding imbalance
AddsBalanced-imbalance books rows (inl e) = ap (λ t. sum (amounts (entries_of t))) e
AddsBalanced-imbalance books rows (inr (id, bps, es, e, z)) =
    imbalance-write books id bps es rows e z

conclude-AddsBalanced :
    (commits : Bool) (books : Books) (otherwise answer : Response Booked) (id : ℕ) (bps : Option ℤ)
    (es : List Entry) (res : Response Books)
    → ((w : Books)
        → res ≡ ok w
        → (w.rows ≡ books.rows ++ stored id bps es) × (sum (amounts es) ≡ pos 0))
    → AddsBalanced books (conclude commits books otherwise answer res).1.rows
conclude-AddsBalanced commits books otherwise answer id bps es (http_error code) h = inl refl
conclude-AddsBalanced true books otherwise answer id bps es (ok w) h =
    inr (id, bps, es, (h w refl).0, (h w refl).1)
conclude-AddsBalanced false books otherwise answer id bps es (ok w) h = inl refl

announced :
    (books : Books) (id : ℕ) (request : DeliveryRequest) (bps : ℤ) (es : List Entry)
    (res : Response Books) (w : Books)
    → ((v : Books)
        → res ≡ ok v
        → (v.rows ≡ books.rows ++ stored id (some bps) es) × (sum (amounts es) ≡ pos 0))
    → bind res (λ written. ok (announce id request bps es written)) ≡ ok w
    → (w.rows ≡ books.rows ++ stored id (some bps) es) × (sum (amounts es) ≡ pos 0)
announced books id request bps es (http_error code) w h e = cc
announced books id request bps es (ok v) w h e =
    let same : announce id request bps es v ≡ w = cc in
    (ap (λ (b : Books). b.rows) (sym same) ∙ (h v refl).0, (h v refl).1)

store_delivery-AddsBalanced :
    (commits : Bool) (id : ℕ) (request : DeliveryRequest) (books : Books) (bps : ℤ)
    (planned_entries : Response (List Entry))
    → AddsBalanced books (store_delivery commits id request books bps planned_entries).1.rows
store_delivery-AddsBalanced commits id request books bps (http_error code) = inl refl
store_delivery-AddsBalanced commits id request books bps (ok es) =
    conclude-AddsBalanced commits books (ok (ignored delivery))
      (ok (booked delivery es (owed_by es))) id (some bps) es
      (bind (write books id (some bps) es) λ written. ok (announce id request bps es written))
      (λ w.
        announced books id request bps es (write books id (some bps) es) w
          (λ v. write-sum books v id (some bps) es))

book_at_rate-AddsBalanced :
    (commits : Bool) (id : ℕ) (request : DeliveryRequest) (books : Books) (rate : Response ℤ)
    → AddsBalanced books (book_at_rate commits id request books rate).1.rows
book_at_rate-AddsBalanced commits id request books (http_error code) = inl refl
book_at_rate-AddsBalanced commits id request books (ok bps) =
    store_delivery-AddsBalanced commits id request books bps _

store_settlement-AddsBalanced :
    (commits : Bool) (id : ℕ) (books : Books) (planned_entries : Response (List Entry))
    → AddsBalanced books (store_settlement commits id books planned_entries).1.rows
store_settlement-AddsBalanced commits id books (http_error code) = inl refl
store_settlement-AddsBalanced commits id books (ok es) =
    conclude-AddsBalanced commits books (ok (ignored settlement))
      (ok (booked settlement es (pos 0))) id none es (write books id none es)
      (λ v. write-sum books v id none es)

store_payout-AddsBalanced :
    (commits : Bool) (id : ℕ) (amount : ℤ) (books : Books) (planned_entries : Response (List Entry))
    → AddsBalanced books (store_payout commits id amount books planned_entries).1.rows
store_payout-AddsBalanced commits id amount books (http_error code) = inl refl
store_payout-AddsBalanced commits id amount books (ok es) =
    conclude-AddsBalanced commits books (http_error 500) (ok (booked payout es (neg amount))) id
      none es (write books id none es) (λ v. write-sum books v id none es)

-- A request to one of the three bookings, with what its environment answers.
pub data Booking : Type 0 where
  deliver : Bool → ℕ → SellerAnswer → DeliveryRequest → Booking
  settle : Bool → ℕ → SettlementRequest → Booking
  pay : Bool → ℕ → PayoutRequest → Booking

unfoldable pub book : Booking → Books → Books
unfolding book_delivery book_settlement book_payout
book (deliver commits id answer request) books = (book_delivery commits id answer request books).1
book (settle commits id request) books = (book_settlement commits id request books).1
book (pay commits id request) books = (book_payout commits id request books).1

unfoldable pub book_all : List Booking → Books → Books
unfolding book
book_all [] books = books
book_all (b ∷ bs) books = book_all bs (book b books)

book-AddsBalanced : (b : Booking) (books : Books) → AddsBalanced books (book b books).rows
unfolding book
book-AddsBalanced (deliver commits id answer request) books =
    elim (Bool-cases (already_booked books request.seller_order_id delivery)) [
      | inl e ↦ rw (book, book_delivery, e) (inl refl)
      | inr e ↦
          rw (book, book_delivery, e)
            (book_at_rate-AddsBalanced commits id request books (commission_for answer))
    ]
book-AddsBalanced (settle commits id request) books =
    elim (Bool-cases (already_booked books request.seller_order_id settlement)) [
      | inl e ↦ rw (book, book_settlement, e) (inl refl)
      | inr e ↦ rw (book, book_settlement, e) (store_settlement-AddsBalanced commits id books _)
    ]
book-AddsBalanced (pay commits id request) books =
    store_payout-AddsBalanced commits id request.amount_cents books _

-- Whatever is delivered, settled and paid out, and whichever commits fail, the imbalance of the
-- books stays what it was: books that balanced still balance.
pub imbalance-book_all :
    (bookings : List Booking) (books : Books)
    → imbalance (book_all bookings books) ≡ imbalance books
unfolding book_all imbalance
imbalance-book_all [] books = refl
imbalance-book_all (b ∷ bs) books =
    imbalance-book_all bs (book b books)
    ∙ AddsBalanced-imbalance books (book b books).rows (book-AddsBalanced b books)
