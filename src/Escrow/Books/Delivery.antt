-- ===== src/Escrow/Books/Delivery.antt =====
-- One delivery, booked: book_delivery of services/payment-service/app/services/escrow_service.py.
use ecommerce_platform.Base.Int.{sum-append, ◌==ℤ◌, pos, ◌-ℤ◌, int_laws, neg, sum, ℤ, ◌+ℤ◌, ◌≤ℤ◌}
use ecommerce_platform.Base.{
  ==_refl, Bool-cases, inr, ◌∙◌, ◌&&◌, ap, inl, [], Bool, refl, Option, arith, ℕ, false, keep_if,
  any, ◌++◌, ◌==◌, ◌∷◌, List, true, some, ◌≡◌, if◌then◌else◌,
}
use ecommerce_platform.Base.Http.{Response, ok}
use ecommerce_platform.Escrow.{
  planned, Entry, delivery, amounts, assert_balanced, floor_bps, delivery_entries, is_payable,
  of_seller, seller_owed,
}
use ecommerce_platform.Escrow.Balance.{plan_delivery-total, delivery_balanced}
use ecommerce_platform.Escrow.Books.{
  LedgerRow, Books, SellerAnswer, answered, Booked, DeliveryRequest, is_for, already_booked, stored,
  write, ignored, booked, announce, book_delivery, commission_for, entries_of, seller_balance,
  owed_by,
}
use ecommerce_platform.Escrow.Books.Balanced.{entries_of-append, amounts-append}

-- The entries and the books of a delivery that is booked at a rate.
abbrev pub entries_at : DeliveryRequest → ℤ → List Entry
entries_at request bps =
    let commission = floor_bps request.collected_cents bps in
    delivery_entries request.seller_id request.seller_order_id request.collected_cents
      (commission, request.collected_cents -ℤ commission)

abbrev pub books_with : ℕ → DeliveryRequest → ℤ → Books → Books
books_with id request bps books =
    let es = entries_at request bps in
    announce id request bps es (record books { rows = books.rows ++ stored id (some bps) es })

module _ (id : ℕ) (request : DeliveryRequest) (bps : ℤ) (books : Books)
    (one : pos 1 ≤ℤ request.collected_cents) (low : pos 0 ≤ℤ bps) (high : bps ≤ℤ pos 10000)
    (fresh : already_booked books request.seller_order_id delivery ≡ false) where
  pub delivery_result :
      (commits : Bool)
      → book_delivery commits id (answered 200 bps) request books ≡ (
          if commits
          then (
            ok (booked delivery (entries_at request bps) (owed_by (entries_at request bps))),
            books_with id request bps books,
          )
          else (ok (ignored delivery), books))
  unfolding book_delivery commission_for write
  delivery_result commits =
      let es = entries_at request bps in
      let plan =
        plan_delivery-total request.seller_id request.seller_order_id request.collected_cents bps
          one low high in
      let balanced : assert_balanced es ≡ planned tt =
        delivery_balanced request.seller_id request.seller_order_id request.collected_cents
          (floor_bps request.collected_cents bps) in
      rw (book_delivery, fresh, plan) (rw (write, balanced))

keep_if-append {ℓ} :
    {A : Type ℓ} (p : A → Bool) (xs ys : List A)
    → keep_if p (xs ++ ys) ≡ keep_if p xs ++ keep_if p ys
keep_if-append p [] ys = refl
keep_if-append p (x ∷ xs) ys = ground (arith, keep_if-append p xs ys)

neg-+ℤ : (a b : ℤ) → neg (a +ℤ b) ≡ neg a +ℤ neg b
neg-+ℤ a b = omega int_laws

seller_owed-append :
    (es ds : List Entry) (s : Option ℕ)
    → seller_owed (es ++ ds) s ≡ seller_owed es s +ℤ seller_owed ds s
unfolding seller_owed
seller_owed-append es ds s =
    let p = λ (e : Entry). is_payable e.account && of_seller s e in
    let left = amounts (keep_if p es) in
    let right = amounts (keep_if p ds) in
    ap (λ t. neg (sum (amounts t))) (keep_if-append p es ds)
    ∙ ap (λ t. neg (sum t)) (amounts-append (keep_if p es) (keep_if p ds))
    ∙ ap neg (sum-append left right)
    ∙ neg-+ℤ (sum left) (sum right)

neg_zero : neg (pos 0) ≡ pos 0
neg_zero = omega int_laws

neg-neg : (a : ℤ) → neg (neg a +ℤ pos 0) ≡ a
neg-neg a = omega int_laws

owed_delivery :
    (seller order t : ℕ) (c k share : ℤ)
    → seller_owed (delivery_entries seller order c (k, share)) (some t)
      ≡ (if seller == t then share else pos 0)
unfolding seller_owed sum
owed_delivery seller order t c k share = elim (Bool-cases (k ==ℤ pos 0)) [
  | inl z ↦ elim (Bool-cases (seller == t)) [
    | inl e ↦ rw (z, seller_owed, e) (neg-neg share)
    | inr e ↦ rw (z, seller_owed, e) neg_zero
  ]
  | inr z ↦ elim (Bool-cases (seller == t)) [
    | inl e ↦ rw (z, seller_owed, e) (neg-neg share)
    | inr e ↦ rw (z, seller_owed, e) neg_zero
  ]
]

booked_after :
    (rows : List LedgerRow) (order : ℕ) (more : List LedgerRow)
    → any (is_for order delivery) more ≡ true
    → any (is_for order delivery) (rows ++ more) ≡ true
booked_after [] order more h = h
booked_after (r ∷ rs) order more h = ground (arith, booked_after rs order more h)

balance_after :
    (id : ℕ) (request : DeliveryRequest) (bps : ℤ) (books : Books) (t : ℕ)
    → seller_balance (books_with id request bps books) t
      ≡ seller_balance books t
        +ℤ (if request.seller_id == t
            then request.collected_cents -ℤ floor_bps request.collected_cents bps
            else pos 0)
unfolding seller_balance
balance_after id request bps books t =
    let es = entries_at request bps in
    let k = floor_bps request.collected_cents bps in
    let share = request.collected_cents -ℤ k in
    let before = seller_owed (entries_of books.rows) (some t) in
    ap (λ l. seller_owed l (some t)) (entries_of-append books.rows id (some bps) es)
    ∙ seller_owed-append (entries_of books.rows) es (some t)
    ∙ ap (λ n. before +ℤ n)
        (owed_delivery request.seller_id request.seller_order_id t request.collected_cents k share)

already_after :
    (id : ℕ) (request : DeliveryRequest) (bps : ℤ) (books : Books)
    → already_booked (books_with id request bps books) request.seller_order_id delivery ≡ true
unfolding already_booked
already_after id request bps books =
    booked_after books.rows request.seller_order_id (stored id (some bps) (entries_at request bps))
      (rw (==_refl request.seller_order_id))

ignored_when_booked :
    (commits : Bool) (id : ℕ) (answer : SellerAnswer) (request : DeliveryRequest) (books : Books)
    → already_booked books request.seller_order_id delivery ≡ true
    → book_delivery commits id answer request books ≡ (ok (ignored delivery), books)
unfolding book_delivery
ignored_when_booked commits id answer request books e = rw (book_delivery, e)

module _ (id : ℕ) (request : DeliveryRequest) (bps : ℤ) (books : Books)
    (one : pos 1 ≤ℤ request.collected_cents) (low : pos 0 ≤ℤ bps) (high : bps ≤ℤ pos 10000)
    (fresh : already_booked books request.seller_order_id delivery ≡ false) where
  -- A delivery of a positive amount that is not booked yet, at a rate from 0 to 10000, raises what
  -- is owed to its own seller by the amount less the floor of the commission, and to no other
  -- seller by anything; and every later booking of that seller order's delivery, whatever it
  -- carries, is ignored and changes nothing.
  pub delivery_booked_once :
      (t id' : ℕ) (commits' : Bool) (answer' : SellerAnswer) (request' : DeliveryRequest)
      → request'.seller_order_id ≡ request.seller_order_id
      → let books' = (book_delivery true id (answered 200 bps) request books).1 in
        (seller_balance books' t
          ≡ seller_balance books t
            +ℤ (if request.seller_id == t
                then request.collected_cents -ℤ floor_bps request.collected_cents bps
                else pos 0))
        × (book_delivery commits' id' answer' request' books' ≡ (ok (ignored delivery), books'))
  delivery_booked_once t id' commits' answer' request' same =
      let after : (book_delivery true id (answered 200 bps) request books).1
          ≡ books_with id request bps books =
        ap (λ (r : Response Booked × Books). r.1)
          (delivery_result id request bps books one low high fresh true) in
      let later = already_after id request bps books in
      rw after (
        balance_after id request bps books t,
        ignored_when_booked commits' id' answer' request' (books_with id request bps books)
            (rw same later),
      )

  -- For a delivery of a positive amount that is not booked yet, at a rate from 0 to 10000: if the
  -- commit fails, for any reason, the answer is that it was booked already, and nothing is booked.
  pub failed_commit_ignored :
      book_delivery false id (answered 200 bps) request books ≡ (ok (ignored delivery), books)
  failed_commit_ignored = delivery_result id request bps books one low high fresh false
