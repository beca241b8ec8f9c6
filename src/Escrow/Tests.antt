-- ===== src/Escrow/Tests.antt =====
-- A delivery of 999 cents at 12.5 percent, and what follows it
-- (services/payment-service/app/services/ledger_rules.py and escrow_service.py).
use ecommerce_platform.Base.{arith, List, [], ◌∷◌, ◌≡◌, refl, true, false, if◌then◌else◌, ◌==◌}
use ecommerce_platform.Base.Int.{pos, ◌+ℤ◌, ◌-ℤ◌}
use ecommerce_platform.Base.Http.{ok}
use ecommerce_platform.Escrow.{Entry, delivery, delivery_entries, floor_bps}
use ecommerce_platform.Escrow.Books.{
  Books, unreachable, answered, DeliveryRequest, already_booked, book_delivery, ignored, imbalance,
  seller_balance,
}
use ecommerce_platform.Escrow.Books.Balanced.{Booking, book_all, imbalance-book_all}
use ecommerce_platform.Escrow.Books.Delivery.{delivery_booked_once}

abbrev empty_books : Books
empty_books = record { rows = []; outbox = [] }

abbrev parcel : DeliveryRequest
parcel = record { seller_id = 4; seller_order_id = 31; collected_cents = pos 999 }

abbrev parcel_entries : List Entry
parcel_entries = delivery_entries 4 31 (pos 999) (pos 124, pos 875)

abbrev bookings : List Booking
bookings =
    Booking.deliver true 1 (answered 200 (pos 1250)) parcel
    ∷ Booking.settle true 2
        (record { seller_id = 4; seller_order_id = 31; remitted_cents = pos 999 })
    ∷ Booking.pay false 3 (record { seller_id = 4; amount_cents = pos 875 })
    ∷ []

imbalance-book_all_example : imbalance (book_all bookings empty_books) ≡ imbalance empty_books
imbalance-book_all_example = imbalance-book_all bookings empty_books

abbrev parcel_books : Books
unfolding book_delivery
parcel_books = (book_delivery true 1 (answered 200 (pos 1250)) parcel empty_books).1

delivery_booked_once_example :
    (seller_balance parcel_books 4
      ≡ seller_balance empty_books 4
        +ℤ (if 4 == 4 then pos 999 -ℤ floor_bps (pos 999) (pos 1250) else pos 0))
    × (book_delivery false 2 unreachable parcel parcel_books
        ≡ (ok (ignored delivery), parcel_books))
unfolding already_booked parcel_books book_delivery
delivery_booked_once_example =
    delivery_booked_once 1 parcel (pos 1250) empty_books (omega arith) (omega arith) (omega arith)
      refl 4 2 false unreachable parcel refl
