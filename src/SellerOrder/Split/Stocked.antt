-- ===== src/SellerOrder/Split/Stocked.antt =====
-- split_by_seller of services/order-saga/app/services/split_rules.py beside plan_item_reservations of
-- workers/saga-dispatcher/app/dispatch_rules.py: both read the items of one order.
use ecommerce_platform.Base.{
  Option, some, ℕ, List, [], ◌∷◌, ◌≡◌, ◌==◌, if◌then◌else◌, arith, refl, ap, sym, ◌∙◌, All,
}
use mathlib.Core.Path.{subst}
use ecommerce_platform.Base.Int.{+ℤ-zero, ℤ, pos, ◌+ℤ◌, sum}
use ecommerce_platform.Dispatcher.Items.{
  Field, absent, int, bool, float, text, other, integer_quantity, Line, Item, line, malformed,
  ItemsPayload, items_of, ItemReservation, ReservationPlan, planned, refused, line_reservation,
  collect, by_product, plan_items, add_total, plan_item_reservations,
}
use ecommerce_platform.Dispatcher.Items.Exact.{Exact, plan_item_reservations-Exact}
use ecommerce_platform.Dispatcher.Items.Totals.{OneLine, line_reservation-OneLine, asked, units_of}
use ecommerce_platform.SellerOrder.Split.{
  PlannedLine, SellerOrderPlan, split, objects, int_of, normalise_items, check_line,
  split_by_seller,
}
use ecommerce_platform.SellerOrder.Split.Groups.{Accepted, lines_total, plans_total, Measure}
use ecommerce_platform.SellerOrder.Split.Conserved.{SplitsAll, split_by_seller-SplitsAll}

-- The units of a product that a line of a seller order is for.
abbrev pub product_units : ℕ → Measure
product_units p s l = if l.product_id == p then l.quantity else pos 0

one_product : (o : Option ℕ) (m n : ℕ) → o ≡ some m → o ≡ some n → m ≡ n
one_product o m n h k = cc

integer_int : (f : Field) (a b : ℤ) → integer_quantity f ≡ some a → int_of f ≡ some b → a ≡ b
integer_int absent a b h k = cc
integer_int (int z) a b h k = cc
integer_int (bool x) a b h k = cc
integer_int (float z) a b h k = cc
integer_int (text z) a b h k = cc
integer_int other a b h k = cc

reserved_fields :
    (l : Line) (n : ℕ) (q : ℤ)
    → line_reservation l ≡ planned (record { product_id = n; quantity = q } ∷ [])
    → (l.product_id ≡ some n) × (integer_quantity l.quantity ≡ some q)
unfolding line_reservation
reserved_fields l n q h = ground arith

checked_fields :
    (l : Line) (s : ℕ) (p : PlannedLine)
    → check_line l ≡ split (s, p)
    → (l.product_id ≡ some p.product_id) × (int_of l.quantity ≡ some p.quantity)
unfolding check_line
checked_fields l s p h = ground arith

-- Every item is a line that the dispatcher plans a reservation for.
abbrev AllPlanned : List Item → Type 0
AllPlanned [] = Unit
AllPlanned (malformed ∷ items) = ⊥
AllPlanned (line l ∷ items) =
    ((n : ℕ) × (q : ℤ) × (line_reservation l
        ≡ planned (record { product_id = n; quantity = q } ∷ [])))
    × AllPlanned items

abbrev Within : List Item → ReservationPlan → Type 0
Within items (refused e) = Unit
Within items (planned rs) = AllPlanned items

line-Within :
    (l : Line) (items : List Item) (plan : ReservationPlan) (n : ℕ) (q : ℤ)
    → line_reservation l ≡ planned (record { product_id = n; quantity = q } ∷ [])
    → Within items plan
    → Within (line l ∷ items) plan
line-Within l items (refused e) n q h w = tt
line-Within l items (planned rs) n q h w = ((n, q, h), w)

collect-line-Within :
    (l : Line) (items : List Item) (totals : List ItemReservation) (lp : ReservationPlan)
    → line_reservation l ≡ lp
    → OneLine lp
    → ((ts : List ItemReservation) → Within items (collect items ts))
    → Within (line l ∷ items) (collect (line l ∷ items) totals)
unfolding collect
collect-line-Within l items totals (refused e) eq one rest = rw (collect, eq) tt
collect-line-Within l items totals (planned rs) eq (n, q, same, positive) rest =
    let single = eq ∙ ap planned same in
    rw (collect, single)
      (line-Within l items (collect items (add_total n q totals)) n q single
        (rest (add_total n q totals)))

collect-Within :
    (items : List Item) (totals : List ItemReservation) → Within items (collect items totals)
unfolding collect
collect-Within [] totals = tt
collect-Within (malformed ∷ items) totals = tt
collect-Within (line l ∷ items) totals =
    collect-line-Within l items totals (line_reservation l) refl (line_reservation-OneLine l)
      (λ ts. collect-Within items ts)

by_product-Within :
    (items : List Item) (plan : ReservationPlan)
    → Within items plan
    → Within items (by_product plan)
unfolding by_product
by_product-Within items (refused e) w = tt
by_product-Within items (planned rs) w = w

plan_items-Within : (items : List Item) → Within items (plan_items items)
unfolding plan_items
plan_items-Within [] = tt
plan_items-Within (i ∷ is) =
    by_product-Within (i ∷ is) (collect (i ∷ is) []) (collect-Within (i ∷ is) [])

same_units :
    (p n : ℕ) (q : ℤ) (l : PlannedLine)
    → n ≡ l.product_id
    → q ≡ l.quantity
    → units_of p (record { product_id = n; quantity = q } ∷ []) ≡ product_units p 0 l
unfolding units_of sum
same_units p n q l e f = rw (e, f) (+ℤ-zero (if l.product_id == p then l.quantity else pos 0))

asked-lines_total :
    (p : ℕ) (items : List Item)
    → AllPlanned items
    → All Accepted (objects items)
    → asked p items ≡ lines_total (product_units p) (objects items)
unfolding asked lines_total objects
asked-lines_total p [] h a = refl
asked-lines_total p (malformed ∷ items) h a = absurd h
asked-lines_total p (line l ∷ items) ((n, q, reserved), h) ((s, x, checked), a) =
    let (own_product, own_quantity) = reserved_fields l n q reserved in
    let (product, quantity) = checked_fields l s x checked in
    rw (asked, lines_total, reserved, checked, asked-lines_total p items h a)
      (ap (λ t. t +ℤ lines_total (product_units p) (objects items))
        (same_units p n q x (one_product l.product_id n x.product_id own_product product)
          (integer_int l.quantity q x.quantity own_quantity quantity)))

-- When the dispatcher plans reservations for the items of an order that also splits into seller
-- orders, the units it reserves of each product are the units that the seller orders are for.
pub reservations_match_split :
    (payload : ItemsPayload) (rs : List ItemReservation) (ps : List SellerOrderPlan)
    → plan_item_reservations payload ≡ planned rs
    → split_by_seller payload ≡ split ps
    → (p : ℕ) → units_of p rs ≡ plans_total (product_units p) ps
unfolding plan_item_reservations normalise_items
reservations_match_split payload rs ps h k p =
    let (asked_for, once, positive, in_order) =
      subst (Exact (items_of payload)) h (plan_item_reservations-Exact payload) in
    let (accepted, totals, once_each, sellers, lines) =
      subst (SplitsAll (normalise_items payload)) k (split_by_seller-SplitsAll payload) in
    let within = subst (Within (items_of payload)) h (plan_items-Within (items_of payload)) in
    asked_for p
    ∙ asked-lines_total p (items_of payload) within accepted
    ∙ sym (totals (product_units p))
