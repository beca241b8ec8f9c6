-- ===== src/Dispatcher/Items.antt =====
-- The items of an order as they arrive, and the reservations to make for them:
-- plan_item_reservations of workers/saga-dispatcher/app/dispatch_rules.py. A payload is a JSON value;
-- what the code asks of it is kept. Identifiers are numbers, none where the value is absent or
-- empty.
pub mod Exact
pub mod Totals
use ecommerce_platform.Base.{Bool, Option, none, some, ℕ, List, [], ◌∷◌, ◌==◌, if◌then◌else◌}
use ecommerce_platform.Base.Int.{ℤ, pos, ◌+ℤ◌, leb_ℤ}
use ecommerce_platform.Base.Sort.{sorted}

-- A value in a line: absent, an integer, a Boolean, a number with a fraction (as int() truncates
-- it), a text (as int() reads it, if it does), or anything else.
pub data Field : Type 0 where
  absent : Field
  int : ℤ → Field
  bool : Bool → Field
  float : ℤ → Field
  text : Option ℤ → Field
  other : Field

pub record Line : Type 0 where
  pub product_id : Option ℕ
  pub seller_id : Option ℕ
  pub quantity : Field
  pub price_cents : Field
  pub line_total_cents : Field

-- An element of a list of items: an object, or something else.
pub data Item : Type 0 where
  line : Line → Item
  malformed : Item

pub data Value : Type 0 where
  a_list : List Item → Value
  a_dict : List (Option ℕ × Field) → Value
  unusable : Value

-- An object with the key "items" is `wrapped`.
pub data ItemsPayload : Type 0 where
  plain wrapped : Value → ItemsPayload

-- {"product_id": k, "quantity": v}
abbrev pub from_dict : List (Option ℕ × Field) → List Item
from_dict [] = []
from_dict ((k, v) ∷ kvs) =
    line (record {
      product_id = k;
      seller_id = none;
      quantity = v;
      price_cents = absent;
      line_total_cents = absent;
    })
    ∷ from_dict kvs

-- The list that a payload comes to; [] where it is not a list.
abbrev pub value_items : Value → List Item
value_items (a_list items) = items
value_items (a_dict kvs) = from_dict kvs
value_items unusable = []

abbrev pub items_of : ItemsPayload → List Item
items_of (plain v) = value_items v
items_of (wrapped v) = value_items v

pub record ItemReservation : Type 0 where
  pub product_id : ℕ
  pub quantity : ℤ

pub data PlanError : Type 0 where
  empty_items_payload malformed_item item_missing_product_id : PlanError
  non_integer_quantity non_positive_quantity : PlanError

-- ReservationPlan: the items, or the error.
pub data ReservationPlan : Type 0 where
  planned : List ItemReservation → ReservationPlan
  refused : PlanError → ReservationPlan

-- totals[p] = totals.get(p, 0) + quantity
abbrev pub add_total : ℕ → ℤ → List ItemReservation → List ItemReservation
add_total p q [] = record { product_id = p; quantity = q } ∷ []
add_total p q (r ∷ rs) =
    if r.product_id == p then record r { quantity = r.quantity +ℤ q } ∷ rs else r ∷ add_total p q rs

-- entry.get("quantity", 1), which has to be an integer and no Boolean.
abbrev pub integer_quantity : Field → Option ℤ
integer_quantity absent = some (pos 1)
integer_quantity (int q) = some q
integer_quantity (bool b) = none
integer_quantity (float q) = none
integer_quantity (text q) = none
integer_quantity other = none

-- What one line asks for.
unfoldable pub line_reservation : Line → ReservationPlan
line_reservation l = elim (l.product_id) [
  | none ↦ refused item_missing_product_id
  | some p ↦ elim (integer_quantity l.quantity) [
    | none ↦ refused non_integer_quantity
    | some q ↦
        if leb_ℤ q (pos 0)
        then refused non_positive_quantity
        else planned (record { product_id = p; quantity = q } ∷ [])
  ]
]

abbrev pub add_all : List ItemReservation → List ItemReservation → List ItemReservation
add_all [] totals = totals
add_all (r ∷ rs) totals = add_all rs (add_total r.product_id r.quantity totals)

-- The loop over the entries.
unfoldable pub collect : List Item → List ItemReservation → ReservationPlan
collect [] totals = planned totals
collect (malformed ∷ items) totals = refused malformed_item
collect (line l ∷ items) totals = elim (line_reservation l) [
  | refused e ↦ refused e
  | planned rs ↦ collect items (add_all rs totals)
]

unfoldable pub by_product : ReservationPlan → ReservationPlan
unfolding sorted
by_product (refused e) = refused e
by_product (planned rs) = planned (sorted (λ (r : ItemReservation). r.product_id) rs)

unfoldable pub plan_items : List Item → ReservationPlan
unfolding collect line_reservation by_product
plan_items [] = refused empty_items_payload
plan_items (i ∷ is) = by_product (collect (i ∷ is) [])

unfoldable pub plan_item_reservations : ItemsPayload → ReservationPlan
unfolding plan_items
plan_item_reservations payload = plan_items (items_of payload)
