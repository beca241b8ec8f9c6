-- ===== src/SellerOrder/Split.antt =====
-- Splitting a cart into one order per seller: normalise_items, split_by_seller and
-- goods_subtotal_cents of services/order-saga/app/services/split_rules.py. The payload is that of
-- Dispatcher.Items; the texts of errors are left out.
pub mod Conserved
pub mod Groups
pub mod Stocked
use ecommerce_platform.Base.{
  Bool, true, false, Option, none, some, ℕ, List, [], ◌∷◌, ◌++◌, ◌==◌, if◌then◌else◌, map,
}
use ecommerce_platform.Base.Int.{ℤ, pos, ltb_ℤ, leb_ℤ, sum}
use ecommerce_platform.Base.Sort.{sorted}
use ecommerce_platform.Dispatcher.Items.{
  Field, absent, int, bool, float, text, other, Line, Item, line, malformed, ItemsPayload, items_of,
}

-- The dictionaries of lines that split_by_seller builds.
pub record PlannedLine : Type 0 where
  pub product_id : ℕ
  pub quantity : ℤ
  pub price_cents : ℤ
  pub line_total_cents : ℤ

pub record SellerOrderPlan : Type 0 where
  pub seller_id : ℕ
  pub lines : List PlannedLine
  pub subtotal_cents : ℤ

-- SellerOrderPlan.item_count
unfoldable pub item_count : SellerOrderPlan → ℤ
unfolding sum
item_count plan = sum (map (λ (l : PlannedLine). l.quantity) plan.lines)

-- A result, the SplitError that refuses it, or the ValueError of a price that int() refuses.
pub data Splitting {ℓ} (A : Type ℓ) : Type ℓ where
  split : A → Splitting A
  split_error : Splitting A
  value_error : Splitting A

-- normalise_items: the objects among the items.
unfoldable pub objects : List Item → List Line
objects [] = []
objects (malformed ∷ items) = objects items
objects (line l ∷ items) = l ∷ objects items

unfoldable pub normalise_items : ItemsPayload → List Line
unfolding objects
normalise_items payload = objects (items_of payload)

-- int(value)
abbrev pub int_of : Field → Option ℤ
int_of absent = none
int_of (int z) = some z
int_of (bool true) = some (pos 1)
int_of (bool false) = some (pos 0)
int_of (float z) = some z
int_of (text z) = z
int_of other = none

-- int(line.get("price_cents", 0))
abbrev pub price_of : Field → Option ℤ
price_of absent = some (pos 0)
price_of f = int_of f

-- The checks of quantity and total, and the price.
abbrev pub checked_line : ℕ → ℕ → ℤ → ℤ → Option ℤ → Splitting (ℕ × PlannedLine)
checked_line seller product quantity total price =
    if leb_ℤ quantity (pos 0)
    then split_error
    else if ltb_ℤ total (pos 0)
    then split_error
    else elim price [
      | none ↦ value_error
      | some cents ↦ split (
        seller,
        record {
          product_id = product;
          quantity = quantity;
          price_cents = cents;
          line_total_cents = total;
        },
      )
    ]

-- One pass of the loop over the lines: the seller, and what is appended for them.
unfoldable pub check_line : Line → Splitting (ℕ × PlannedLine)
check_line l = elim (l.seller_id) [
  | none ↦ split_error
  | some seller ↦ elim (l.product_id) [
    | none ↦ split_error
    | some product ↦ elim (int_of l.quantity) [
      | none ↦ split_error
      | some quantity ↦ elim (int_of l.line_total_cents) [
        | none ↦ split_error
        | some total ↦ checked_line seller product quantity total (price_of l.price_cents)
      ]
    ]
  ]
]

-- by_seller.setdefault(seller, []).append(line)
abbrev pub append_line : ℕ → PlannedLine → List (ℕ × List PlannedLine) → List (ℕ × List PlannedLine)
append_line s l [] = (s, l ∷ []) ∷ []
append_line s l ((t, ls) ∷ gs) =
    if t == s then (t, ls ++ l ∷ []) ∷ gs else (t, ls) ∷ append_line s l gs

unfoldable pub group :
    List Line → List (ℕ × List PlannedLine) → Splitting (List (ℕ × List PlannedLine))
group [] gs = split gs
group (l ∷ ls) gs = elim (check_line l) [
  | split (s, planned) ↦ group ls (append_line s planned gs)
  | split_error ↦ split_error
  | value_error ↦ value_error
]

-- The plan of one seller.
unfoldable pub plan_of : ℕ × List PlannedLine → SellerOrderPlan
unfolding sorted sum
plan_of (s, ls) =
    let lines = sorted (λ (l : PlannedLine). l.product_id) ls in
    record {
      seller_id = s;
      lines = lines;
      subtotal_cents = sum (map (λ (l : PlannedLine). l.line_total_cents) lines);
    }

abbrev pub plans_of : Splitting (List (ℕ × List PlannedLine)) → Splitting (List SellerOrderPlan)
unfolding plan_of sorted
plans_of (split gs) = split (map plan_of (sorted (λ (g : ℕ × List PlannedLine). g.0) gs))
plans_of split_error = split_error
plans_of value_error = value_error

unfoldable pub split_lines : List Line → Splitting (List SellerOrderPlan)
unfolding group check_line plans_of
split_lines [] = split_error
split_lines (l ∷ ls) = plans_of (group (l ∷ ls) [])

unfoldable pub split_by_seller : ItemsPayload → Splitting (List SellerOrderPlan)
unfolding normalise_items split_lines
split_by_seller payload = split_lines (normalise_items payload)

unfoldable pub goods_subtotal_cents : List SellerOrderPlan → ℤ
unfolding sum
goods_subtotal_cents plans = sum (map (λ (p : SellerOrderPlan). p.subtotal_cents) plans)
