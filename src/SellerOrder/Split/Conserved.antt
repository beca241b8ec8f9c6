-- ===== src/SellerOrder/Split/Conserved.antt =====
-- split_by_seller of services/order-saga/app/services/split_rules.py: what becomes of the lines.
use ecommerce_platform.Base.{
  ℕ, List, [], ◌∷◌, ◌≡◌, ◌==◌, if◌then◌else◌, arith, refl, ap, ◌∙◌, map, All, ◌+◌, ◌≤◌,
}
use ecommerce_platform.Base.Int.{sum, zero-+ℤ}
use ecommerce_platform.Base.Sort.{
  count-sorted, AtLeast, count, sorted, sum-sorted, IsSorted, sorted-IsSorted,
}
use ecommerce_platform.Dispatcher.Items.{Line, ItemsPayload}
use ecommerce_platform.SellerOrder.Split.{
  PlannedLine, SellerOrderPlan, Splitting, split, split_error, value_error, normalise_items, group,
  plan_of, plans_of, split_lines, split_by_seller,
}
use ecommerce_platform.SellerOrder.Split.Groups.{
  Measure, group_total, groups_total, lines_total, plans_total, plans_total-map, seller, seller_of,
  Accepted, Grouped, group-Grouped,
}

-- A plan's lines stand in the order of their products, and its subtotal is their sum.
abbrev pub InOrder : SellerOrderPlan → Type 0
InOrder p =
    IsSorted (λ (l : PlannedLine). l.product_id) p.lines
    × (p.subtotal_cents ≡ sum (map (λ (l : PlannedLine). l.line_total_cents) p.lines))

AtLeast-map :
    (k : ℕ) (gs : List (ℕ × List PlannedLine))
    → AtLeast seller k gs
    → AtLeast seller_of k (map plan_of gs)
unfolding plan_of
AtLeast-map k [] h = tt
AtLeast-map k (g ∷ gs) (low, h) = (low, AtLeast-map k gs h)

map-IsSorted :
    (gs : List (ℕ × List PlannedLine)) → IsSorted seller gs → IsSorted seller_of (map plan_of gs)
unfolding plan_of
map-IsSorted [] h = tt
map-IsSorted (g ∷ gs) (low, h) = (AtLeast-map (seller g) gs low, map-IsSorted gs h)

count-map :
    (s : ℕ) (gs : List (ℕ × List PlannedLine))
    → count seller_of s (map plan_of gs) ≡ count seller s gs
unfolding plan_of
count-map s [] = refl
count-map s (g ∷ gs) = ap (λ n. (if seller g == s then 1 else 0) + n) (count-map s gs)

map-InOrder : (gs : List (ℕ × List PlannedLine)) → All InOrder (map plan_of gs)
unfolding plan_of
map-InOrder [] = tt
map-InOrder ((s, ls) ∷ gs) =
    ((sorted-IsSorted (λ (l : PlannedLine). l.product_id) ls, refl), map-InOrder gs)

-- What a splitting has to be for the lines of a cart.
abbrev pub SplitsAll : List Line → Splitting (List SellerOrderPlan) → Type 0
SplitsAll ls split_error = Unit
SplitsAll ls value_error = Unit
SplitsAll ls (split ps) =
    All Accepted ls
    × ((f : Measure) → plans_total f ps ≡ lines_total f ls)
    × ((s : ℕ) → count seller_of s ps ≤ 1)
    × IsSorted seller_of ps
    × All InOrder ps

plans_of-SplitsAll :
    (ls : List Line) (gs : Splitting (List (ℕ × List PlannedLine)))
    → Grouped ls [] gs
    → SplitsAll ls (plans_of gs)
unfolding groups_total sum plans_of
plans_of-SplitsAll ls split_error g = tt
plans_of-SplitsAll ls value_error g = tt
plans_of-SplitsAll ls (split gs) (totals, once, accepted) = (
  accepted,
  λ f.
      plans_total-map f (sorted seller gs)
      ∙ sum-sorted seller (group_total f) gs
      ∙ totals f
      ∙ zero-+ℤ (lines_total f ls),
  λ s. rw (count-map s (sorted seller gs), count-sorted seller s gs) (once s),
  map-IsSorted (sorted seller gs) (sorted-IsSorted seller gs),
  map-InOrder (sorted seller gs),
)

-- When a cart is split, every line of it passed the checks, and what the lines come to is what the
-- seller orders come to, whatever is measured (the money, the units, the units of one product of one
-- seller): no line is lost, doubled or given to another seller. Each seller has at most one order,
-- the orders stand in the order of the sellers and their lines in that of the products, and an
-- order's subtotal is the sum of its lines.
pub split_by_seller-SplitsAll :
    (payload : ItemsPayload) → SplitsAll (normalise_items payload) (split_by_seller payload)
unfolding split_by_seller split_lines
split_by_seller-SplitsAll payload = splits (normalise_items payload)
  where
    splits : (ls : List Line) → SplitsAll ls (split_lines ls)
    splits [] = tt
    splits (l ∷ ls) =
        plans_of-SplitsAll (l ∷ ls) (group (l ∷ ls) [])
          (group-Grouped (l ∷ ls) [] (λ s. omega arith))
