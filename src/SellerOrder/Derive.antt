-- ===== src/SellerOrder/Derive.antt =====
-- The buyer-facing status of an order, computed from its seller orders: _PROGRESS,
-- derive_order_status and is_order_complete of services/order-saga/app/services/split_rules.py.
-- A child's status is None where _as_status does not recognise it.
use ecommerce_platform.Base.{
  ltb, keep_if, false, all, [], ◌≤◌, List, not, ◌≡◌, ◌∷◌, ◌⊎◌, true, Bool, if◌then◌else◌, ℕ, some,
  Option, none,
}
use ecommerce_platform.SellerOrder.{
  SellerOrderStatus, pending, inventory_reserved, confirmed, dispatched, rto_in_transit, delivered,
  settled, returned, cancelled, is_terminal,
}

-- _PROGRESS. RETURNED and CANCELLED have no entry, and derive_order_status does not look them up.
abbrev pub progress : SellerOrderStatus → ℕ
progress pending = 0
progress inventory_reserved = 1
progress confirmed = 2
progress dispatched = 3
progress rto_in_transit = 4
progress delivered = 5
progress settled = 6
progress returned = 7
progress cancelled = 7

-- ENDED_UNFAVOURABLY
abbrev pub ended_unfavourably : SellerOrderStatus → Bool
ended_unfavourably cancelled = true
ended_unfavourably returned = true
ended_unfavourably _ = false

abbrev pub is_cancelled : SellerOrderStatus → Bool
is_cancelled cancelled = true
is_cancelled _ = false

-- `None` as soon as one status is not recognised.
abbrev pub all_known : List (Option SellerOrderStatus) → Option (List SellerOrderStatus)
all_known [] = some []
all_known (none ∷ xs) = none
all_known (some s ∷ xs) = elim (all_known xs) [ none ↦ none | some ss ↦ some (s ∷ ss) ]

-- min(active, key=...): the first of the least advanced.
abbrev pub least_advanced : SellerOrderStatus → List SellerOrderStatus → SellerOrderStatus
least_advanced best [] = best
least_advanced best (s ∷ ss) =
    least_advanced (if ltb (progress s) (progress best) then s else best) ss

-- What is derived from the children that are still active, and from all of them.
unfoldable pub derive_from : List SellerOrderStatus → List SellerOrderStatus → SellerOrderStatus
derive_from [] statuses = if all is_cancelled statuses then cancelled else returned
derive_from (s ∷ active) statuses = least_advanced s active

abbrev pub is_active : SellerOrderStatus → Bool
is_active s = not (ended_unfavourably s)

unfoldable pub derive_known : List SellerOrderStatus → Option SellerOrderStatus
unfolding derive_from
derive_known [] = none
derive_known (s ∷ ss) = some (derive_from (keep_if is_active (s ∷ ss)) (s ∷ ss))

unfoldable pub derive_order_status : List (Option SellerOrderStatus) → Option SellerOrderStatus
unfolding derive_known
derive_order_status children = elim (all_known children) [ none ↦ none | some ss ↦ derive_known ss ]

unfoldable pub complete_known : List SellerOrderStatus → Bool
unfolding is_terminal
complete_known [] = false
complete_known (s ∷ ss) = all is_terminal (s ∷ ss)

unfoldable pub is_order_complete : List (Option SellerOrderStatus) → Bool
unfolding complete_known
is_order_complete children = elim (all_known children) [
  | none ↦ false
  | some ss ↦ complete_known ss
]

-- `s` is as far as or behind every active child.
abbrev pub Behind : SellerOrderStatus → List SellerOrderStatus → Type 0
Behind s [] = Unit
Behind s (t ∷ ts) = ((is_active t ≡ false) ⊎ (progress s ≤ progress t)) × Behind s ts

abbrev pub Has : SellerOrderStatus → List SellerOrderStatus → Type 0
Has s [] = ⊥
Has s (t ∷ ts) = (s ≡ t) ⊎ Has s ts
