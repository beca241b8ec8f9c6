-- ===== src/Dispatcher/Items/Exact.antt =====
-- plan_item_reservations of workers/saga-dispatcher/app/dispatch_rules.py: what is planned for each
-- product, against what the lines of the order ask for.
use ecommerce_platform.Base.{
  leb, ◌≤◌, ℕ, List, [], ◌∷◌, ◌≡◌, ◌==◌, if◌then◌else◌, arith, refl, ap, sym, ◌∙◌, inl, inr,
  Bool-cases, All,
}
use ecommerce_platform.Base.Int.{
  pos_part, neg_part, ℤ, pos, ◌+ℤ◌, ◌≤ℤ◌, sum, zero-+ℤ, +ℤ-zero, int_laws,
}
use ecommerce_platform.Base.Sort.{
  IsSorted, sorted-IsSorted, sorted, sum-sorted, IsSorted, sorted-IsSorted, insert,
}
use ecommerce_platform.Dispatcher.Items.{
  Line, Item, line, malformed, ItemsPayload, items_of, ItemReservation, ReservationPlan, planned,
  refused, add_total, line_reservation, collect, by_product, plan_items, plan_item_reservations,
}
use ecommerce_platform.Dispatcher.Items.Totals.{
  units, units_of, entries_of, asked, units-add_total, entries-add_total, OneLine,
  line_reservation-OneLine,
}

abbrev AllPositive : List ItemReservation → Type 0
AllPositive = All (λ r. pos 1 ≤ℤ r.quantity)

plus_pos : (a b : ℤ) → pos 1 ≤ℤ a → pos 1 ≤ℤ b → pos 1 ≤ℤ a +ℤ b
plus_pos a b h k = omega (int_laws, h, k)

AllPositive-add_total :
    (n : ℕ) (q : ℤ) (rs : List ItemReservation)
    → pos 1 ≤ℤ q
    → AllPositive rs
    → AllPositive (add_total n q rs)
AllPositive-add_total n q [] one h = (one, tt)
AllPositive-add_total n q (r ∷ rs) one h = elim (Bool-cases (r.product_id == n)) [
  | inl e ↦ rw e (plus_pos r.quantity q h.0 one, h.1)
  | inr e ↦ rw e (h.0, AllPositive-add_total n q rs one h.1)
]

-- What the loop ends with, from the totals it has.
abbrev Collects : List Item → List ItemReservation → ReservationPlan → Type 0
Collects items totals (refused e) = Unit
Collects items totals (planned rs) =
    ((p : ℕ) → units_of p rs ≡ units_of p totals +ℤ asked p items)
    × ((p : ℕ) → entries_of p rs ≤ 1)
    × AllPositive rs

shift : (a b q : ℤ) (u : ℤ) → u ≡ q +ℤ a → u +ℤ b ≡ a +ℤ (q +ℤ pos 0 +ℤ b)
shift a b q u e = omega (int_laws, ap pos_part e, ap neg_part e)

later :
    (l : Line) (items : List Item) (totals : List ItemReservation) (n : ℕ) (q : ℤ)
    (plan : ReservationPlan)
    → line_reservation l ≡ planned (record { product_id = n; quantity = q } ∷ [])
    → Collects items (add_total n q totals) plan
    → Collects (line l ∷ items) totals plan
unfolding asked units_of sum
later l items totals n q (refused e) h c = tt
later l items totals n q (planned rs) h (u, o, a) = (
  λ p.
      u p
      ∙ rw (asked, h)
          (shift (units_of p totals) (asked p items) (if n == p then q else pos 0)
            (units_of p (add_total n q totals)) (units-add_total p n q totals)),
  o,
  a,
)

-- One line, where the lines after it collect as they should from every totals.
collect-line :
    (l : Line) (items : List Item) (totals : List ItemReservation) (lp : ReservationPlan)
    → line_reservation l ≡ lp
    → OneLine lp
    → ((p : ℕ) → entries_of p totals ≤ 1)
    → AllPositive totals
    → ((ts : List ItemReservation)
        → ((p : ℕ) → entries_of p ts ≤ 1)
        → AllPositive ts
        → Collects items ts (collect items ts))
    → Collects (line l ∷ items) totals (collect (line l ∷ items) totals)
unfolding collect
collect-line l items totals (refused e) eq one h a rest = rw (collect, eq) tt
collect-line l items totals (planned rs) eq (n, q, same, positive) h a rest =
    let single = eq ∙ ap planned same in
    rw (collect, single)
      (later l items totals n q (collect items (add_total n q totals)) single (
        rest (add_total n q totals) (λ p. entries-add_total p n q totals (h p))
          (AllPositive-add_total n q totals positive a)))

collect-Collects :
    (items : List Item) (totals : List ItemReservation)
    → ((p : ℕ) → entries_of p totals ≤ 1)
    → AllPositive totals
    → Collects items totals (collect items totals)
unfolding collect asked
collect-Collects [] totals h a = (λ p. sym (+ℤ-zero (units_of p totals)), h, a)
collect-Collects (malformed ∷ items) totals h a = tt
collect-Collects (line l ∷ items) totals h a =
    collect-line l items totals (line_reservation l) refl (line_reservation-OneLine l) h a
      (λ ts. collect-Collects items ts)

entries-insert :
    (p : ℕ) (r : ItemReservation) (rs : List ItemReservation)
    → entries_of p (insert (λ (x : ItemReservation). x.product_id) r rs) ≡ entries_of p (r ∷ rs)
unfolding insert
entries-insert p r [] = refl
entries-insert p r (x ∷ xs) = ground (arith, entries-insert p r xs)

entries-sorted :
    (p : ℕ) (rs : List ItemReservation)
    → entries_of p (sorted (λ (x : ItemReservation). x.product_id) rs) ≡ entries_of p rs
unfolding sorted
entries-sorted p [] = refl
entries-sorted p (r ∷ rs) = omega (
  arith,
  entries-insert p r (sorted (λ (x : ItemReservation). x.product_id) rs),
  entries-sorted p rs,
)

AllPositive-insert :
    (r : ItemReservation) (rs : List ItemReservation)
    → pos 1 ≤ℤ r.quantity
    → AllPositive rs
    → AllPositive (insert (λ (x : ItemReservation). x.product_id) r rs)
unfolding insert
AllPositive-insert r [] one a = (one, tt)
AllPositive-insert r (x ∷ xs) one a = elim (Bool-cases (leb r.product_id x.product_id)) [
  | inl e ↦ rw e (one, a)
  | inr e ↦ rw e (a.0, AllPositive-insert r xs one a.1)
]

AllPositive-sorted :
    (rs : List ItemReservation)
    → AllPositive rs
    → AllPositive (sorted (λ (x : ItemReservation). x.product_id) rs)
unfolding sorted
AllPositive-sorted [] a = tt
AllPositive-sorted (r ∷ rs) a =
    AllPositive-insert r (sorted (λ (x : ItemReservation). x.product_id) rs) a.0
      (AllPositive-sorted rs a.1)

-- What a plan has to be for a payload.
abbrev pub Exact : List Item → ReservationPlan → Type 0
Exact items (refused e) = Unit
Exact items (planned rs) =
    ((p : ℕ) → units_of p rs ≡ asked p items)
    × ((p : ℕ) → entries_of p rs ≤ 1)
    × AllPositive rs
    × IsSorted (λ (x : ItemReservation). x.product_id) rs

by_product-Exact :
    (items : List Item) (plan : ReservationPlan)
    → Collects items [] plan
    → Exact items (by_product plan)
unfolding by_product units_of sum
by_product-Exact items (refused e) c = tt
by_product-Exact items (planned rs) (u, o, a) = (
  λ p.
      sum-sorted (λ (x : ItemReservation). x.product_id) (units p) rs
      ∙ u p
      ∙ zero-+ℤ (asked p items),
  λ p. omega (arith, o p, entries-sorted p rs),
  AllPositive-sorted rs a,
  sorted-IsSorted (λ (x : ItemReservation). x.product_id) rs,
)

-- A payload whose reservations are planned: for every product the planned units are those that the
-- lines ask for together, the product has at most one reservation, every reservation is of one unit
-- or more, and they stand in the order of the products.
pub plan_item_reservations-Exact :
    (payload : ItemsPayload) → Exact (items_of payload) (plan_item_reservations payload)
unfolding plan_item_reservations plan_items
plan_item_reservations-Exact payload = exact (items_of payload)
  where
    exact : (items : List Item) → Exact items (plan_items items)
    exact [] = tt
    exact (i ∷ is) =
        by_product-Exact (i ∷ is) (collect (i ∷ is) [])
          (collect-Collects (i ∷ is) [] (λ p. omega arith) tt)
