-- ===== src/Dispatcher/Items/Totals.antt =====
-- add_total of workers/saga-dispatcher/app/dispatch_rules.py (a line of plan_item_reservations): the units
-- and the entries of a product.
use ecommerce_platform.Base.{
  ◌+◌, ◌≤◌, false, ℕ, List, [], ◌∷◌, ◌≡◌, ◌==◌, if◌then◌else◌, arith, refl, sym, map, inl, inr,
  Bool-cases, ==_iff, Option-cases,
}
use mathlib.Core.Path.{subst}
use ecommerce_platform.Base.Int.{+ℤ_left_comm, leb_ℤ, ℤ, pos, ◌+ℤ◌, ◌≤ℤ◌, sum, int_laws}
use ecommerce_platform.Dispatcher.Items.{
  integer_quantity, Line, Item, line, malformed, ItemReservation, ReservationPlan, planned, refused,
  add_total, line_reservation,
}

-- The units of a product among some reservations.
abbrev pub units : ℕ → ItemReservation → ℤ
units p r = if r.product_id == p then r.quantity else pos 0

unfoldable pub units_of : ℕ → List ItemReservation → ℤ
unfolding sum
units_of p rs = sum (map (units p) rs)

abbrev pub entries_of : ℕ → List ItemReservation → ℕ
entries_of p [] = 0
entries_of p (r ∷ rs) = (if r.product_id == p then 1 else 0) + entries_of p rs

-- What a line of the payload asks of a product.
abbrev pub planned_units : ℕ → ReservationPlan → ℤ
unfolding units_of
planned_units p (planned rs) = units_of p rs
planned_units p (refused e) = pos 0

unfoldable pub asked : ℕ → List Item → ℤ
unfolding line_reservation planned_units
asked p [] = pos 0
asked p (malformed ∷ items) = asked p items
asked p (line l ∷ items) = planned_units p (line_reservation l) +ℤ asked p items

pub join : (a q s : ℤ) → a +ℤ q +ℤ s ≡ q +ℤ (a +ℤ s)
join a q s = omega int_laws

pub none_more : (s : ℤ) → pos 0 +ℤ s ≡ pos 0 +ℤ (pos 0 +ℤ s)
none_more s = omega int_laws

pub units-add_total :
    (p n : ℕ) (q : ℤ) (rs : List ItemReservation)
    → units_of p (add_total n q rs) ≡ (if n == p then q else pos 0) +ℤ units_of p rs
unfolding units_of sum
units-add_total p n q [] = refl
units-add_total p n q (r ∷ rs) = elim (Bool-cases (r.product_id == n)) [
  | inr other ↦
      rw (other, units-add_total p n q rs)
        (+ℤ_left_comm (units p r) (if n == p then q else pos 0) (sum (map (units p) rs)))
  | inl own ↦
      let same = (==_iff r.product_id n).0 own in
      elim (Bool-cases (n == p)) [
        | inl e ↦ rw (own, same, e) (join r.quantity q (sum (map (units p) rs)))
        | inr e ↦ rw (own, same, e) (none_more (sum (map (units p) rs)))
      ]
]

pub entries-add_total_other :
    (p n : ℕ) (q : ℤ) (rs : List ItemReservation)
    → (n == p) ≡ false
    → entries_of p (add_total n q rs) ≡ entries_of p rs
entries-add_total_other p n q [] e = ground arith
entries-add_total_other p n q (r ∷ rs) e = ground (arith, entries-add_total_other p n q rs)

pub entries-add_total_own :
    (n : ℕ) (q : ℤ) (rs : List ItemReservation)
    → entries_of n rs ≤ 1
    → entries_of n (add_total n q rs) ≤ 1
entries-add_total_own n q [] h = ground arith
entries-add_total_own n q (r ∷ rs) h = ground (arith, entries-add_total_own n q rs)

pub entries-add_total :
    (p n : ℕ) (q : ℤ) (rs : List ItemReservation)
    → entries_of p rs ≤ 1
    → entries_of p (add_total n q rs) ≤ 1
entries-add_total p n q rs h = elim (Bool-cases (n == p)) [
  | inl e ↦
      subst (λ m. entries_of m (add_total n q rs) ≤ 1) ((==_iff n p).0 e)
        (entries-add_total_own n q rs (subst (λ m. entries_of m rs ≤ 1) (sym ((==_iff n p).0 e)) h))
  | inr e ↦ rw (entries-add_total_other p n q rs e) h
]

-- A plan of one line is a refusal or one reservation.
abbrev pub OneLine : ReservationPlan → Type 0
OneLine (refused e) = Unit
OneLine (planned rs) =
    (n : ℕ) × (q : ℤ) × (rs ≡ record { product_id = n; quantity = q } ∷ []) × (pos 1 ≤ℤ q)

pub line_reservation-OneLine : (l : Line) → OneLine (line_reservation l)
unfolding line_reservation
line_reservation-OneLine l = elim (Option-cases l.product_id) [
  | inl e ↦ rw (line_reservation, e) tt
  | inr (n, e) ↦ elim (Option-cases (integer_quantity l.quantity)) [
    | inl f ↦ rw (line_reservation, e, f) tt
    | inr (q, f) ↦ elim (Bool-cases (leb_ℤ q (pos 0))) [
      | inl small ↦ rw (line_reservation, e, f, small) tt
      | inr big ↦ rw (line_reservation, e, f, big) (n, q, refl, ground arith)
    ]
  ]
]
