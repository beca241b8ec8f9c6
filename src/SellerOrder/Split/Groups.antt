-- ===== src/SellerOrder/Split/Groups.antt =====
-- split_by_seller of services/order-saga/app/services/split_rules.py: the groups of its loop.
use ecommerce_platform.Base.{
  false, ℕ, List, [], ◌∷◌, ◌++◌, ◌≡◌, ◌==◌, arith, refl, ap, sym, ◌∙◌, map, inl, inr, Bool-cases,
  All, ==_iff, ◌≤◌,
}
use ecommerce_platform.Base.Int.{ℤ, pos, ◌+ℤ◌, sum, sum-append, +ℤ-zero, +ℤ_left_comm, int_laws}
use mathlib.Core.Path.{subst}
use ecommerce_platform.Base.Sort.{count, sum-sorted}
use ecommerce_platform.Dispatcher.Items.{Line}
use ecommerce_platform.SellerOrder.Split.{
  PlannedLine, SellerOrderPlan, Splitting, split, split_error, value_error, check_line, append_line,
  group, plan_of,
}

-- A measure of a seller's line: its total, its quantity, its units of one product, ...
abbrev pub Measure : Type 0
Measure = ℕ → PlannedLine → ℤ

join : (a q s : ℤ) → a +ℤ (q +ℤ pos 0) +ℤ s ≡ q +ℤ (a +ℤ s)
join a q s = omega int_laws

module _ (f : Measure) where
  abbrev pub group_total : ℕ × List PlannedLine → ℤ
  unfolding sum
  group_total (s, ls) = sum (map (f s) ls)

  unfoldable pub groups_total : List (ℕ × List PlannedLine) → ℤ
  unfolding sum group_total
  groups_total gs = sum (map group_total gs)

  abbrev checked_total : Splitting (ℕ × PlannedLine) → ℤ
  checked_total (split (s, l)) = f s l
  checked_total split_error = pos 0
  checked_total value_error = pos 0

  -- The measure of the lines as they arrive.
  unfoldable pub lines_total : List Line → ℤ
  unfolding check_line
  lines_total [] = pos 0
  lines_total (l ∷ ls) = checked_total (check_line l) +ℤ lines_total ls

  -- The measure of the lines as they are planned.
  abbrev plan_total : SellerOrderPlan → ℤ
  unfolding sum
  plan_total p = sum (map (f p.seller_id) p.lines)

  unfoldable pub plans_total : List SellerOrderPlan → ℤ
  unfolding sum plan_total
  plans_total ps = sum (map plan_total ps)

  map-append :
      (s : ℕ) (ls ms : List PlannedLine) → map (f s) (ls ++ ms) ≡ map (f s) ls ++ map (f s) ms
  map-append s [] ms = refl
  map-append s (l ∷ ls) ms = ap (λ t. f s l ∷ t) (map-append s ls ms)

  groups_total-append_line :
      (s : ℕ) (l : PlannedLine) (gs : List (ℕ × List PlannedLine))
      → groups_total (append_line s l gs) ≡ f s l +ℤ groups_total gs
  unfolding groups_total sum
  groups_total-append_line s l [] = +ℤ-zero (f s l +ℤ pos 0)
  groups_total-append_line s l ((t, ls) ∷ gs) = elim (Bool-cases (t == s)) [
    | inr other ↦
        rw (other, groups_total-append_line s l gs)
          (+ℤ_left_comm (group_total (t, ls)) (f s l) (sum (map group_total gs)))
    | inl own ↦
        rw
          (
            own,
            map-append t ls (l ∷ []),
            sum-append (map (f t) ls) (f t l ∷ []),
            (==_iff t s).0 own,
          )
          (join (group_total (s, ls)) (f s l) (sum (map group_total gs)))
  ]

  plan_total-plan_of : (g : ℕ × List PlannedLine) → plan_total (plan_of g) ≡ group_total g
  unfolding plan_of sum
  plan_total-plan_of (s, ls) = sum-sorted (λ (l : PlannedLine). l.product_id) (f s) ls

  pub plans_total-map :
      (gs : List (ℕ × List PlannedLine)) → plans_total (map plan_of gs) ≡ groups_total gs
  unfolding plans_total groups_total sum
  plans_total-map [] = refl
  plans_total-map (g ∷ gs) = rw (plan_total-plan_of g, plans_total-map gs) refl

-- The seller of a group and of a plan.
abbrev pub seller : ℕ × List PlannedLine → ℕ
seller g = g.0

abbrev pub seller_of : SellerOrderPlan → ℕ
seller_of p = p.seller_id

count-append_line_other :
    (t s : ℕ) (l : PlannedLine) (gs : List (ℕ × List PlannedLine))
    → (s == t) ≡ false
    → count seller t (append_line s l gs) ≡ count seller t gs
count-append_line_other t s l [] e = ground arith
count-append_line_other t s l (g ∷ gs) e = ground (arith, count-append_line_other t s l gs)

count-append_line_own :
    (s : ℕ) (l : PlannedLine) (gs : List (ℕ × List PlannedLine))
    → count seller s gs ≤ 1
    → count seller s (append_line s l gs) ≤ 1
count-append_line_own s l [] h = ground arith
count-append_line_own s l (g ∷ gs) h = ground (arith, count-append_line_own s l gs)

count-append_line :
    (t s : ℕ) (l : PlannedLine) (gs : List (ℕ × List PlannedLine))
    → count seller t gs ≤ 1
    → count seller t (append_line s l gs) ≤ 1
count-append_line t s l gs h = elim (Bool-cases (s == t)) [
  | inl e ↦
      subst (λ u. count seller u (append_line s l gs) ≤ 1) ((==_iff s t).0 e)
        (count-append_line_own s l gs
          (subst (λ u. count seller u gs ≤ 1) (sym ((==_iff s t).0 e)) h))
  | inr e ↦ rw (count-append_line_other t s l gs e) h
]

-- A line that the checks let through.
abbrev pub Accepted : Line → Type 0
Accepted l = (s : ℕ) × (p : PlannedLine) × (check_line l ≡ split (s, p))

-- What the loop over the lines ends with, from the groups it has.
abbrev pub Grouped :
    List Line → List (ℕ × List PlannedLine) → Splitting (List (ℕ × List PlannedLine)) → Type 0
Grouped ls gs split_error = Unit
Grouped ls gs value_error = Unit
Grouped ls gs (split hs) =
    ((f : Measure) → groups_total f hs ≡ groups_total f gs +ℤ lines_total f ls)
    × ((s : ℕ) → count seller s hs ≤ 1)
    × All Accepted ls

shift : (h a b q : ℤ) → h ≡ q +ℤ a +ℤ b → h ≡ a +ℤ (q +ℤ b)
shift h a b q e = e ∙ omega int_laws

later :
    (l : Line) (ls : List Line) (s : ℕ) (p : PlannedLine) (gs : List (ℕ × List PlannedLine))
    (result : Splitting (List (ℕ × List PlannedLine)))
    → check_line l ≡ split (s, p)
    → Grouped ls (append_line s p gs) result
    → Grouped (l ∷ ls) gs result
unfolding lines_total
later l ls s p gs split_error e g = tt
later l ls s p gs value_error e g = tt
later l ls s p gs (split hs) e (totals, once, accepted) = (
  λ f.
      rw (lines_total, e)
        (shift (groups_total f hs) (groups_total f gs) (lines_total f ls) (f s p)
          (totals f ∙ ap (λ t. t +ℤ lines_total f ls) (groups_total-append_line f s p gs))),
  once,
  ((s, p, e), accepted),
)

group-line :
    (l : Line) (ls : List Line) (gs : List (ℕ × List PlannedLine))
    (checked : Splitting (ℕ × PlannedLine))
    → check_line l ≡ checked
    → ((s : ℕ) → count seller s gs ≤ 1)
    → ((hs : List (ℕ × List PlannedLine))
        → ((s : ℕ) → count seller s hs ≤ 1)
        → Grouped ls hs (group ls hs))
    → Grouped (l ∷ ls) gs (group (l ∷ ls) gs)
unfolding group
group-line l ls gs split_error e once rest = rw (group, e) tt
group-line l ls gs value_error e once rest = rw (group, e) tt
group-line l ls gs (split (s, p)) e once rest =
    rw (group, e)
      (later l ls s p gs (group ls (append_line s p gs)) e
        (rest (append_line s p gs) (λ t. count-append_line t s p gs (once t))))

pub group-Grouped :
    (ls : List Line) (gs : List (ℕ × List PlannedLine))
    → ((s : ℕ) → count seller s gs ≤ 1)
    → Grouped ls gs (group ls gs)
unfolding group lines_total
group-Grouped [] gs once = (λ f. sym (+ℤ-zero (groups_total f gs)), once, tt)
group-Grouped (l ∷ ls) gs once =
    group-line l ls gs (check_line l) refl once (λ hs. group-Grouped ls hs)
