-- ===== src/SellerOrder/LeastAdvanced.antt =====
-- derive_order_status and is_order_complete of services/order-saga/app/services/split_rules.py, against
-- the statuses of the children.
use ecommerce_platform.Base.{
  sym, false, all, Option-cases, ap, some, ◌↔◌, ◌⊎◌, any, Option, All, List, ltb, refl, ◌≡◌, ◌∷◌,
  true, Bool-cases, [], ◌≤◌, if◌then◌else◌, keep_if, arith,
}
use mathlib.Core.Logic.{inl, inr}
use mathlib.Core.Path.{subst}
use ecommerce_platform.SellerOrder.{SellerOrderStatus, is_terminal}
use ecommerce_platform.SellerOrder.Derive.{
  progress, least_advanced, is_active, derive_from, derive_known, complete_known, Behind, Has,
  derive_order_status, is_order_complete, all_known,
}

least_advanced-le :
    (b : SellerOrderStatus) (ss : List SellerOrderStatus)
    → progress (least_advanced b ss) ≤ progress b
least_advanced-le b [] = omega arith
least_advanced-le b (s ∷ ss) =
    ground (arith, least_advanced-le (if ltb (progress s) (progress b) then s else b) ss)

least_advanced-All :
    (b : SellerOrderStatus) (ss : List SellerOrderStatus)
    → All (λ t. progress (least_advanced b ss) ≤ progress t) ss
least_advanced-All b [] = tt
least_advanced-All b (s ∷ ss) =
    let b' = if ltb (progress s) (progress b) then s else b in
    (ground (arith, least_advanced-le b' ss), least_advanced-All b' ss)

least_advanced-Has :
    (b : SellerOrderStatus) (ss : List SellerOrderStatus) → Has (least_advanced b ss) (b ∷ ss)
least_advanced-Has b [] = inl refl
least_advanced-Has b (s ∷ ss) =
    ground (arith, least_advanced-Has (if ltb (progress s) (progress b) then s else b) ss)

Has-keep_if :
    (s : SellerOrderStatus) (ss : List SellerOrderStatus)
    → Has s (keep_if is_active ss)
    → Has s ss × (is_active s ≡ true)
Has-keep_if s [] h = absurd h
Has-keep_if s (t ∷ ts) h = elim (Bool-cases (is_active t)) [
  | inl a ↦
      let here : (s ≡ t) ⊎ Has s (keep_if is_active ts) = rw a at h in
      ground (arith, here, Has-keep_if s ts, ap is_active)
  | inr a ↦ let (m, p) = Has-keep_if s ts (rw a at h) in (inr m, p)
]

Behind-keep_if :
    (s : SellerOrderStatus) (ss : List SellerOrderStatus)
    → All (λ t. progress s ≤ progress t) (keep_if is_active ss)
    → Behind s ss
Behind-keep_if s [] h = tt
Behind-keep_if s (t ∷ ts) h = elim (Bool-cases (is_active t)) [
  | inl a ↦
      let both : (progress s ≤ progress t)
          × All (λ u. progress s ≤ progress u) (keep_if is_active ts) =
        rw a at h in
      (inr both.0, Behind-keep_if s ts both.1)
  | inr a ↦ (inl a, Behind-keep_if s ts (rw a at h))
]

abbrev Least : SellerOrderStatus → List SellerOrderStatus → Type 0
Least s ss = Has s ss × (is_active s ≡ true) × Behind s ss

none_active : (ss : List SellerOrderStatus) → keep_if is_active ss ≡ [] → any is_active ss ≡ false
none_active [] e = refl
none_active (t ∷ ts) e = ground (arith, none_active ts)

Least-of_active :
    (active ss : List SellerOrderStatus)
    → keep_if is_active ss ≡ active
    → any is_active ss ≡ true
    → Least (derive_from active ss) ss
unfolding derive_from
Least-of_active [] ss e h = cc (none_active ss e)
Least-of_active (s ∷ active) ss e h =
    let r = least_advanced s active in
    let (m, a) = Has-keep_if r ss (subst (Has r) (sym e) (least_advanced-Has s active)) in
    let behind : All (λ t. progress r ≤ progress t) (s ∷ active) =
      (least_advanced-le s active, least_advanced-All s active) in
    (m, a, Behind-keep_if r ss (subst (All (λ t. progress r ≤ progress t)) (sym e) behind))

known-Least :
    (ss : List SellerOrderStatus) (s : SellerOrderStatus)
    → any is_active ss ≡ true
    → derive_known ss ≡ some s
    → Least s ss
unfolding derive_known
known-Least [] s h e = cc
known-Least (t ∷ ts) s h e =
    let active = keep_if is_active (t ∷ ts) in
    let same : derive_from active (t ∷ ts) ≡ s = cc in
    subst (λ u. Least u (t ∷ ts)) same (Least-of_active active (t ∷ ts) refl h)

-- When every child's status is recognised and some child is neither CANCELLED nor RETURNED, the
-- derived status is one of the children's, is neither of those two, and no child that is neither
-- of those two is less advanced.
pub least_advanced_wins :
    (children : List (Option SellerOrderStatus)) (ss : List SellerOrderStatus)
    (s : SellerOrderStatus)
    → all_known children ≡ some ss
    → any is_active ss ≡ true
    → derive_order_status children ≡ some s
    → Has s ss × (is_active s ≡ true) × Behind s ss
unfolding derive_order_status
least_advanced_wins children ss s k h e = known-Least ss s h (rw (derive_order_status, k) at e)

terminal-Has :
    (s : SellerOrderStatus) (ss : List SellerOrderStatus)
    → Has s ss
    → all is_terminal ss ≡ true
    → is_terminal s ≡ true
terminal-Has s [] h t = absurd h
terminal-Has s (u ∷ us) h t = ground (arith, terminal-Has s us, ap is_terminal)

terminal_of_active :
    (s : SellerOrderStatus) → is_active s ≡ true → is_terminal s ≡ true → progress s ≡ 6
unfolding is_terminal
terminal_of_active s a t = ground arith

terminal_at_end :
    (t : SellerOrderStatus) → (is_active t ≡ true → 6 ≤ progress t) → is_terminal t ≡ true
unfolding is_terminal
terminal_at_end t h = ground arith

all_terminal-Behind :
    (s : SellerOrderStatus) (ss : List SellerOrderStatus)
    → progress s ≡ 6
    → Behind s ss
    → all is_terminal ss ≡ true
all_terminal-Behind s [] p b = refl
all_terminal-Behind s (t ∷ ts) p b =
    rw (terminal_at_end t (λ a. ground (arith, b.0))) (all_terminal-Behind s ts p b.1)

all_terminal_none_active :
    (ss : List SellerOrderStatus) → any is_active ss ≡ false → all is_terminal ss ≡ true
all_terminal_none_active [] h = refl
all_terminal_none_active (t ∷ ts) h = ground (arith, all_terminal_none_active ts, terminal_at_end t)

derived_ending :
    (active ss : List SellerOrderStatus) → active ≡ [] → is_terminal (derive_from active ss) ≡ true
unfolding derive_from is_terminal
derived_ending [] ss e = ground arith
derived_ending (s ∷ active) ss e = cc

keep_if-none : (ss : List SellerOrderStatus) → any is_active ss ≡ false → keep_if is_active ss ≡ []
keep_if-none [] h = refl
keep_if-none (t ∷ ts) h = ground (arith, keep_if-none ts)

abbrev derived : List SellerOrderStatus → SellerOrderStatus
derived ss = derive_from (keep_if is_active ss) ss

derived_of_complete :
    (ss : List SellerOrderStatus) → all is_terminal ss ≡ true → is_terminal (derived ss) ≡ true
derived_of_complete ss h = elim (Bool-cases (any is_active ss)) [
  | inl some_active ↦
      terminal-Has (derived ss) ss (Least-of_active (keep_if is_active ss) ss refl some_active).0 h
  | inr none_active ↦ derived_ending (keep_if is_active ss) ss (keep_if-none ss none_active)
]

complete_of_derived :
    (ss : List SellerOrderStatus) → is_terminal (derived ss) ≡ true → all is_terminal ss ≡ true
complete_of_derived ss h = elim (Bool-cases (any is_active ss)) [
  | inl some_active ↦
      let (m, a, b) = Least-of_active (keep_if is_active ss) ss refl some_active in
      all_terminal-Behind (derived ss) ss (terminal_of_active (derived ss) a h) b
  | inr none_active ↦ all_terminal_none_active ss none_active
]

known_iff :
    (ss : List SellerOrderStatus)
    → (complete_known ss ≡ true)
      ↔ ((s : SellerOrderStatus) × (derive_known ss ≡ some s) × (is_terminal s ≡ true))
unfolding complete_known derive_known
known_iff [] = (λ c. cc, λ r. cc r.1)
known_iff (t ∷ ts) = (
  λ c. (derived (t ∷ ts), refl, derived_of_complete (t ∷ ts) c),
  λ r. let same : derived (t ∷ ts) ≡ r.0 = cc r.1 in complete_of_derived (t ∷ ts) (rw same r.2),
)

-- An order is complete exactly when the status derived from its children is a terminal one.
pub complete_iff_terminal :
    (children : List (Option SellerOrderStatus))
    → (is_order_complete children ≡ true)
      ↔ ((s : SellerOrderStatus) × (derive_order_status children ≡ some s) × (is_terminal s ≡ true))
unfolding is_order_complete derive_order_status
complete_iff_terminal children = elim (Option-cases (all_known children)) [
  | inl unknown ↦ rw (unknown, is_order_complete, derive_order_status) (λ c. cc, λ r. cc r.1)
  | inr (ss, k) ↦ rw (k, is_order_complete, derive_order_status) (known_iff ss)
]
