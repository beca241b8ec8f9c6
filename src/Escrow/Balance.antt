-- ===== src/Escrow/Balance.antt =====
-- The sums of the plans of services/payment-service/app/services/ledger_rules.py, and the commission
-- split.
use ecommerce_platform.Base.{
  Bool-cases, sym, ap, false, inr, inl, arith, ◌⊎◌, ◌≡◌, ℕ, ◌*◌, ◌∷◌, [], ◌/◌, ◌≤◌, List,
}
use ecommerce_platform.Base.Int.{
  neg_part, leb_ℤ, pos_part, neg, ◌==ℤ◌, eq_of_parts, negsuc, int_laws, ◌-ℤ◌, pos, ◌≤ℤ◌, sum, ℤ,
  ◌+ℤ◌,
}
use mathlib.Core.Path.{subst}
use ecommerce_platform.Escrow.{
  >>=-eq-planned, planned, ◌>>◌, raise_if, floor_bps, split_commission, Entry, amounts,
  assert_balanced, delivery_entries, settlement_entries, payout_entries, plan_delivery,
  plan_settlement, plan_payout,
}

floor_bps-le : (n r : ℕ) → r ≤ 10000 → n * r / 10000 ≤ n
floor_bps-le n r h = let below : n * r ≤ n * 10000 = grind arith in omega (arith, below)

sub_nonneg : (a b : ℤ) → b ≤ℤ a → pos 0 ≤ℤ a -ℤ b
sub_nonneg a b h = omega int_laws

share_back : (a b : ℤ) → b +ℤ (a -ℤ b) ≡ a
share_back a b = omega int_laws

-- When an amount is split, the commission and the seller's share are zero or more, and sum to the
-- amount.
pub split_commission_lem :
    (amount rate commission share : ℤ)
    → split_commission amount rate ≡ planned (commission, share)
    → (pos 0 ≤ℤ commission) × (pos 0 ≤ℤ share) × (commission +ℤ share ≡ amount)
unfolding split_commission
split_commission_lem (negsuc a) rate commission share h = ground arith
split_commission_lem (pos a) (negsuc r) commission share h = ground arith
split_commission_lem (pos a) (pos r) commission share h = ground (
  arith,
  floor_bps-le a r,
  sub_nonneg (pos a) (pos (a * r / 10000)),
  share_back (pos a) (pos (a * r / 10000)),
)

pub assert_balanced-sum :
    (es : List Entry) → assert_balanced es ≡ planned tt → sum (amounts es) ≡ pos 0
unfolding assert_balanced
assert_balanced-sum [] h = cc
assert_balanced-sum (e ∷ es) h = ground (arith, eq_of_parts (sum (amounts (e ∷ es))) (pos 0))

entries_zero :
    (es : List Entry)
    → (xs : List Entry) → (assert_balanced es >> planned es) ≡ planned xs
    → (xs ≡ es) × (sum (amounts xs) ≡ pos 0)
entries_zero es xs h =
    let (u, balanced, same) = >>=-eq-planned (assert_balanced es) (λ _. planned es) h in
    let e : es ≡ xs = cc in
    (sym e, subst (λ t. sum (amounts t) ≡ pos 0) e (assert_balanced-sum es balanced))

-- Every delivery, settlement or payout that is planned is a set of entries that sums to zero.
pub plans_balance :
    (seller order : ℕ) (amount rate : ℤ) (es : List Entry)
    → (plan_delivery seller order amount rate ≡ planned es)
      ⊎ ((plan_settlement seller order amount ≡ planned es)
          ⊎ (plan_payout seller amount ≡ planned es))
    → sum (amounts es) ≡ pos 0
unfolding plan_delivery plan_settlement plan_payout
plans_balance seller order amount rate es (inl h) =
    let (u, positive, rest) = >>=-eq-planned (raise_if (leb_ℤ amount (pos 0))) _ h in
    let (shares, split, last) = >>=-eq-planned (split_commission amount rate) _ rest in
    (entries_zero (delivery_entries seller order amount shares) es last).1
plans_balance seller order amount rate es (inr (inl h)) =
    let (u, positive, last) = >>=-eq-planned (raise_if (leb_ℤ amount (pos 0))) _ h in
    (entries_zero (settlement_entries seller order amount) es last).1
plans_balance seller order amount rate es (inr (inr h)) =
    let (u, positive, last) = >>=-eq-planned (raise_if (leb_ℤ amount (pos 0))) _ h in
    (entries_zero (payout_entries seller amount) es last).1

assert_balanced_zero :
    (e : Entry) (es : List Entry)
    → sum (amounts (e ∷ es)) ≡ pos 0
    → assert_balanced (e ∷ es) ≡ planned tt
unfolding assert_balanced
assert_balanced_zero e es h = rw (assert_balanced, h)

three_zero : (c k : ℤ) → c +ℤ (neg (c -ℤ k) +ℤ (neg k +ℤ pos 0)) ≡ pos 0
three_zero c k = omega int_laws

two_zero : (c k : ℤ) → k ≡ pos 0 → c +ℤ (neg (c -ℤ k) +ℤ pos 0) ≡ pos 0
two_zero c k e = omega (int_laws, ap pos_part e, ap neg_part e)

delivery_zero :
    (seller order : ℕ) (c k : ℤ)
    → sum (amounts (delivery_entries seller order c (k, c -ℤ k))) ≡ pos 0
unfolding sum
delivery_zero seller order c k = elim (Bool-cases (k ==ℤ pos 0)) [
  | inl e ↦ rw e (two_zero c k (ground arith))
  | inr e ↦ rw e (three_zero c k)
]

-- The entries of a delivery pass the check, whatever the commission.
pub delivery_balanced :
    (seller order : ℕ) (c k : ℤ)
    → assert_balanced (delivery_entries seller order c (k, c -ℤ k)) ≡ planned tt
delivery_balanced seller order c k = assert_balanced_zero _ _ (delivery_zero seller order c k)

split_commission-total :
    (amount rate : ℤ)
    → pos 1 ≤ℤ amount
    → pos 0 ≤ℤ rate
    → rate ≤ℤ pos 10000
    → split_commission amount rate
      ≡ planned (floor_bps amount rate, amount -ℤ floor_bps amount rate)
unfolding split_commission
split_commission-total amount rate one low high = ground arith

-- A delivery of a positive amount at a rate from 0 to 10000 is always planned: the check of the
-- balance never refuses the entries that the plan itself made.
pub plan_delivery-total :
    (seller order : ℕ) (amount rate : ℤ)
    → pos 1 ≤ℤ amount
    → pos 0 ≤ℤ rate
    → rate ≤ℤ pos 10000
    → plan_delivery seller order amount rate
      ≡ planned (
          delivery_entries seller order amount
            (floor_bps amount rate, amount -ℤ floor_bps amount rate))
unfolding plan_delivery
plan_delivery-total seller order amount rate one low high =
    let positive : leb_ℤ amount (pos 0) ≡ false = ground arith in
    let k = floor_bps amount rate in
    rw (plan_delivery, positive, split_commission-total amount rate one low high)
      (rw (delivery_balanced seller order amount k))
