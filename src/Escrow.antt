-- ===== src/Escrow.antt =====
-- The escrow ledger's plans: services/payment-service/app/services/ledger_rules.py.
-- An entry's `detail`, a text for people, is left out; identifiers are numbers.
mod Tests
pub mod Balance
pub mod Books
use ecommerce_platform.Base.Int.{◌-ℤ◌, leb_ℤ, ◌==ℤ◌, ℤ, pos, pos_part, sum, ltb_ℤ, neg}
use ecommerce_platform.Base.{
  ◌≡◌, refl, if◌then◌else◌, ◌*◌, [], Option, not, true, ◌==◌, ℕ, ◌/◌, ◌||◌, ◌&&◌, List, some, false,
  ◌∷◌, none, keep_if, Bool,
}

pub data Account : Type 0 where
  courier_receivable cash seller_payable commission_revenue : Account

pub data EntryReason : Type 0 where
  delivery settlement payout : EntryReason

-- Positive is a debit, negative is a credit.
pub record Entry : Type 0 where
  pub account : Account
  pub amount_cents : ℤ
  pub reason : EntryReason
  pub seller_id : Option ℕ
  pub seller_order_id : Option ℕ

-- A plan, or the LedgerError that refuses it.
pub data Planned {ℓ} (A : Type ℓ) : Type ℓ where
  planned : A → Planned A
  ledger_error : Planned A

infixl 5 ◌>>=◌ ◌>>◌
abbrev pub ◌>>=◌ {ℓ κ} : {A : Type ℓ} {B : Type κ} → Planned A → (A → Planned B) → Planned B
planned a >>= f = f a
ledger_error >>= f = ledger_error

abbrev pub ◌>>◌ {ℓ} : {B : Type ℓ} → Planned (Unit {0}) → Planned B → Planned B
m >> k = m >>= λ _. k

-- Inversion of a plan that succeeds.
pub >>=-eq-planned {ℓ κ} :
    {A : Type ℓ} {B : Type κ} (m : Planned A) (f : A → Planned B) {b : B}
    → (m >>= f) ≡ planned b
    → (a : A) × (m ≡ planned a) × (f a ≡ planned b)
>>=-eq-planned (planned a) f h = (a, refl, h)
>>=-eq-planned ledger_error f h = cc

abbrev pub raise_if : Bool → Planned (Unit {0})
raise_if true = ledger_error
raise_if false = planned tt

-- amount * rate // 10000, where both are known to be zero or more.
abbrev pub floor_bps : ℤ → ℤ → ℤ
floor_bps amount rate = pos (pos_part amount * pos_part rate / 10000)

-- (commission, seller_share)
unfoldable pub split_commission : ℤ → ℤ → Planned (ℤ × ℤ)
split_commission amount rate = do
  raise_if (ltb_ℤ amount (pos 0))
  raise_if (ltb_ℤ rate (pos 0) || ltb_ℤ (pos 10000) rate)
  planned (floor_bps amount rate, amount -ℤ floor_bps amount rate)

abbrev pub amounts : List Entry → List ℤ
amounts [] = []
amounts (e ∷ es) = e.amount_cents ∷ amounts es

unfoldable pub assert_balanced : List Entry → Planned (Unit {0})
unfolding sum
assert_balanced [] = ledger_error
assert_balanced (e ∷ es) = raise_if (not (sum (amounts (e ∷ es)) ==ℤ pos 0))

abbrev entry : Account → ℤ → EntryReason → ℕ → Option ℕ → Entry
entry a n r seller order = record {
  account = a;
  amount_cents = n;
  reason = r;
  seller_id = some seller;
  seller_order_id = order;
}

abbrev commission_line : ℤ → ℕ → ℕ → List Entry
commission_line commission seller order =
    if commission ==ℤ pos 0
    then []
    else entry commission_revenue (neg commission) delivery seller (some order) ∷ []

abbrev pub delivery_entries : ℕ → ℕ → ℤ → ℤ × ℤ → List Entry
delivery_entries seller order collected (commission, share) =
    entry courier_receivable collected delivery seller (some order)
    ∷ entry seller_payable (neg share) delivery seller (some order)
    ∷ commission_line commission seller order

unfoldable pub plan_delivery : ℕ → ℕ → ℤ → ℤ → Planned (List Entry)
plan_delivery seller order collected rate = do
  raise_if (leb_ℤ collected (pos 0))
  shares ← split_commission collected rate
  let entries = delivery_entries seller order collected shares
  assert_balanced entries
  planned entries

abbrev pub settlement_entries : ℕ → ℕ → ℤ → List Entry
settlement_entries seller order remitted =
    entry cash remitted settlement seller (some order)
    ∷ entry courier_receivable (neg remitted) settlement seller (some order)
    ∷ []

unfoldable pub plan_settlement : ℕ → ℕ → ℤ → Planned (List Entry)
plan_settlement seller order remitted = do
  raise_if (leb_ℤ remitted (pos 0))
  assert_balanced (settlement_entries seller order remitted)
  planned (settlement_entries seller order remitted)

abbrev pub payout_entries : ℕ → ℤ → List Entry
payout_entries seller amount =
    entry seller_payable amount payout seller none ∷ entry cash (neg amount) payout seller none ∷ []

unfoldable pub plan_payout : ℕ → ℤ → Planned (List Entry)
plan_payout seller amount = do
  raise_if (leb_ℤ amount (pos 0))
  assert_balanced (payout_entries seller amount)
  planned (payout_entries seller amount)

abbrev pub is_payable : Account → Bool
is_payable seller_payable = true
is_payable _ = false

-- `seller_id is None or e.seller_id == seller_id`
abbrev pub of_seller : Option ℕ → Entry → Bool
of_seller none e = true
of_seller (some s) e = elim (e.seller_id) [ none ↦ false | some t ↦ t == s ]

unfoldable pub seller_owed : List Entry → Option ℕ → ℤ
seller_owed entries seller =
    neg (sum (amounts (keep_if (λ e. is_payable e.account && of_seller seller e) entries)))

unfoldable pub is_ledger_consistent : List Entry → Bool
unfolding sum
is_ledger_consistent entries = sum (amounts entries) ==ℤ pos 0
