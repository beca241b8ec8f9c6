-- ===== src/SellerOrder/Lifecycle.antt =====
-- The life of one seller order: its own transitions (cod_rules.plan_transition), and what the
-- parent saga does to it (services/order-saga/app/services/saga_orchestrator.py): a reservation
-- moves a PENDING child on, a compensation releases the stock of the whole order, and a saga that
-- ends cancels the children that may still be cancelled.
use ecommerce_platform.Base.{
  ◌==◌, ◌||◌, inr, Bool-cases, refl, inl, ◌<◌, Bool, arith, true, ◌⊎◌, ◌↔◌, false, ◌≢◌, some,
  if◌then◌else◌, List, ℕ, ◌≤◌, none, suc, ◌∷◌, ◌+◌, ◌≡◌, [],
}
use ecommerce_platform.Inventory.Table.{HoldStatus}
use Prim.Native.String.{String}
use mathlib.Core.Logic.{ite}
use ecommerce_platform.SellerOrder.{
  settle, complete_return, deliver, strip, dispatch, confirm, is_empty, SellerOrderStatus, pending,
  inventory_reserved, confirmed, dispatched, rto_in_transit, delivered, settled, returned,
  cancelled, Action, InventoryEffect, no_effect, release, consume, accepted, cancel, mark_rto,
  plan_transition, is_terminal, may_cancel, Decision,
}

-- An action on the seller order; the parent's reservation, its release of the stock of the whole
-- order (a ReleaseInventoryCommand, by order), and its end.
pub data Input : Type 0 where
  act : Action → String → Input
  saga_reserved saga_released saga_ended : Input

-- The inventory command that a change puts on the outbox: the seller order's own, for its lines, or
-- the parent's, for every line of the order.
pub data StockCommand : Type 0 where
  own : InventoryEffect → StockCommand
  order_release : StockCommand

-- What an accepted decision writes: the status, and the effect that becomes an inventory command.
unfoldable pub carry_out : Decision → SellerOrderStatus → SellerOrderStatus × StockCommand
carry_out d s = elim (d.to) [ some s' ↦ (s', own d.effect) | none ↦ (s, own no_effect) ]

-- One committed change. The parent releases whatever the status of the seller order is, and a
-- child that it cancels leaves no command.
unfoldable pub step : SellerOrderStatus → Input → SellerOrderStatus × StockCommand
unfolding carry_out
step s (act a reason) = carry_out (plan_transition a (some s) reason) s
step pending saga_reserved = (inventory_reserved, own no_effect)
step s saga_reserved = (s, own no_effect)
step s saga_released = (s, order_release)
step s saga_ended = (if may_cancel s then cancelled else s, own no_effect)

unfoldable pub run : SellerOrderStatus → List Input → SellerOrderStatus × List StockCommand
run s [] = (s, [])
run s (i ∷ is) =
    let (s', command) = step s i in let (final, rest) = run s' is in (final, command ∷ rest)

-- What the commands come to: the seller order's own, counted; the hold of one of its lines, when
-- they are carried out in order; whether the parent released, and whether it did so before the
-- seller order's own consumption.
pub record Tally : Type 0 where
  pub consumptions : ℕ
  pub releases : ℕ
  pub hold : HoldStatus
  pub order_released : Bool
  pub released_first : Bool

abbrev pub settle_to : HoldStatus → HoldStatus → HoldStatus
settle_to HoldStatus.held final = final
settle_to hold final = hold

-- A consumption or a release finds the hold only while it is held.
abbrev pub count : StockCommand → Tally → Tally
count (own no_effect) t = t
count (own consume) t = record t {
  consumptions = suc t.consumptions;
  hold = settle_to t.hold HoldStatus.consumed;
  released_first = t.order_released;
}
count (own release) t = record t {
  releases = suc t.releases;
  hold = settle_to t.hold HoldStatus.released;
}
count order_release t = record t {
  hold = settle_to t.hold HoldStatus.released;
  order_released = true;
}

abbrev pub count_all : List StockCommand → Tally → Tally
count_all [] t = t
count_all (c ∷ cs) t = count_all cs (count c t)

abbrev pub untouched : Tally
untouched = record {
  consumptions = 0;
  releases = 0;
  hold = HoldStatus.held;
  order_released = false;
  released_first = false;
}

-- What a status says of the commands and of the hold. A parent's cancellation leaves the release to
-- the parent.
abbrev pub Accounts : SellerOrderStatus → Tally → Type 0
Accounts delivered t =
    (t.consumptions ≡ 1)
    × (t.releases ≡ 0)
    × (t.hold ≡ (if t.released_first then HoldStatus.released else HoldStatus.consumed))
Accounts settled t =
    (t.consumptions ≡ 1)
    × (t.releases ≡ 0)
    × (t.hold ≡ (if t.released_first then HoldStatus.released else HoldStatus.consumed))
Accounts returned t = (t.consumptions ≡ 0) × (t.releases ≡ 1) × (t.hold ≡ HoldStatus.released)
Accounts cancelled t =
    (t.consumptions ≡ 0)
    × (t.releases ≤ 1)
    × (t.hold
        ≡ (if t.order_released || t.releases == 1 then HoldStatus.released else HoldStatus.held))
Accounts _ t =
    (t.consumptions ≡ 0)
    × (t.releases ≡ 0)
    × (t.hold ≡ (if t.order_released then HoldStatus.released else HoldStatus.held))

step-Accounts :
    (s : SellerOrderStatus) (i : Input) (t : Tally)
    → Accounts s t
    → Accounts (step s i).0 (count (step s i).1 t)
unfolding step plan_transition may_cancel
step-Accounts pending i t h = ground arith
step-Accounts s i t h = ground arith

run-Accounts :
    (s : SellerOrderStatus) (is : List Input) (t : Tally)
    → Accounts s t
    → Accounts (run s is).0 (count_all (run s is).1 t)
unfolding run
run-Accounts s [] t h = h
run-Accounts s (i ∷ is) t h =
    run-Accounts (step s i).0 is (count (step s i).1 t) (step-Accounts s i t h)

-- Over every history of a seller order that begins at PENDING, whenever its parent releases the
-- stock of the whole order. By the commands that the seller order's own moves put on the outbox:
-- one consumption and no release if it is DELIVERED or SETTLED, one release and no consumption if
-- it is RETURNED, at most one release if it is CANCELLED, and none otherwise. And by a hold that
-- stands at the beginning, when the commands and the parent's releases are carried out in their
-- order: it is consumed if the order is DELIVERED or SETTLED, unless the parent released it
-- before; released if it is RETURNED; released if it is CANCELLED and either of the two released
-- it, and held if none did; otherwise released if the parent did so, although the order is not
-- CANCELLED, and held if not.
pub stock_follows_status :
    (is : List Input)
    → let (s, commands) = run pending is in Accounts s (count_all commands untouched)
stock_follows_status is = run-Accounts pending is untouched (refl, refl, refl)

abbrev pub has_left : SellerOrderStatus → Bool
has_left dispatched = true
has_left rto_in_transit = true
has_left delivered = true
has_left settled = true
has_left returned = true
has_left _ = false

step-has_left :
    (s : SellerOrderStatus) (i : Input) → has_left s ≡ true → has_left (step s i).0 ≡ true
unfolding step plan_transition may_cancel
step-has_left pending i h = cc
step-has_left s i h = ground arith

-- Once a parcel is with a courier, nothing that the seller, the buyer or the saga does makes the
-- order CANCELLED.
pub dispatched_never_cancelled :
    (s : SellerOrderStatus) (is : List Input) → has_left s ≡ true → (run s is).0 ≢ cancelled
unfolding run
dispatched_never_cancelled s [] h e = ground arith
dispatched_never_cancelled s (i ∷ is) h e =
    dispatched_never_cancelled (step s i).0 is (step-has_left s i h) e

abbrev pub progress : SellerOrderStatus → ℕ
progress pending = 0
progress inventory_reserved = 1
progress confirmed = 2
progress dispatched = 3
progress rto_in_transit = 4
progress delivered = 4
progress settled = 5
progress returned = 5
progress cancelled = 5

step-progress :
    (s : SellerOrderStatus) (i : Input) → ((step s i).0 ≡ s) ⊎ (progress s < progress (step s i).0)
unfolding step plan_transition may_cancel
step-progress pending i = ground arith
step-progress s i = ground arith

SellerOrderStatus-discrete : Discrete SellerOrderStatus
SellerOrderStatus-discrete = hlevel

-- How many inputs of a history change the status.
unfoldable pub moves : SellerOrderStatus → List Input → ℕ
unfolding SellerOrderStatus-discrete
moves s [] = 0
moves s (i ∷ is) =
    let s' = (step s i).0 in
    let later = moves s' is in ite (SellerOrderStatus-discrete s' s) later (suc later)

moves-progress : (s : SellerOrderStatus) (is : List Input) → moves s is + progress s ≤ 5
unfolding moves
moves-progress pending [] = omega arith
moves-progress s [] = omega arith
moves-progress s (i ∷ is) = ground (arith, step-progress s i, moves-progress (step s i).0 is)

-- A seller order changes status at most five times, whatever is asked of it and in what order.
pub status_moves_bounded : (is : List Input) → moves pending is ≤ 5
status_moves_bounded is = omega (arith, moves-progress pending is)

terminal_refuses :
    (s : SellerOrderStatus) (a : Action) (reason : String)
    → is_terminal s ≡ true
    → (plan_transition a (some s) reason).outcome ≢ accepted
unfolding is_terminal plan_transition
terminal_refuses pending a reason h e = cc
terminal_refuses s a reason h e = ground arith

abbrev way_out : SellerOrderStatus → Action
way_out pending = cancel
way_out inventory_reserved = confirm
way_out confirmed = dispatch
way_out dispatched = deliver
way_out rto_in_transit = complete_return
way_out _ = settle

way_out_accepted :
    (s : SellerOrderStatus)
    → is_terminal s ≡ false
    → (plan_transition (way_out s) (some s) "x").outcome ≡ accepted
unfolding is_terminal plan_transition
way_out_accepted pending h = refl
way_out_accepted s h = ground arith

-- A status is terminal exactly when every action, with every reason, is refused.
pub terminal_iff_refuses :
    (s : SellerOrderStatus)
    → (is_terminal s ≡ true)
      ↔ ((a : Action) (reason : String) → (plan_transition a (some s) reason).outcome ≢ accepted)
terminal_iff_refuses s = (
  λ h a reason. terminal_refuses s a reason h,
  λ none_accepted. elim (Bool-cases (is_terminal s)) [
    | inl h ↦ h
    | inr h ↦ absurd (none_accepted (way_out s) "x" (way_out_accepted s h))
  ],
)

-- A cancellation or a refusal at the door with a reason that strips to nothing is INVALID or
-- NOT_ALLOWED, in every status: it is never accepted.
pub reason_required :
    (a : Action) (s : SellerOrderStatus) (reason : String)
    → (a ≡ cancel) ⊎ (a ≡ mark_rto)
    → is_empty (strip reason) ≡ true
    → (plan_transition a (some s) reason).outcome ≢ accepted
unfolding plan_transition
reason_required a pending reason ha hr e = ground arith
reason_required a s reason ha hr e = ground arith
