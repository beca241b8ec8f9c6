-- ===== src/SellerOrder.antt =====
-- The cash-on-delivery lifecycle of one seller's part of an order:
-- services/order-saga/app/services/cod_rules.py, with the statuses of split_rules.py. A status or an
-- action arrives as a string: a status outside the vocabulary is `none`, an action outside it is
-- `unknown_action`. The texts of refusals (`detail`) are left out; the reason that an accepted
-- transition carries in `detail` is kept.
mod Tests
pub mod Lifecycle
pub mod Derive
pub mod LeastAdvanced
pub mod Split
use ecommerce_platform.Base.{none, ◌&&◌, some, Bool, true, Option, false, if◌then◌else◌}
use Prim.Native.String.{String}
use Prim.Native.Nat.{ℕ}
use ecommerce_platform.Base.Text.{strip, is_empty}

-- `is not None`
abbrev pub is_some {ℓ} : {A : Type ℓ} → Option A → Bool
is_some none = false
is_some (some a) = true

-- SellerOrderStatus of split_rules.py
pub data SellerOrderStatus : Type 0 where
  pending inventory_reserved confirmed dispatched : SellerOrderStatus
  rto_in_transit delivered settled returned cancelled : SellerOrderStatus

-- The values of the action argument: the keys of ACTIONS, and any other string.
pub data Action : Type 0 where
  confirm dispatch deliver settle mark_rto complete_return cancel : Action
  unknown_action : String → Action

pub data InventoryEffect : Type 0 where
  no_effect release consume : InventoryEffect

pub data SellerOrderEvent : Type 0 where
  seller_order_confirmed seller_order_dispatched seller_order_delivered : SellerOrderEvent
  seller_order_settled seller_order_rto_started seller_order_returned : SellerOrderEvent
  seller_order_cancelled : SellerOrderEvent

pub record Transition : Type 0 where
  pub to : SellerOrderStatus
  pub event : SellerOrderEvent
  pub effect : InventoryEffect
  pub requires_reason : Bool

pub data Outcome : Type 0 where
  accepted invalid not_allowed : Outcome

pub record Decision : Type 0 where
  pub outcome : Outcome
  pub to : Option SellerOrderStatus
  pub event : Option SellerOrderEvent
  pub effect : InventoryEffect
  pub reason : String

abbrev pub cancel_transition : Transition
cancel_transition = record {
  to = cancelled;
  event = seller_order_cancelled;
  effect = release;
  requires_reason = true;
}

abbrev plain : SellerOrderStatus → SellerOrderEvent → InventoryEffect → Transition
plain s e f = record { to = s; event = e; effect = f; requires_reason = false }

-- ACTIONS[action].get(status), for an action that is a key.
unfoldable pub actions : Action → SellerOrderStatus → Option Transition
actions confirm inventory_reserved = some (plain confirmed seller_order_confirmed no_effect)
actions dispatch confirmed = some (plain dispatched seller_order_dispatched no_effect)
actions deliver dispatched = some (plain delivered seller_order_delivered consume)
actions settle delivered = some (plain settled seller_order_settled no_effect)
actions mark_rto dispatched = some (record {
  to = rto_in_transit;
  event = seller_order_rto_started;
  effect = no_effect;
  requires_reason = true;
})
actions complete_return rto_in_transit = some (plain returned seller_order_returned release)
actions cancel pending = some cancel_transition
actions cancel inventory_reserved = some cancel_transition
actions cancel confirmed = some cancel_transition
actions _ _ = none

-- `action in ACTIONS`
abbrev pub is_action : Action → Bool
is_action (unknown_action name) = false
is_action _ = true

-- TERMINAL
unfoldable pub is_terminal : SellerOrderStatus → Bool
is_terminal settled = true
is_terminal returned = true
is_terminal cancelled = true
is_terminal _ = false

-- may_cancel, and cancellable_child_statuses as a test
unfoldable pub may_cancel : SellerOrderStatus → Bool
unfolding actions
may_cancel s = is_some (actions cancel s)

abbrev refuse : Outcome → Decision
refuse o = record { outcome = o; to = none; event = none; effect = no_effect; reason = "" }

-- The status is None where _as_status does not recognise it.
unfoldable pub plan_transition : Action → Option SellerOrderStatus → String → Decision
unfolding actions strip
plan_transition action status reason =
    if is_action action
    then elim status [
      | none ↦ refuse not_allowed
      | some current ↦ elim (actions action current) [
        | none ↦ refuse not_allowed
        | some t ↦ if t.requires_reason && is_empty (strip reason) then refuse invalid else record {
          outcome = accepted;
          to = some t.to;
          event = some t.event;
          effect = t.effect;
          reason = strip reason;
        }
      ]
    ]
    else refuse invalid

-- Decision.http_status, read where the decision is not accepted
abbrev pub http_status : Decision → ℕ
http_status d = elim (d.outcome) [ invalid ↦ 422 | accepted ↦ 409 | not_allowed ↦ 409 ]
