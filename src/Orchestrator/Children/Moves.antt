-- ===== src/Orchestrator/Children/Moves.antt =====
-- The moves of single seller orders, and the children of sagas that have ended:
-- transition_seller_order of services/order-saga/app/services/saga_orchestrator.py.
use ecommerce_platform.Base.{
  ◌++◌, ◌⊎◌, Bool, ℕ, List, [], ◌∷◌, ◌≡◌, arith, true, false, refl, some, inl, inr, sym, ◌∙◌,
  Bool-cases, Option-cases,
}
use mathlib.Core.Path.{subst}
use ecommerce_platform.Saga.Stock.{is_ended}
use ecommerce_platform.SellerOrder
use ecommerce_platform.SellerOrder.{may_cancel, plan_transition, SellerOrderStatus, Action}
use Prim.Native.String.{String}
use ecommerce_platform.Orchestrator.SellerOrders.{
  find_child, transition_messages, write_child, transition_seller_order, carry_out_transition,
  moved_row, same_key, find_child-key, TransitionRequest,
}
use ecommerce_platform.Orchestrator.{
  SellerOrderRow, OutboxMessage, products_of, Database, find_saga,
}
use ecommerce_platform.Orchestrator.Children.{
  Closed, agrees, when-Closed, when_still_live, when_missing, is_Closed,
}

write_child-Closed :
    (n : ℕ) (old row : SellerOrderRow) (cs : List SellerOrderRow) (order i : ℕ)
    → find_child order i cs ≡ some old
    → row.id ≡ i
    → row.order_id ≡ order
    → old.order_id ≡ order
    → (may_cancel old.status ≡ true) ⊎ (may_cancel row.status ≡ false)
    → Closed n cs
    → Closed n (write_child row cs)
write_child-Closed n old row [] order i f p q r m h = refl
write_child-Closed n old row (c ∷ cs) order i f p q r m h =
    ground (arith, write_child-Closed n old row cs order i)

-- No transition makes a seller order cancellable that was not.
stays_uncancellable :
    (action : Action) (s s' : SellerOrderStatus) (reason : String)
    → (plan_transition action (some s) reason).to ≡ some s'
    → (may_cancel s ≡ true) ⊎ (may_cancel s' ≡ false)
unfolding plan_transition may_cancel
stays_uncancellable action s s' reason h = ground arith

rewritten :
    (n : ℕ) (db : Database) (rows : List SellerOrderRow) (messages : List OutboxMessage)
    → (Closed n db.seller_orders → Closed n rows)
    → agrees n db ≡ true
    → agrees n (record db { seller_orders = rows; outbox = messages }) ≡ true
rewritten n db rows messages keeps a =
    let db' = record db { seller_orders = rows; outbox = messages } in
    elim (Option-cases (find_saga n db.sagas)) [
      | inl f ↦ when_missing n db' f
      | inr (saga, f) ↦ elim (Bool-cases (is_ended saga.status)) [
        | inl e ↦ when-Closed n db' (keeps (is_Closed n db saga a f e))
        | inr e ↦ when_still_live n db' saga f e
      ]
    ]

moved-Closed :
    (n order i : ℕ) (action : Action) (d : SellerOrder.Decision) (s : SellerOrderStatus)
    (request : TransitionRequest) (old : SellerOrderRow) (cs : List SellerOrderRow)
    → (may_cancel old.status ≡ true) ⊎ (may_cancel s ≡ false)
    → find_child order i cs ≡ some old
    → Closed n cs
    → Closed n (write_child (moved_row action d s request old) cs)
moved-Closed n order i action d s request old cs says f h =
    let (same_id, same_order, new) = same_key action d s request old in
    let (old_id, old_order) = find_child-key order i old cs f in
    write_child-Closed n old (moved_row action d s request old) cs order i f (same_id ∙ old_id)
      (same_order ∙ old_order) old_order
      (subst (λ t. (may_cancel old.status ≡ true) ⊎ (may_cancel t ≡ false)) (sym new) says) h

carried_transition :
    (commits : Bool) (n order i : ℕ) (action : Action) (d : SellerOrder.Decision)
    (request : TransitionRequest) (old : SellerOrderRow) (db : Database)
    → ((s : SellerOrderStatus)
        → d.to ≡ some s
        → (may_cancel old.status ≡ true) ⊎ (may_cancel s ≡ false))
    → find_child order i db.seller_orders ≡ some old
    → agrees n db ≡ true
    → agrees n (carry_out_transition commits action d request old db).1 ≡ true
unfolding carry_out_transition
carried_transition commits n order i action d request old db says f a = elim (Option-cases d.to) [
  | inl e ↦ rw (carry_out_transition, e) a
  | inr (s, e) ↦ elim (Bool-cases commits) [
    | inr off ↦ rw (carry_out_transition, e, off) a
    | inl on ↦
        let moved = moved_row action d s request old in
        rw (carry_out_transition, e, on)
          (rewritten n db (write_child moved db.seller_orders)
            (db.outbox ++ transition_messages action d moved (products_of old.id db.lines))
            (moved-Closed n order i action d s request old db.seller_orders (says s e) f) a)
  ]
]

-- For every order n: suppose that, if the saga of n has FAILED, TIMED_OUT or been rolled back, then
-- none of its children could still be cancelled. transition_seller_order keeps it so, whichever
-- seller order and action it is asked for, and whether the commit succeeds or not.
pub transition_seller_order-agrees :
    (commits : Bool) (n order i : ℕ) (action : Action) (request : TransitionRequest) (db : Database)
    → agrees n db ≡ true
    → agrees n (transition_seller_order commits order i action request db).1 ≡ true
unfolding transition_seller_order
transition_seller_order-agrees commits n order i action request db a =
    elim (Option-cases (find_child order i db.seller_orders)) [
      | inl f ↦ rw (transition_seller_order, f) a
      | inr (old, f) ↦
          rw (transition_seller_order, f)
            (carried_transition commits n order i action
              (plan_transition action (some old.status) request.reason) request old db
              (λ s e. stays_uncancellable action old.status s request.reason e) f a)
    ]
