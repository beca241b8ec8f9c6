-- ===== src/Orchestrator/Children.antt =====
-- The seller orders of a saga that has ended: cancel_children_of_ended_saga, as advance_saga calls
-- it in services/order-saga/app/services/saga_orchestrator.py.
pub mod Moves
use ecommerce_platform.Base.{
  Bool, ℕ, List, [], ◌∷◌, ◌≡◌, ◌≢◌, arith, true, false, refl, not, all, none, some, inl, inr,
  if◌then◌else◌, Option, sym, ap, ◌∙◌, Bool-cases, Option-cases,
}
use mathlib.Core.Path.{subst}
use native.Mathlib.Decide.{ℕ_discrete}
use ecommerce_platform.Saga
use ecommerce_platform.Saga.{SagaStatus, EventType, Command, resolve}
use ecommerce_platform.Saga.Stock.{is_ended}
use ecommerce_platform.SellerOrder.{may_cancel}
use ecommerce_platform.Orchestrator.Advance.{applied, find_saga-set_status, find_saga-id}
use ecommerce_platform.Orchestrator.{
  SagaRow, SellerOrderRow, Database, is_cancelled_with, cancel_rows, reserve_rows, find_saga,
  find_key, set_status, cancel_children_of_ended_saga, is_reserved_event, reserve_children, emit,
  apply_decision, compensate_decision, carry_out, advance_saga,
}

-- No child of the order can still be cancelled.
abbrev pub Closed : ℕ → List SellerOrderRow → Type 0
Closed order cs = all (λ c. not (is_cancelled_with order c)) cs ≡ true

cancel_rows-Closed :
    (order : ℕ) (s : SagaStatus) (cs : List SellerOrderRow) → Closed order (cancel_rows order s cs)
unfolding may_cancel
cancel_rows-Closed order s [] = refl
cancel_rows-Closed order s (c ∷ cs) = ground (arith, cancel_rows-Closed order s cs)

cancel_rows-other :
    (n order : ℕ) (s : SagaStatus) (cs : List SellerOrderRow)
    → Closed n cs
    → Closed n (cancel_rows order s cs)
unfolding may_cancel
cancel_rows-other n order s [] h = refl
cancel_rows-other n order s (c ∷ cs) h = ground (arith, cancel_rows-other n order s cs)

reserve_rows-other :
    (n order : ℕ) (cs : List SellerOrderRow) → Closed n cs → Closed n (reserve_rows order cs)
unfolding may_cancel
reserve_rows-other n order [] h = refl
reserve_rows-other n order (c ∷ cs) h = ground (arith, reserve_rows-other n order cs)

-- An order whose saga has ended has no child that could still be cancelled.
abbrev pub agrees : ℕ → Database → Bool
agrees n db = elim (find_saga n db.sagas) [
  | none ↦ true
  | some saga ↦
      if is_ended saga.status then all (λ c. not (is_cancelled_with n c)) db.seller_orders else true
]

find_saga-other :
    (n order : ℕ) (s : SagaStatus) (rs : List SagaRow)
    → n ≢ order
    → find_saga n (set_status order s rs) ≡ find_saga n rs
find_saga-other n order s [] h = refl
find_saga-other n order s (r ∷ rs) h = ground (arith, find_saga-other n order s rs)

pub when-Closed : (n : ℕ) (db : Database) → Closed n db.seller_orders → agrees n db ≡ true
when-Closed n db h = ground arith

pub when_still_live :
    (n : ℕ) (db : Database) (saga : SagaRow)
    → find_saga n db.sagas ≡ some saga
    → is_ended saga.status ≡ false
    → agrees n db ≡ true
when_still_live n db saga f e = ground arith

pub when_missing : (n : ℕ) (db : Database) → find_saga n db.sagas ≡ none → agrees n db ≡ true
when_missing n db f = ground arith

pub is_Closed :
    (n : ℕ) (db : Database) (saga : SagaRow)
    → agrees n db ≡ true
    → find_saga n db.sagas ≡ some saga
    → is_ended saga.status ≡ true
    → Closed n db.seller_orders
is_Closed n db saga a f e = ground arith

emit-children :
    (c : Option Command) (saga : SagaRow) (db : Database)
    → (emit c saga db).seller_orders ≡ db.seller_orders
emit-children none saga db = refl
emit-children (some c) saga db = refl

Closed-cancel :
    (n order : ℕ) (s : SagaStatus) (db : Database)
    → Closed n db.seller_orders
    → Closed n (cancel_children_of_ended_saga order s db).seller_orders
unfolding cancel_children_of_ended_saga
Closed-cancel n order s db h = elim (Bool-cases (is_ended s)) [
  | inl e ↦ rw (cancel_children_of_ended_saga, e) (cancel_rows-other n order s db.seller_orders h)
  | inr e ↦ rw (cancel_children_of_ended_saga, e) h
]

ended-Closed :
    (order : ℕ) (s : SagaStatus) (db : Database)
    → is_ended s ≡ true
    → Closed order (cancel_children_of_ended_saga order s db).seller_orders
unfolding cancel_children_of_ended_saga
ended-Closed order s db e =
    rw (cancel_children_of_ended_saga, e) (cancel_rows-Closed order s db.seller_orders)

Closed-reserve :
    (n order : ℕ) (e : EventType) (db : Database)
    → Closed n db.seller_orders
    → Closed n (reserve_children order e db).seller_orders
unfolding reserve_children
Closed-reserve n order e db h = elim (Bool-cases (is_reserved_event e)) [
  | inl r ↦ rw (reserve_children, r) (reserve_rows-other n order db.seller_orders h)
  | inr r ↦ rw (reserve_children, r) h
]

-- The children after an APPLY.
Closed-apply :
    (n key : ℕ) (e : EventType) (s : SagaStatus) (c : Option Command) (saga : SagaRow)
    (db : Database)
    → Closed n
        (cancel_children_of_ended_saga saga.id s
          (record db { sagas = set_status saga.id s db.sagas })).seller_orders
    → Closed n (apply_decision key e s c saga db).seller_orders
unfolding apply_decision
Closed-apply n key e s c saga db h =
    let closed =
      cancel_children_of_ended_saga saga.id s
        (record db { sagas = set_status saga.id s db.sagas }) in
    subst (Closed n)
      (sym (emit-children c (record saga { status = s }) (reserve_children saga.id e closed)))
      (Closed-reserve n saga.id e closed h)

apply-own :
    (key : ℕ) (e : EventType) (s : SagaStatus) (c : Option Command) (saga : SagaRow) (db : Database)
    → find_saga saga.id db.sagas ≡ some saga
    → agrees saga.id (apply_decision key e s c saga db) ≡ true
apply-own key e s c saga db f =
    let db' = apply_decision key e s c saga db in
    elim (Bool-cases (is_ended s)) [
      | inl i ↦ when-Closed saga.id db' (
          Closed-apply saga.id key e s c saga db
            (ended-Closed saga.id s (record db { sagas = set_status saga.id s db.sagas }) i))
      | inr i ↦
          when_still_live saga.id db' (record saga { status = s })
            (ap (find_saga saga.id) ((applied key e s c saga db).0)
              ∙ find_saga-set_status saga.id s saga db.sagas f)
            i
    ]

apply-other :
    (n key : ℕ) (e : EventType) (s : SagaStatus) (c : Option Command) (saga : SagaRow)
    (db : Database)
    → n ≢ saga.id
    → agrees n db ≡ true
    → agrees n (apply_decision key e s c saga db) ≡ true
apply-other n key e s c saga db d a =
    let db' = apply_decision key e s c saga db in
    let same =
      ap (find_saga n) ((applied key e s c saga db).0) ∙ find_saga-other n saga.id s db.sagas d in
    elim (Option-cases (find_saga n db.sagas)) [
      | inl f ↦ when_missing n db' (same ∙ f)
      | inr (t, f) ↦ elim (Bool-cases (is_ended t.status)) [
        | inl i ↦ when-Closed n db' (
            Closed-apply n key e s c saga db (
              Closed-cancel n saga.id s (record db { sagas = set_status saga.id s db.sagas })
                (is_Closed n db t a f i)))
        | inr i ↦ when_still_live n db' t (same ∙ f) i
      ]
    ]

compensated :
    (n key : ℕ) (c : Option Command) (saga : SagaRow) (db : Database)
    → agrees n (compensate_decision key c saga db) ≡ agrees n db
unfolding compensate_decision
compensated n key none saga db = refl
compensated n key (some c) saga db = refl

carried :
    (commits : Bool) (n key : ℕ) (e : EventType) (saga : SagaRow) (db : Database) (o : Saga.Outcome)
    (t : Option SagaStatus) (c : Option Command)
    → find_saga saga.id db.sagas ≡ some saga
    → agrees n db ≡ true
    → agrees n
        (carry_out commits key e (record { outcome = o; new_status = t; command = c }) saga db).1
      ≡ true
unfolding carry_out
carried false n key e saga db o t c f a = ground arith
carried true n key e saga db Saga.unknown_event t c f a = a
carried true n key e saga db Saga.late_duplicate t c f a = a
carried true n key e saga db Saga.out_of_order t c f a = a
carried true n key e saga db Saga.compensate t c f a = compensated n key c saga db ∙ a
carried true n key e saga db Saga.apply none c f a = a
carried true n key e saga db Saga.apply (some s) c f a = elim (ℕ_discrete n saga.id) [
  | yes p ↦
      subst (λ x. agrees x (apply_decision key e s c saga db) ≡ true) (sym p)
        (apply-own key e s c saga db f)
  | no d ↦ apply-other n key e s c saga db d a
]

-- For every order n: suppose that, if the saga of n has FAILED, TIMED_OUT or been rolled back, then
-- none of its children could still be cancelled. advance_saga keeps it so, whichever order the event
-- is for, and whether the commit succeeds or not. In particular the move into such a status closes
-- the children.
pub advance_saga-agrees :
    (commits : Bool) (n order : ℕ) (e : EventType) (key : ℕ) (db : Database)
    → agrees n db ≡ true
    → agrees n (advance_saga commits order e key db).1 ≡ true
unfolding advance_saga
advance_saga-agrees commits n order e key db a = elim (Option-cases (find_key key db.keys)) [
  | inr (r, k) ↦ rw (advance_saga, k) a
  | inl k ↦ elim (Option-cases (find_saga order db.sagas)) [
    | inl f ↦ rw (advance_saga, k, f) a
    | inr (saga, f) ↦
        let d = resolve saga.status e saga.payment_method in
        rw (advance_saga, k, f)
          (carried commits n key e saga db d.outcome d.new_status d.command
            (ap (λ i. find_saga i db.sagas) (find_saga-id order saga db.sagas f) ∙ f) a)
  ]
]
