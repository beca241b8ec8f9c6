-- ===== src/Orchestrator/Start/Family.antt =====
-- start_saga of services/order-saga/app/services/saga_orchestrator.py: the new saga and its children
-- beside the sagas and children that are there.
use ecommerce_platform.Base.{
  Option-cases, ==_iff, suc, Bool, true, false, some, ℕ, List, [], ◌∷◌, ◌++◌, ◌≡◌, refl, ap, ◌∙◌,
  arith, ◌==◌, Bool-cases, inl, inr,
}
use mathlib.Core.Path.{subst}
use ecommerce_platform.Base.Http.{Response, http_error}
use ecommerce_platform.Saga.Stock.{is_ended}
use ecommerce_platform.SellerOrder.Split.{
  SellerOrderPlan, Splitting, split, split_error, value_error, split_by_seller,
}
use ecommerce_platform.Orchestrator.{
  SagaRow, SellerOrderRow, Database, find_saga, find_key, committed,
}
use ecommerce_platform.Orchestrator.Children.{
  agrees, Closed, is_Closed, when-Closed, when_still_live, when_missing,
}
use ecommerce_platform.Orchestrator.Start.{
  CreateOrderRequest, new_saga, new_seller_order, add_plan, add_plans, written, start_saga,
}
use ecommerce_platform.Orchestrator.Start.Placed.{add_plans-sagas, written-find_saga}

Closed-append :
    (n : ℕ) (cs ds : List SellerOrderRow) → Closed n cs → Closed n ds → Closed n (cs ++ ds)
Closed-append n [] ds h k = k
Closed-append n (c ∷ cs) ds h k = ground (arith, Closed-append n cs ds)

Closed-add_plans :
    (n user order : ℕ) (new_id : ℕ → ℕ) (i : ℕ) (ps : List SellerOrderPlan) (db : Database)
    → (order == n) ≡ false
    → Closed n db.seller_orders
    → Closed n (add_plans user order new_id i ps db).seller_orders
unfolding add_plans add_plan
Closed-add_plans n user order new_id i [] db e h = h
Closed-add_plans n user order new_id i (p ∷ ps) db e h =
    Closed-add_plans n user order new_id (suc i) ps (add_plan user order (new_id i) p db) e
      (Closed-append n db.seller_orders (new_seller_order order (new_id i) p ∷ []) h (rw e refl))

written-sagas :
    (order : ℕ) (new_id : ℕ → ℕ) (key : ℕ) (request : CreateOrderRequest)
    (ps : List SellerOrderPlan) (db : Database)
    → (written order new_id key request ps db).sagas ≡ new_saga order request ∷ db.sagas
unfolding written
written-sagas order new_id key request ps db =
    add_plans-sagas request.user_id order new_id 0 ps
      (record db { sagas = new_saga order request ∷ db.sagas })

written-other :
    (n order : ℕ) (new_id : ℕ → ℕ) (key : ℕ) (request : CreateOrderRequest)
    (ps : List SellerOrderPlan) (db : Database)
    → (order == n) ≡ false
    → find_saga n (written order new_id key request ps db).sagas ≡ find_saga n db.sagas
written-other n order new_id key request ps db e =
    ap (find_saga n) (written-sagas order new_id key request ps db) ∙ rw e refl

other_agrees :
    (n order : ℕ) (new_id : ℕ → ℕ) (key : ℕ) (request : CreateOrderRequest)
    (ps : List SellerOrderPlan) (db : Database)
    → agrees n db ≡ true
    → (order == n) ≡ false
    → agrees n (written order new_id key request ps db) ≡ true
unfolding written
other_agrees n order new_id key request ps db h e =
    let w = written order new_id key request ps db in
    let same = written-other n order new_id key request ps db e in
    elim (Option-cases (find_saga n db.sagas)) [
      | inl f ↦ when_missing n w (same ∙ f)
      | inr (saga, f) ↦ elim (Bool-cases (is_ended saga.status)) [
        | inr live ↦ when_still_live n w saga (same ∙ f) live
        | inl ended ↦ when-Closed n w (
            Closed-add_plans n request.user_id order new_id 0 ps
              (record db { sagas = new_saga order request ∷ db.sagas }) e
              (is_Closed n db saga h f ended))
      ]
    ]

started_agrees :
    (n : ℕ) (commits : Bool) (order : ℕ) (new_id : ℕ → ℕ) (key : ℕ) (request : CreateOrderRequest)
    (ps : List SellerOrderPlan) (db : Database)
    → agrees n db ≡ true
    → agrees n
        (committed commits (new_saga order request) (written order new_id key request ps db) db).1
      ≡ true
unfolding written
started_agrees n false order new_id key request ps db h = h
started_agrees n true order new_id key request ps db h = elim (Bool-cases (order == n)) [
  | inl e ↦
      when_still_live n (written order new_id key request ps db) (new_saga order request)
        (subst
          (λ m.
            find_saga m (written order new_id key request ps db).sagas
            ≡ some (new_saga order request))
          ((==_iff order n).0 e) (written-find_saga order new_id key request ps db))
        refl
  | inr e ↦ other_agrees n order new_id key request ps db h e
]

-- start_saga keeps, for every order, that an order whose saga has ended has no child that could still
-- be cancelled.
pub start_saga-agrees :
    (n : ℕ) (commits : Bool) (order : ℕ) (new_id : ℕ → ℕ) (request : CreateOrderRequest) (key : ℕ)
    (db : Database)
    → agrees n db ≡ true
    → agrees n (start_saga commits order new_id request key db).1 ≡ true
unfolding start_saga
start_saga-agrees n commits order new_id request key db h =
    elim (Option-cases (find_key key db.keys)) [
      | inr (result, e) ↦ rw (start_saga, e) h
      | inl e ↦ rw (start_saga, e) (go (split_by_seller request.items_payload))
    ]
  where
    go :
        (s : Splitting (List SellerOrderPlan))
        → agrees n
            (elim s as (λ s. Response SagaRow × Database) [
              | split_error ↦ (http_error 422, db)
              | value_error ↦ (http_error 500, db)
              | split plans ↦
                  committed commits
                    (new_saga order request)
                    (written order new_id key request plans db)
                    db
            ]).1
          ≡ true
    go (split ps) = started_agrees n commits order new_id key request ps db h
    go split_error = h
    go value_error = h
