-- ===== src/Orchestrator/Start/Placed.antt =====
-- start_saga of services/order-saga/app/services/saga_orchestrator.py: what it stores of the cart, and
-- what a second request with its key is answered.
use ecommerce_platform.Base.{
  ==_refl, suc, Bool, true, false, Option, some, none, ℕ, List, [], ◌∷◌, ◌++◌, map, ◌≡◌, refl, sym,
  ap, ◌∙◌, All, arith, Option-cases, inl, inr,
}
use mathlib.Core.Path.{subst}
use ecommerce_platform.Base.Int.{zero-+ℤ, ℤ, ◌+ℤ◌, sum, +ℤ_assoc, +ℤ-zero}
use ecommerce_platform.Base.Http.{Response, ok, http_error}
use ecommerce_platform.SellerOrder.Split.{
  PlannedLine, SellerOrderPlan, Splitting, split, split_error, value_error, normalise_items,
  split_by_seller,
}
use ecommerce_platform.SellerOrder.Split.Groups.{Measure, plans_total, lines_total, Accepted}
use ecommerce_platform.SellerOrder.Split.Conserved.{SplitsAll, split_by_seller-SplitsAll}
use ecommerce_platform.Orchestrator.{
  SagaRow, OrderLine, Database, find_saga, find_key, replay, committed,
}
use ecommerce_platform.Orchestrator.Start.{
  CreateOrderRequest, new_saga, new_line, add_plan, add_plans, written, start_saga,
}

-- What a stored line says of the cart.
abbrev bought : OrderLine → PlannedLine
bought l = record {
  product_id = l.product_id;
  quantity = l.quantity;
  price_cents = l.price_cents;
  line_total_cents = l.line_total_cents;
}

module _ (f : Measure) where
  abbrev measured : OrderLine → ℤ
  measured l = f l.seller_id (bought l)

  -- The measure of the stored lines.
  unfoldable pub stored_total : List OrderLine → ℤ
  unfolding sum
  stored_total ls = sum (map measured ls)

  stored_total-append :
      (ls ms : List OrderLine) → stored_total (ls ++ ms) ≡ stored_total ls +ℤ stored_total ms
  unfolding stored_total sum
  stored_total-append [] ms = sym (zero-+ℤ (stored_total ms))
  stored_total-append (l ∷ ls) ms =
      ap (λ t. measured l +ℤ t) (stored_total-append ls ms)
      ∙ sym (+ℤ_assoc (measured l) (stored_total ls) (stored_total ms))

  stored_total-map :
      (order id s : ℕ) (ls : List PlannedLine)
      → stored_total (map (new_line order id s) ls) ≡ sum (map (f s) ls)
  unfolding stored_total sum
  stored_total-map order id s [] = refl
  stored_total-map order id s (l ∷ ls) = ap (λ t. f s l +ℤ t) (stored_total-map order id s ls)

  stored_total-add_plans :
      (user order : ℕ) (new_id : ℕ → ℕ) (n : ℕ) (ps : List SellerOrderPlan) (db : Database)
      → stored_total (add_plans user order new_id n ps db).lines
        ≡ stored_total db.lines +ℤ plans_total f ps
  unfolding add_plans add_plan plans_total sum
  stored_total-add_plans user order new_id n [] db = sym (+ℤ-zero (stored_total db.lines))
  stored_total-add_plans user order new_id n (p ∷ ps) db =
      stored_total-add_plans user order new_id (suc n) ps (add_plan user order (new_id n) p db)
      ∙ ap (λ t. t +ℤ plans_total f ps)
          (stored_total-append db.lines (map (new_line order (new_id n) p.seller_id) p.lines)
            ∙ ap (λ t. stored_total db.lines +ℤ t)
                (stored_total-map order (new_id n) p.seller_id p.lines))
      ∙ +ℤ_assoc (stored_total db.lines) (sum (map (f p.seller_id) p.lines)) (plans_total f ps)

pub add_plans-sagas :
    (user order : ℕ) (new_id : ℕ → ℕ) (n : ℕ) (ps : List SellerOrderPlan) (db : Database)
    → (add_plans user order new_id n ps db).sagas ≡ db.sagas
unfolding add_plans add_plan
add_plans-sagas user order new_id n [] db = refl
add_plans-sagas user order new_id n (p ∷ ps) db =
    add_plans-sagas user order new_id (suc n) ps (add_plan user order (new_id n) p db)

find_first : (s : SagaRow) (ss : List SagaRow) → find_saga s.id (s ∷ ss) ≡ some s
find_first s ss = ground arith

pub written-find_saga :
    (order : ℕ) (new_id : ℕ → ℕ) (key : ℕ) (request : CreateOrderRequest)
    (ps : List SellerOrderPlan) (db : Database)
    → find_saga order (written order new_id key request ps db).sagas ≡ some (new_saga order request)
unfolding written
written-find_saga order new_id key request ps db =
    ap (find_saga order) (
      add_plans-sagas request.user_id order new_id 0 ps
        (record db { sagas = new_saga order request ∷ db.sagas }))
    ∙ find_first (new_saga order request) db.sagas

-- What an answer of start_saga has to be, for a key that was not used before.
abbrev pub Placed : ℕ → CreateOrderRequest → Database → Response SagaRow × Database → Type 0
Placed order request db (http_error code, db') = db' ≡ db
Placed order request db (ok row, db') =
    (row ≡ new_saga order request)
    × (find_saga order db'.sagas ≡ some row)
    × All Accepted (normalise_items request.items_payload)
    × ((f : Measure)
        → stored_total f db'.lines
          ≡ stored_total f db.lines +ℤ lines_total f (normalise_items request.items_payload))

placed :
    (commits : Bool) (order : ℕ) (new_id : ℕ → ℕ) (key : ℕ) (request : CreateOrderRequest)
    (ps : List SellerOrderPlan) (db : Database)
    → SplitsAll (normalise_items request.items_payload) (split ps)
    → Placed order request db
        (committed commits (new_saga order request) (written order new_id key request ps db) db)
unfolding written
placed false order new_id key request ps db c = refl
placed true order new_id key request ps db (accepted, totals, once, sellers, lines) = (
  refl,
  written-find_saga order new_id key request ps db,
  accepted,
  λ f.
      stored_total-add_plans f request.user_id order new_id 0 ps
        (record db { sagas = new_saga order request ∷ db.sagas })
      ∙ ap (λ t. stored_total f db.lines +ℤ t) (totals f),
)

-- For a key that was not used before, start_saga answers with an error and leaves the database as it
-- was; or it answers with the saga it stored under its identifier, and then every line of the cart
-- passed the checks and the lines stored are those from before and those of the cart, whatever of
-- them is measured, seller by seller.
pub start_saga-Placed :
    (commits : Bool) (order : ℕ) (new_id : ℕ → ℕ) (request : CreateOrderRequest) (key : ℕ)
    (db : Database)
    → find_key key db.keys ≡ none
    → Placed order request db (start_saga commits order new_id request key db)
unfolding start_saga
start_saga-Placed commits order new_id request key db h =
    rw (start_saga, h)
      (go (split_by_seller request.items_payload) (split_by_seller-SplitsAll request.items_payload))
  where
    go :
        (s : Splitting (List SellerOrderPlan))
        → SplitsAll (normalise_items request.items_payload) s
        → Placed order request db (elim s [
          | split_error ↦ (http_error 422, db)
          | value_error ↦ (http_error 500, db)
          | split plans ↦
              committed commits
                (new_saga order request)
                (written order new_id key request plans db)
                db
        ])
    go (split ps) c = placed commits order new_id key request ps db c
    go split_error c = refl
    go value_error c = refl

module _ (again : Bool) (other : ℕ) (other_id : ℕ → ℕ) (second : CreateOrderRequest) (key : ℕ) where
  used :
      (db : Database) (result : Option ℕ)
      → find_key key db.keys ≡ some result
      → start_saga again other other_id second key db ≡ (replay result db, db)
  unfolding start_saga
  used db result h = rw (start_saga, h) refl

  abbrev Repeats : SagaRow → Response SagaRow × Database → Type 0
  Repeats row x = x.0 ≡ ok row → start_saga again other other_id second key x.1 ≡ (ok row, x.1)

  second_request :
      (commits : Bool) (order : ℕ) (new_id : ℕ → ℕ) (request : CreateOrderRequest) (db : Database)
      (row : SagaRow) (s : Splitting (List SellerOrderPlan))
      → Repeats row (elim s [
        | split_error ↦ (http_error 422, db)
        | value_error ↦ (http_error 500, db)
        | split plans ↦
            committed commits
              (new_saga order request)
              (written order new_id key request plans db)
              db
      ])
  unfolding written replay
  second_request commits order new_id request db row split_error h = cc
  second_request commits order new_id request db row value_error h = cc
  second_request false order new_id request db row (split ps) h = cc
  second_request true order new_id request db row (split ps) h =
      let db' = written order new_id key request ps db in
      used db' (some order) (rw (==_refl key) refl)
      ∙ ap (λ r. (r, db')) (rw (replay, written-find_saga order new_id key request ps db) h)

-- Once start_saga has answered with a saga, any request with the same key, whatever it asks for, is
-- answered with that saga and leaves the database as it is.
pub start_saga_again :
    (commits again : Bool) (order other : ℕ) (new_id other_id : ℕ → ℕ)
    (request second : CreateOrderRequest) (key : ℕ) (db : Database) (row : SagaRow)
    → (start_saga commits order new_id request key db).0 ≡ ok row
    → start_saga again other other_id second key (start_saga commits order new_id request key db).1
      ≡ (ok row, (start_saga commits order new_id request key db).1)
unfolding start_saga
start_saga_again commits again order other new_id other_id request second key db row h =
    elim (Option-cases (find_key key db.keys)) [
      | inr (result, e) ↦
          subst (Repeats again other other_id second key row)
            (sym (used commits order new_id request key db result e))
            (λ k. used again other other_id second key db result e ∙ ap (λ r. (r, db)) k) h
      | inl e ↦
          subst (Repeats again other other_id second key row) (sym (rw (start_saga, e) refl))
            (second_request again other other_id second key commits order new_id request db row
              (split_by_seller request.items_payload))
            h
    ]
