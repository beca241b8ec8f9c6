-- ===== src/Orchestrator/Start/Billed.antt =====
-- start_saga of services/order-saga/app/services/saga_orchestrator.py: the seller orders' subtotals,
-- beside the lines stored for them.
use ecommerce_platform.Base.{
  Bool-cases, ==_iff, All-append, inl, inr, Option-cases, suc, ==_refl, Bool, true, false, ℕ, List,
  [], ◌∷◌, ◌++◌, map, ◌≡◌, refl, sym, ap, ◌∙◌, All, arith, ◌==◌, if◌then◌else◌, ◌≤◌,
}
use ecommerce_platform.Base.Int.{+ℤ_assoc, ℤ, pos, ◌+ℤ◌, sum, zero-+ℤ, +ℤ-zero}
use ecommerce_platform.Base.Http.{Response, http_error}
use ecommerce_platform.SellerOrder.Split.{
  PlannedLine, SellerOrderPlan, Splitting, split, split_error, value_error, normalise_items,
  split_by_seller,
}
use ecommerce_platform.SellerOrder.Split.Conserved.{InOrder, SplitsAll, split_by_seller-SplitsAll}
use ecommerce_platform.Orchestrator.{
  SagaRow, SellerOrderRow, OrderLine, Database, find_key, committed,
}
use ecommerce_platform.Orchestrator.Start.{
  CreateOrderRequest, new_saga, new_line, new_seller_order, add_plan, add_plans, written,
  start_saga,
}

-- What the stored lines of a seller order come to.
unfoldable pub billed : ℕ → List OrderLine → ℤ
billed id [] = pos 0
billed id (l ∷ ls) = (if l.seller_order_id == id then l.line_total_cents else pos 0) +ℤ billed id ls

abbrev RowBilled : List OrderLine → SellerOrderRow → Type 0
RowBilled ls row = row.subtotal_cents ≡ billed row.id ls

-- Every seller order's subtotal is what its stored lines come to.
abbrev pub Billed : Database → Type 0
Billed db = All (RowBilled db.lines) db.seller_orders

-- No seller order and no line has the identifier.
abbrev pub Unused : ℕ → Database → Type 0
Unused id db =
    All (λ (r : SellerOrderRow). (r.id == id) ≡ false) db.seller_orders
    × All (λ (l : OrderLine). (l.seller_order_id == id) ≡ false) db.lines

billed-append :
    (id : ℕ) (ls ms : List OrderLine) → billed id (ls ++ ms) ≡ billed id ls +ℤ billed id ms
unfolding billed
billed-append id [] ms = sym (zero-+ℤ (billed id ms))
billed-append id (l ∷ ls) ms =
    let own = if l.seller_order_id == id then l.line_total_cents else pos 0 in
    ap (λ t. own +ℤ t) (billed-append id ls ms) ∙ sym (+ℤ_assoc own (billed id ls) (billed id ms))

billed-unused :
    (id : ℕ) (ls : List OrderLine)
    → All (λ (l : OrderLine). (l.seller_order_id == id) ≡ false) ls
    → billed id ls ≡ pos 0
unfolding billed
billed-unused id [] h = refl
billed-unused id (l ∷ ls) (e, h) = rw (e, billed-unused id ls h) (zero-+ℤ (pos 0))

billed-own :
    (order id s : ℕ) (ls : List PlannedLine)
    → billed id (map (new_line order id s) ls)
      ≡ sum (map (λ (l : PlannedLine). l.line_total_cents) ls)
unfolding billed sum
billed-own order id s [] = refl
billed-own order id s (l ∷ ls) =
    rw (==_refl id) (ap (λ t. l.line_total_cents +ℤ t) (billed-own order id s ls))

billed-other :
    (order id s n : ℕ) (ls : List PlannedLine)
    → (id == n) ≡ false
    → billed n (map (new_line order id s) ls) ≡ pos 0
unfolding billed
billed-other order id s n [] e = refl
billed-other order id s n (l ∷ ls) e = rw (e, billed-other order id s n ls e) (zero-+ℤ (pos 0))

not_equal : (m n : ℕ) → (m == n) ≡ false → (n == m) ≡ false
not_equal m n e = ground arith

old_rows :
    (order id s : ℕ) (ls : List OrderLine) (ms : List PlannedLine) (rows : List SellerOrderRow)
    → All (λ (r : SellerOrderRow). (r.id == id) ≡ false) rows
    → All (RowBilled ls) rows
    → All (RowBilled (ls ++ map (new_line order id s) ms)) rows
old_rows order id s ls ms [] h b = tt
old_rows order id s ls ms (r ∷ rs) (e, h) (own, b) = (
  own
      ∙ sym (+ℤ-zero (billed r.id ls))
      ∙ sym (
          billed-append r.id ls (map (new_line order id s) ms)
          ∙ ap (λ t. billed r.id ls +ℤ t) (billed-other order id s r.id ms (not_equal r.id id e))),
  old_rows order id s ls ms rs h b,
)

add_plan-Billed :
    (user order id : ℕ) (plan : SellerOrderPlan) (db : Database)
    → InOrder plan
    → Unused id db
    → Billed db
    → Billed (add_plan user order id plan db)
unfolding add_plan
add_plan-Billed user order id plan db (lines, subtotal) (rows, stored) b =
    All-append (RowBilled (db.lines ++ map (new_line order id plan.seller_id) plan.lines))
      db.seller_orders (new_seller_order order id plan ∷ [])
      (old_rows order id plan.seller_id db.lines plan.lines db.seller_orders rows b)
      (
        subtotal
            ∙ sym (
                billed-append id db.lines (map (new_line order id plan.seller_id) plan.lines)
                ∙ rw
                    (
                      billed-unused id db.lines stored,
                      billed-own order id plan.seller_id plan.lines,
                    )
                    (zero-+ℤ (sum (map (λ (l : PlannedLine). l.line_total_cents) plan.lines)))),
        tt,
      )

Unused-add_plan :
    (user order id n : ℕ) (plan : SellerOrderPlan) (db : Database)
    → (id == n) ≡ false
    → Unused n db
    → Unused n (add_plan user order id plan db)
unfolding add_plan
Unused-add_plan user order id n plan db e (rows, stored) = (
  All-append (λ (r : SellerOrderRow). (r.id == n) ≡ false) db.seller_orders
      (new_seller_order order id plan ∷ []) rows (e, tt),
  All-append (λ (l : OrderLine). (l.seller_order_id == n) ≡ false) db.lines
      (map (new_line order id plan.seller_id) plan.lines) stored (new_lines plan.lines),
)
  where
    new_lines :
        (ls : List PlannedLine)
        → All
            (λ (l : OrderLine). (l.seller_order_id == n) ≡ false)
            (map (new_line order id plan.seller_id) ls)
    new_lines [] = tt
    new_lines (l ∷ ls) = (e, new_lines ls)

apart :
    (new_id : ℕ → ℕ)
    → ((i j : ℕ) → new_id i ≡ new_id j → i ≡ j)
    → (n i : ℕ) → suc n ≤ i
    → (new_id n == new_id i) ≡ false
apart new_id distinct n i later = elim (Bool-cases (new_id n == new_id i)) [
  | inr e ↦ e
  | inl e ↦
      let same = distinct n i ((==_iff (new_id n) (new_id i)).0 e) in
      absurd (omega (arith, same, later))
]

add_plans-Billed :
    (user order : ℕ) (new_id : ℕ → ℕ)
    → ((i j : ℕ) → new_id i ≡ new_id j → i ≡ j)
    → (n : ℕ) (ps : List SellerOrderPlan) (db : Database) → All InOrder ps
    → ((i : ℕ) → n ≤ i → Unused (new_id i) db)
    → Billed db
    → Billed (add_plans user order new_id n ps db)
unfolding add_plans
add_plans-Billed user order new_id distinct n [] db o u b = b
add_plans-Billed user order new_id distinct n (p ∷ ps) db (o, os) u b =
    add_plans-Billed user order new_id distinct (suc n) ps (add_plan user order (new_id n) p db) os
      (λ i later.
        Unused-add_plan user order (new_id n) (new_id i) p db (apart new_id distinct n i later)
          (u i (omega (arith, later))))
      (add_plan-Billed user order (new_id n) p db o (u n (omega arith)) b)

written-Billed :
    (commits : Bool) (order : ℕ) (new_id : ℕ → ℕ) (request : CreateOrderRequest) (key : ℕ)
    (ps : List SellerOrderPlan) (db : Database)
    → ((i j : ℕ) → new_id i ≡ new_id j → i ≡ j)
    → ((i : ℕ) → Unused (new_id i) db)
    → All InOrder ps
    → Billed db
    → Billed
        (committed commits (new_saga order request) (written order new_id key request ps db) db).1
unfolding written
written-Billed false order new_id request key ps db distinct u o b = b
written-Billed true order new_id request key ps db distinct u o b =
    add_plans-Billed request.user_id order new_id distinct 0 ps
      (record db { sagas = new_saga order request ∷ db.sagas }) o (λ i h. u i) b

-- start_saga keeps every seller order's subtotal equal to what its stored lines come to, when the
-- identifiers it is given for the seller orders are distinct and new to the database.
pub start_saga-Billed :
    (commits : Bool) (order : ℕ) (new_id : ℕ → ℕ) (request : CreateOrderRequest) (key : ℕ)
    (db : Database)
    → ((i j : ℕ) → new_id i ≡ new_id j → i ≡ j)
    → ((i : ℕ) → Unused (new_id i) db)
    → Billed db
    → Billed (start_saga commits order new_id request key db).1
unfolding start_saga
start_saga-Billed commits order new_id request key db distinct u b =
    elim (Option-cases (find_key key db.keys)) [
      | inr (result, e) ↦ rw (start_saga, e) b
      | inl e ↦
          rw (start_saga, e)
            (go (split_by_seller request.items_payload)
              (split_by_seller-SplitsAll request.items_payload))
    ]
  where
    go :
        (s : Splitting (List SellerOrderPlan))
        → SplitsAll (normalise_items request.items_payload) s
        → Billed
            (elim s as (λ s. Response SagaRow × Database) [
              | split_error ↦ (http_error 422, db)
              | value_error ↦ (http_error 500, db)
              | split plans ↦
                  committed commits
                    (new_saga order request)
                    (written order new_id key request plans db)
                    db
            ]).1
    go (split ps) (accepted, totals, once, sellers, lines) =
        written-Billed commits order new_id request key ps db distinct u lines b
    go split_error c = b
    go value_error c = b
