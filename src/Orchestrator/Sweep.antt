-- ===== src/Orchestrator/Sweep.antt =====
-- The reaper's second query, over the tables of order-saga: services/order-saga/app/main.py,
-- saga_reaper_loop. A seller order left live under a saga that has ended is cancelled, unless
-- another transaction holds its row; which rows are held is an argument. The rows are taken in
-- the order of the table.
use ecommerce_platform.Base.{
  ◌==◌, ==_iff, ◌∙◌, Bool, true, false, ℕ, List, [], ◌∷◌, ◌++◌, ◌≡◌, arith, refl, not, none, some,
  inl, inr, if◌then◌else◌, Option, ◌&&◌, ap, Bool-cases, Option-cases,
}
use mathlib.Core.List.{append-nil}
use ecommerce_platform.Saga.{SagaStatus}
use ecommerce_platform.Saga.Stock.{is_ended}
use ecommerce_platform.SellerOrder.{
  SellerOrderStatus, seller_order_cancelled, may_cancel, pending, inventory_reserved, confirmed,
}
use ecommerce_platform.Orchestrator.{
  SagaRow, SellerOrderRow, OrderLine, OutboxMessage, seller_order_event, Database, find_saga,
  products_of, cancel_child, is_cancelled_with,
}
use ecommerce_platform.Orchestrator.Children.{
  Closed, agrees, when-Closed, when_still_live, when_missing,
}

-- so.status IN ('PENDING', 'INVENTORY_RESERVED', 'CONFIRMED')
abbrev pub is_live : SellerOrderStatus → Bool
is_live pending = true
is_live inventory_reserved = true
is_live confirmed = true
is_live _ = false

-- The status of the ended saga that a child is stranded under.
abbrev pub ended_under : Option SagaRow → Option SagaStatus
ended_under none = none
ended_under (some saga) = if is_ended saga.status then some saga.status else none

abbrev pub stranded : (ℕ → Bool) → List SagaRow → SellerOrderRow → Option SagaStatus
stranded held sagas c =
    if is_live c.status && not (held c.id) then ended_under (find_saga c.order_id sagas) else none

abbrev pub close_row : Option SagaStatus → SellerOrderRow → SellerOrderRow
close_row none c = c
close_row (some s) c = cancel_child s c

abbrev pub close_message : Option SagaStatus → List OrderLine → SellerOrderRow → List OutboxMessage
close_message none lines c = []
close_message (some s) lines c =
    seller_order_event seller_order_cancelled (cancel_child s c) (products_of c.id lines) ∷ []

abbrev pub close_rows : (ℕ → Bool) → List SagaRow → List SellerOrderRow → List SellerOrderRow
close_rows held sagas [] = []
close_rows held sagas (c ∷ cs) = close_row (stranded held sagas c) c ∷ close_rows held sagas cs

abbrev pub close_messages :
    (ℕ → Bool) → List SagaRow → List OrderLine → List SellerOrderRow → List OutboxMessage
close_messages held sagas lines [] = []
close_messages held sagas lines (c ∷ cs) =
    close_message (stranded held sagas c) lines c ++ close_messages held sagas lines cs

unfoldable pub close_stranded : (ℕ → Bool) → Database → Database
close_stranded held db = record db {
  seller_orders = close_rows held db.sagas db.seller_orders;
  outbox = db.outbox ++ close_messages held db.sagas db.lines db.seller_orders;
}

abbrev pub free : ℕ → Bool
free n = false

not_live : (s : SellerOrderStatus) → is_live s ≡ false → may_cancel s ≡ false
unfolding may_cancel
not_live s h = ground arith

elsewhere :
    (n : ℕ) (o : Option SagaStatus) (c : SellerOrderRow)
    → (c.order_id == n) ≡ false
    → is_cancelled_with n (close_row o c) ≡ false
elsewhere n none c h = rw h
elsewhere n (some s) c h = rw h

close_row-Closed :
    (n : ℕ) (sagas : List SagaRow) (saga : SagaRow) (c : SellerOrderRow)
    → find_saga n sagas ≡ some saga
    → is_ended saga.status ≡ true
    → is_cancelled_with n (close_row (stranded free sagas c) c) ≡ false
unfolding may_cancel
close_row-Closed n sagas saga c f e = elim (Bool-cases (c.order_id == n)) [
  | inr d ↦ elsewhere n (stranded free sagas c) c d
  | inl s ↦
      let under : find_saga c.order_id sagas ≡ some saga =
        ap (λ i. find_saga i sagas) ((==_iff c.order_id n).0 s) ∙ f in
      elim (Bool-cases (is_live c.status)) [
        | inl l ↦ rw (l, under, e, s) refl
        | inr l ↦ rw (l, s, not_live c.status l) refl
      ]
]

close_rows-Closed :
    (n : ℕ) (sagas : List SagaRow) (saga : SagaRow) (cs : List SellerOrderRow)
    → find_saga n sagas ≡ some saga
    → is_ended saga.status ≡ true
    → Closed n (close_rows free sagas cs)
close_rows-Closed n sagas saga [] f e = refl
close_rows-Closed n sagas saga (c ∷ cs) f e =
    rw (close_row-Closed n sagas saga c f e) (close_rows-Closed n sagas saga cs f e)

-- After the sweep, when no row is held by another transaction, no order whose saga has ended has
-- a child that could still be cancelled, whatever the tables were.
pub close_stranded-agrees : (n : ℕ) (db : Database) → agrees n (close_stranded free db) ≡ true
unfolding close_stranded
close_stranded-agrees n db =
    let db' = close_stranded free db in
    elim (Option-cases (find_saga n db.sagas)) [
      | inl f ↦ when_missing n db' f
      | inr (saga, f) ↦ elim (Bool-cases (is_ended saga.status)) [
        | inl e ↦ when-Closed n db' (close_rows-Closed n db.sagas saga db.seller_orders f e)
        | inr e ↦ when_still_live n db' saga f e
      ]
    ]

stranded_once :
    (held : ℕ → Bool) (sagas : List SagaRow) (c : SellerOrderRow)
    → stranded held sagas (close_row (stranded held sagas c) c) ≡ none
stranded_once held sagas c = elim (Option-cases (stranded held sagas c)) [
  | inl e ↦ rw (e, e)
  | inr (s, e) ↦ rw e refl
]

close_rows_again :
    (held : ℕ → Bool) (sagas : List SagaRow) (cs : List SellerOrderRow)
    → close_rows held sagas (close_rows held sagas cs) ≡ close_rows held sagas cs
close_rows_again held sagas [] = refl
close_rows_again held sagas (c ∷ cs) =
    rw (stranded_once held sagas c, close_rows_again held sagas cs)

no_messages :
    (held : ℕ → Bool) (sagas : List SagaRow) (lines : List OrderLine) (cs : List SellerOrderRow)
    → close_messages held sagas lines (close_rows held sagas cs) ≡ []
no_messages held sagas lines [] = refl
no_messages held sagas lines (c ∷ cs) =
    rw (stranded_once held sagas c) (no_messages held sagas lines cs)

-- Sweeping again changes nothing and announces nothing, whichever rows are held both times.
pub close_stranded_again :
    (held : ℕ → Bool) (db : Database)
    → close_stranded held (close_stranded held db) ≡ close_stranded held db
unfolding close_stranded
close_stranded_again held db = rw (
  close_rows_again held db.sagas db.seller_orders,
  no_messages held db.sagas db.lines db.seller_orders,
  append-nil (db.outbox ++ close_messages held db.sagas db.lines db.seller_orders),
)
