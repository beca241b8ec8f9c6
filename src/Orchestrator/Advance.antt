-- ===== src/Orchestrator/Advance.antt =====
-- advance_saga of services/order-saga/app/services/saga_orchestrator.py, against the steps of
-- Saga.Run.
use ecommerce_platform.Base.{
  Bool, keep_if, ◌≢◌, true, arith, ◌∙◌, Option, ◌∷◌, ℕ, none, refl, some, ap, ◌≢◌, sym, ◌++◌, [],
  ◌≡◌, inl, Bool-cases, inr, List,
}
use mathlib.Core.List.{append-nil}
use ecommerce_platform.Base.Http.{Response, ok, http_error}
use ecommerce_platform.Saga
use ecommerce_platform.Saga.{SagaStatus, EventType, Command, PaymentMethod, resolve}
use ecommerce_platform.Saga.Run.{Input, step, commit_decision, to_list}
use ecommerce_platform.Saga.Run
use ecommerce_platform.Saga.Stock.{is_ended}
use ecommerce_platform.Orchestrator.{
  is_cancelled_with, sorted, command_payload, SagaRow, SellerOrderRow, OrderLine, OutboxMessage,
  saga_command, seller_order_event, book_escrow_delivery, release_seller_order,
  consume_seller_order, seller_order_created, reserve_inventory, Database, find_saga, find_key,
  set_status, cancel_messages, cancel_children_of_ended_saga, reserve_children, is_reserved_event,
  emit, apply_decision, compensate_decision, carry_out, advance_saga,
}

-- The sagas' commands on the outbox, in order.
abbrev pub commands_of : List OutboxMessage → List Command
commands_of [] = []
commands_of (saga_command c p ∷ ms) = c ∷ commands_of ms
commands_of (seller_order_event e row ps ∷ ms) = commands_of ms
commands_of (book_escrow_delivery row ∷ ms) = commands_of ms
commands_of (release_seller_order o s ps ∷ ms) = commands_of ms
commands_of (consume_seller_order o s ps ∷ ms) = commands_of ms
commands_of (seller_order_created u row plan ∷ ms) = commands_of ms
commands_of (reserve_inventory o u items ∷ ms) = commands_of ms

commands_of-append :
    (ms ns : List OutboxMessage) → commands_of (ms ++ ns) ≡ commands_of ms ++ commands_of ns
commands_of-append [] ns = refl
commands_of-append (saga_command c p ∷ ms) ns = ap (λ t. c ∷ t) (commands_of-append ms ns)
commands_of-append (seller_order_event e row ps ∷ ms) ns = commands_of-append ms ns
commands_of-append (book_escrow_delivery row ∷ ms) ns = commands_of-append ms ns
commands_of-append (release_seller_order o s ps ∷ ms) ns = commands_of-append ms ns
commands_of-append (consume_seller_order o s ps ∷ ms) ns = commands_of-append ms ns
commands_of-append (seller_order_created u row plan ∷ ms) ns = commands_of-append ms ns
commands_of-append (reserve_inventory o u items ∷ ms) ns = commands_of-append ms ns

no_commands :
    (s : SagaStatus) (lines : List OrderLine) (cs : List SellerOrderRow)
    → commands_of (cancel_messages s lines cs) ≡ []
no_commands s lines [] = refl
no_commands s lines (c ∷ cs) = no_commands s lines cs

pub find_saga-set_status :
    (n : ℕ) (s : SagaStatus) (r : SagaRow) (rs : List SagaRow)
    → find_saga n rs ≡ some r
    → find_saga n (set_status n s rs) ≡ some (record r { status = s })
find_saga-set_status n s r [] f = cc
find_saga-set_status n s r (x ∷ xs) f = ground (arith, find_saga-set_status n s r xs)

pub find_saga-id : (n : ℕ) (r : SagaRow) (rs : List SagaRow) → find_saga n rs ≡ some r → r.id ≡ n
find_saga-id n r [] f = cc
find_saga-id n r (x ∷ xs) f = ground (arith, find_saga-id n r xs)

commands-cancel :
    (order : ℕ) (s : SagaStatus) (db : Database)
    → commands_of (cancel_children_of_ended_saga order s db).outbox ≡ commands_of db.outbox
unfolding cancel_children_of_ended_saga
commands-cancel order s db = elim (Bool-cases (is_ended s)) [
  | inl e ↦
      let chosen =
        sorted (λ (c : SellerOrderRow). c.seller_id)
          (keep_if (is_cancelled_with order) db.seller_orders) in
      rw (cancel_children_of_ended_saga, e)
        (commands_of-append db.outbox (cancel_messages s db.lines chosen)
          ∙ ap (λ t. commands_of db.outbox ++ t) (no_commands s db.lines chosen)
          ∙ append-nil (commands_of db.outbox))
  | inr e ↦ rw (cancel_children_of_ended_saga, e)
]

sagas-cancel :
    (order : ℕ) (s : SagaStatus) (db : Database)
    → (cancel_children_of_ended_saga order s db).sagas ≡ db.sagas
unfolding cancel_children_of_ended_saga
sagas-cancel order s db = elim (Bool-cases (is_ended s)) [
  | inl e ↦ rw (cancel_children_of_ended_saga, e)
  | inr e ↦ rw (cancel_children_of_ended_saga, e)
]

reserve-same :
    (order : ℕ) (e : EventType) (db : Database)
    → ((reserve_children order e db).outbox ≡ db.outbox)
      × ((reserve_children order e db).sagas ≡ db.sagas)
unfolding reserve_children
reserve-same order e db = elim (Bool-cases (is_reserved_event e)) [
  | inl r ↦ rw (reserve_children, r) (refl, refl)
  | inr r ↦ rw (reserve_children, r) (refl, refl)
]

pub commands-emit :
    (c : Option Command) (saga : SagaRow) (db : Database)
    → (commands_of (emit c saga db).outbox ≡ commands_of db.outbox ++ to_list c)
      × ((emit c saga db).sagas ≡ db.sagas)
commands-emit none saga db = (sym (append-nil (commands_of db.outbox)), refl)
commands-emit (some c) saga db =
    (commands_of-append db.outbox (saga_command c (command_payload c saga) ∷ []), refl)

-- The writes of an APPLY: the saga's new status, and its command.
pub applied :
    (key : ℕ) (e : EventType) (s : SagaStatus) (c : Option Command) (saga : SagaRow) (db : Database)
    → ((apply_decision key e s c saga db).sagas ≡ set_status saga.id s db.sagas)
      × (commands_of (apply_decision key e s c saga db).outbox ≡ commands_of db.outbox ++ to_list c)
unfolding apply_decision
applied key e s c saga db =
    let saga' = record saga { status = s } in
    let moved = record db { sagas = set_status saga.id s db.sagas } in
    let closed = cancel_children_of_ended_saga saga.id s moved in
    let ready = reserve_children saga.id e closed in
    let (outbox_same, sagas_same) = reserve-same saga.id e closed in
    let (out, same) = commands-emit c saga' ready in
    (
      same ∙ sagas_same ∙ sagas-cancel saga.id s moved,
      out
          ∙ ap (λ t. commands_of t ++ to_list c) outbox_same
          ∙ ap (λ t. t ++ to_list c) (commands-cancel saga.id s moved),
    )

pub apply_has_status :
    (s : SagaStatus) (e : EventType) (m : PaymentMethod)
    → (resolve s e m).outcome ≡ Saga.apply
    → (resolve s e m).new_status ≢ none
unfolding resolve
apply_has_status s e m h n = ground arith

-- What a status and commands make of the row and of the outbox.
abbrev pub Shows :
    SagaRow → SagaStatus × List Command → Database → Response SagaRow × Database → Type 0
Shows saga out db (http_error code, db') = (db' ≡ db) × (out ≡ (saga.status, []))
Shows saga out db (ok row, db') =
    (row ≡ record saga { status = out.0 })
    × (find_saga saga.id db'.sagas ≡ some row)
    × (commands_of db'.outbox ≡ commands_of db.outbox ++ out.1)

same_row : (saga : SagaRow) → saga ≡ record saga { status = saga.status }
same_row saga = refl

decided :
    (key : ℕ) (e : EventType) (saga : SagaRow) (db : Database) (o : Saga.Outcome)
    (n : Option SagaStatus) (c : Option Command)
    → (o ≡ Saga.apply → n ≢ none)
    → find_saga saga.id db.sagas ≡ some saga
    → Shows saga
        (commit_decision (record { outcome = o; new_status = n; command = c }) saga.status)
        db
        (carry_out true key e (record { outcome = o; new_status = n; command = c }) saga db)
unfolding carry_out commit_decision compensate_decision apply_decision
decided key e saga db Saga.unknown_event n c h f = (refl, refl)
decided key e saga db Saga.late_duplicate n c h f =
    (refl, f, sym (append-nil (commands_of db.outbox)))
decided key e saga db Saga.out_of_order n c h f = (refl, refl)
decided key e saga db Saga.compensate n c h f =
    let (out, same) = commands-emit c saga db in (refl, ap (find_saga saga.id) same ∙ f, out)
decided key e saga db Saga.apply none c h f = absurd (h refl refl)
decided key e saga db Saga.apply (some s) c h f =
    let (same, out) = applied key e s c saga db in
    (refl, ap (find_saga saga.id) same ∙ find_saga-set_status saga.id s saga db.sagas f, out)

-- For a key that was not used before and an order whose saga exists, advance_saga with a commit
-- that succeeds carries out the saga's step for that event. Answered with the row: the row is the
-- saga with the step's status, it is the one now stored under its identifier, and the saga
-- commands on the outbox are those from before followed by the step's. Answered with an error:
-- the database is as it was, and the step is to stay and to emit nothing.
pub advance_saga-Shows :
    (order : ℕ) (e : EventType) (key : ℕ) (saga : SagaRow) (db : Database)
    → find_key key db.keys ≡ none
    → find_saga order db.sagas ≡ some saga
    → Shows saga
        (step saga.payment_method saga.status (Run.deliver e))
        db
        (advance_saga true order e key db)
unfolding advance_saga step
advance_saga-Shows order e key saga db k f =
    let d = resolve saga.status e saga.payment_method in
    rw (advance_saga, k, f)
      (decided key e saga db d.outcome d.new_status d.command
        (apply_has_status saga.status e saga.payment_method)
        (ap (λ n. find_saga n db.sagas) (find_saga-id order saga db.sagas f) ∙ f))

-- When advance_saga answers with an error, whichever it is, the database is as it was, whether or not
-- the commit would have succeeded.
pub advance_saga-atomic :
    (commits : Bool) (order : ℕ) (e : EventType) (key : ℕ) (db : Database) (code : ℕ)
    → (advance_saga commits order e key db).0 ≡ http_error code
    → (advance_saga commits order e key db).1 ≡ db
unfolding advance_saga carry_out
advance_saga-atomic commits order e key db code h = ground arith
