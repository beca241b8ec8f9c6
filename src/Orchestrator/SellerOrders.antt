-- ===== src/Orchestrator/SellerOrders.antt =====
-- transition_seller_order of services/order-saga/app/services/saga_orchestrator.py: one seller
-- order's move along its lifecycle, in one transaction. A request's courier name and tracking code
-- are given with it; timestamps are left out.
use ecommerce_platform.Base.{
  sym, ◌∙◌, true, inr, refl, inl, Option-cases, Option, Bool, ℕ, List, none, some, if◌then◌else◌,
  ◌&&◌, ◌==◌, [], ◌∷◌, ◌++◌, suc, ◌≡◌, arith,
}
use Prim.Native.String.{String}
use mathlib.Core.Path.{subst}
use ecommerce_platform.Base.Http.{Response, ok, http_error}
use ecommerce_platform.Base.Text.{is_empty}
use ecommerce_platform.SellerOrder
use ecommerce_platform.SellerOrder.{
  SellerOrderStatus, SellerOrderEvent, Action, InventoryEffect, plan_transition, http_status,
  dispatch, deliver,
}
use ecommerce_platform.Orchestrator.{
  SellerOrderRow, OutboxMessage, seller_order_event, book_escrow_delivery, release_seller_order,
  consume_seller_order, Database, products_of,
}

pub record TransitionRequest : Type 0 where
  pub reason : String
  pub courier_name : Option String
  pub tracking_code : Option String

-- WHERE id = ... AND order_id = ...
abbrev pub find_child : ℕ → ℕ → List SellerOrderRow → Option SellerOrderRow
find_child order n [] = none
find_child order n (c ∷ cs) =
    if c.id == n && c.order_id == order then some c else find_child order n cs

-- The changed row, written over the row that was locked.
abbrev pub write_child : SellerOrderRow → List SellerOrderRow → List SellerOrderRow
write_child row [] = []
write_child row (c ∷ cs) =
    if c.id == row.id && c.order_id == row.order_id then row ∷ cs else c ∷ write_child row cs

-- `text or None`
abbrev pub or_none : String → Option String
or_none s = if is_empty s then none else some s

abbrev pub with_courier : Action → TransitionRequest → SellerOrderRow → SellerOrderRow
with_courier dispatch request row = record row {
  courier_name = request.courier_name;
  tracking_code = request.tracking_code;
}
with_courier _ request row = row

-- The seller order as the decision leaves it.
abbrev pub moved_row :
    Action
    → SellerOrder.Decision
    → SellerOrderStatus
    → TransitionRequest
    → SellerOrderRow
    → SellerOrderRow
moved_row action d s request row =
    with_courier action request (record row { status = s; status_reason = or_none d.reason })

abbrev pub event_message : Option SellerOrderEvent → SellerOrderRow → List ℕ → List OutboxMessage
event_message none row ps = []
event_message (some e) row ps = seller_order_event e row ps ∷ []

abbrev pub escrow_message : Action → SellerOrderRow → List OutboxMessage
escrow_message deliver row = book_escrow_delivery row ∷ []
escrow_message _ row = []

-- _EFFECT_COMMANDS
abbrev pub effect_message : InventoryEffect → SellerOrderRow → List ℕ → List OutboxMessage
effect_message InventoryEffect.no_effect row ps = []
effect_message InventoryEffect.release row ps = release_seller_order row.order_id row.id ps ∷ []
effect_message InventoryEffect.consume row ps = consume_seller_order row.order_id row.id ps ∷ []

-- Everything one transition puts on the outbox.
unfoldable pub transition_messages :
    Action → SellerOrder.Decision → SellerOrderRow → List ℕ → List OutboxMessage
transition_messages action d row ps =
    event_message d.event row ps ++ escrow_message action row ++ effect_message d.effect row ps

-- The answer carries the row and the effect.
unfoldable pub carry_out_transition :
    Bool
    → Action
    → SellerOrder.Decision
    → TransitionRequest
    → SellerOrderRow
    → Database
    → Response (SellerOrderRow × InventoryEffect) × Database
unfolding transition_messages
carry_out_transition commits action d request row db = elim (d.to) [
  | none ↦ (http_error (http_status d), db)
  | some s ↦
      let moved = moved_row action d s request row in
      let written = record db {
        seller_orders = write_child moved db.seller_orders;
        outbox = db.outbox ++ transition_messages action d moved (products_of row.id db.lines);
      } in
      if commits then (ok (moved, d.effect), written) else (http_error 500, db)
]

unfoldable pub transition_seller_order :
    Bool
    → ℕ
    → ℕ
    → Action
    → TransitionRequest
    → Database
    → Response (SellerOrderRow × InventoryEffect) × Database
unfolding carry_out_transition
transition_seller_order commits order n action request db =
    elim (find_child order n db.seller_orders) [
      | none ↦ (http_error 404, db)
      | some row ↦
          carry_out_transition commits action
            (plan_transition action (some row.status) request.reason) request row db
    ]

-- The commands about stock and escrow among some messages.
abbrev pub escrow_bookings : List OutboxMessage → ℕ
escrow_bookings [] = 0
escrow_bookings (book_escrow_delivery row ∷ ms) = suc (escrow_bookings ms)
escrow_bookings (m ∷ ms) = escrow_bookings ms

abbrev pub consume_commands : List OutboxMessage → ℕ
consume_commands [] = 0
consume_commands (consume_seller_order o s ps ∷ ms) = suc (consume_commands ms)
consume_commands (m ∷ ms) = consume_commands ms

abbrev pub release_commands : List OutboxMessage → ℕ
release_commands [] = 0
release_commands (release_seller_order o s ps ∷ ms) = suc (release_commands ms)
release_commands (m ∷ ms) = release_commands ms

-- The three counts that a seller order's new status calls for.
abbrev pub Announces : SellerOrderStatus → List OutboxMessage → Type 0
Announces SellerOrderStatus.delivered ms =
    (escrow_bookings ms ≡ 1) × (consume_commands ms ≡ 1) × (release_commands ms ≡ 0)
Announces SellerOrderStatus.returned ms =
    (escrow_bookings ms ≡ 0) × (consume_commands ms ≡ 0) × (release_commands ms ≡ 1)
Announces SellerOrderStatus.cancelled ms =
    (escrow_bookings ms ≡ 0) × (consume_commands ms ≡ 0) × (release_commands ms ≡ 1)
Announces s ms = (escrow_bookings ms ≡ 0) × (consume_commands ms ≡ 0) × (release_commands ms ≡ 0)

planned-Announces :
    (action : Action) (s s' : SellerOrderStatus) (reason : String) (row : SellerOrderRow)
    (ps : List ℕ)
    → (plan_transition action (some s) reason).to ≡ some s'
    → Announces s' (transition_messages action (plan_transition action (some s) reason) row ps)
unfolding plan_transition transition_messages
planned-Announces action s s' reason row ps h = ground arith

pub same_key :
    (action : Action) (d : SellerOrder.Decision) (s : SellerOrderStatus)
    (request : TransitionRequest) (row : SellerOrderRow)
    → ((moved_row action d s request row).id ≡ row.id)
      × ((moved_row action d s request row).order_id ≡ row.order_id)
      × ((moved_row action d s request row).status ≡ s)
same_key dispatch d s request row = (refl, refl, refl)
same_key action d s request row = ground arith

pub find_child-key :
    (order n : ℕ) (old : SellerOrderRow) (cs : List SellerOrderRow)
    → find_child order n cs ≡ some old
    → (old.id ≡ n) × (old.order_id ≡ order)
find_child-key order n old [] h = cc
find_child-key order n old (c ∷ cs) h = ground (arith, find_child-key order n old cs)

pub find_child-write_child :
    (order n : ℕ) (old row : SellerOrderRow) (cs : List SellerOrderRow)
    → find_child order n cs ≡ some old
    → row.id ≡ n
    → row.order_id ≡ order
    → find_child order n (write_child row cs) ≡ some row
find_child-write_child order n old row [] h i o = cc
find_child-write_child order n old row (c ∷ cs) h i o =
    ground (arith, find_child-write_child order n old row cs)

-- What an answer says of the database.
abbrev pub Stored :
    ℕ → ℕ → Database → Response (SellerOrderRow × InventoryEffect) × Database → Type 0
Stored order n db (http_error code, db') = db' ≡ db
Stored order n db (ok (row, done), db') =
    (extra : List OutboxMessage) × (db'.outbox ≡ db.outbox ++ extra)
    × Announces row.status extra
    × (find_child order n db'.seller_orders ≡ some row)

carried :
    (order n : ℕ) (action : Action) (d : SellerOrder.Decision) (request : TransitionRequest)
    (old : SellerOrderRow) (db : Database)
    → ((s : SellerOrderStatus)
        → d.to ≡ some s
        → (row : SellerOrderRow) (ps : List ℕ) → Announces s (transition_messages action d row ps))
    → find_child order n db.seller_orders ≡ some old
    → Stored order n db (carry_out_transition true action d request old db)
unfolding carry_out_transition
carried order n action d request old db says f = elim (Option-cases d.to) [
  | inl e ↦ rw (carry_out_transition, e) refl
  | inr (s, e) ↦
      let (same_id, same_order, new) = same_key action d s request old in
      let (old_id, old_order) = find_child-key order n old db.seller_orders f in
      let moved = moved_row action d s request old in
      let ps = products_of old.id db.lines in
      rw (carry_out_transition, e)
        (
          transition_messages action d moved ps,
          refl,
          subst (λ t. Announces t (transition_messages action d moved ps)) (sym new)
              (says s e moved ps),
          find_child-write_child order n old moved db.seller_orders f (same_id ∙ old_id)
              (same_order ∙ old_order),
        )
]

-- With a commit that succeeds: a transition answered with a row has stored that row under its
-- identifier and its order, and has put messages on the outbox that agree with the row's new
-- status: an escrow booking and a consume command, once each, when it is DELIVERED; one release
-- command when it is RETURNED or CANCELLED; none of the three otherwise. Answered with an error,
-- it has changed nothing.
pub transition_seller_order-Stored :
    (order n : ℕ) (action : Action) (request : TransitionRequest) (db : Database)
    → Stored order n db (transition_seller_order true order n action request db)
unfolding transition_seller_order
transition_seller_order-Stored order n action request db =
    elim (Option-cases (find_child order n db.seller_orders)) [
      | inl f ↦ rw (transition_seller_order, f) refl
      | inr (old, f) ↦
          rw (transition_seller_order, f)
            (carried order n action (plan_transition action (some old.status) request.reason)
              request old db
              (λ s e row ps. planned-Announces action old.status s request.reason row ps e) f)
    ]

-- A transition answered with an error, whichever it is, leaves the database as it was, whether or
-- not the commit would have succeeded.
pub transition_seller_order-atomic :
    (commits : Bool) (order n : ℕ) (action : Action) (request : TransitionRequest) (db : Database)
    (code : ℕ)
    → (transition_seller_order commits order n action request db).0 ≡ http_error code
    → (transition_seller_order commits order n action request db).1 ≡ db
unfolding transition_seller_order carry_out_transition
transition_seller_order-atomic commits order n action request db code h = ground arith
