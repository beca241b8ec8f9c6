-- ===== src/Fulfillment/Shipments.antt =====
-- create_shipment and handle_callback of services/fulfillment-service/app/services/shipment_service.py.
-- What order-saga makes of an action is a parameter: its answer, and what it does to a state of its
-- own. A courier's word, normalised, is a number, and its mapping (Courier.index) a list.
pub mod Redelivery
use ecommerce_platform.Base.{
  Bool, true, false, Option, some, none, ℕ, List, [], ◌∷◌, ◌++◌, ◌==◌, ◌&&◌, if◌then◌else◌, any,
}
use ecommerce_platform.Base.Int.{ℤ}
use ecommerce_platform.Base.Http.{Response, ok, http_error}
use ecommerce_platform.SellerOrder.{Action}
use ecommerce_platform.Fulfillment.{CourierStatus, action_for}
use ecommerce_platform.Fulfillment.Settlement.{Shipment, has_code}

-- Courier
pub record Courier : Type 0 where
  pub provider : ℕ
  pub index : List (ℕ × CourierStatus)

-- map_status
abbrev pub map_status : List (ℕ × CourierStatus) → ℕ → Option CourierStatus
map_status [] word = none
map_status ((w, c) ∷ index) word = if w == word then some c else map_status index word

-- courier_registry.get
abbrev pub get : ℕ → List Courier → Option Courier
get provider [] = none
get provider (c ∷ cs) = if c.provider == provider then some c else get provider cs

pub data ShipmentEvent : Type 0 where
  shipment_created : Shipment → ShipmentEvent
  status_changed : Shipment → CourierStatus → Option Action → ShipmentEvent
  status_unmapped : Shipment → ShipmentEvent

pub record Parcels : Type 0 where
  pub shipments : List Shipment
  pub outbox : List ShipmentEvent

pub record ShipmentCreateRequest : Type 0 where
  pub seller_order_id : ℕ
  pub order_id : ℕ
  pub provider : ℕ
  pub tracking_code : Option ℕ
  pub cod_amount_cents : ℤ

abbrev pub is_for : ℕ → Shipment → Bool
is_for seller_order s = s.seller_order_id == seller_order

-- The partial unique index on provider and tracking_code.
abbrev pub same_tracking : ℕ → Option ℕ → Shipment → Bool
same_tracking provider none s = false
same_tracking provider (some code) s = s.provider == provider && has_code code s.tracking_code

abbrev pub new_shipment : ℕ → ℕ → ShipmentCreateRequest → Shipment
new_shipment id provider request = record {
  id = id;
  seller_order_id = request.seller_order_id;
  order_id = request.order_id;
  provider = provider;
  tracking_code = request.tracking_code;
  status = CourierStatus.pickup_pending;
  unmapped = false;
  cod_amount_cents = request.cod_amount_cents;
}

-- The flush that the tracking code's index refuses raises, outside every handler.
unfoldable pub create_shipment :
    Bool → List Courier → ℕ → ShipmentCreateRequest → Parcels → Response Shipment × Parcels
create_shipment commits couriers id request db = elim (get request.provider couriers) [
  | none ↦ (http_error 422, db)
  | some courier ↦
      let shipment = new_shipment id courier.provider request in
      if any (is_for request.seller_order_id) db.shipments
      then (http_error 409, db)
      else if any (same_tracking courier.provider request.tracking_code) db.shipments
      then (http_error 500, db)
      else if commits
      then (
        ok shipment,
        record {
          shipments = db.shipments ++ shipment ∷ [];
          outbox = db.outbox ++ shipment_created shipment ∷ [];
        },
      )
      else (http_error 500, db)
]

-- How a callback names its parcel: a tracking code first, or else a seller order, or nothing.
pub data Parcel : Type 0 where
  by_code by_seller_order : ℕ → Parcel
  unnamed : Parcel

abbrev pub names : ℕ → Parcel → Shipment → Bool
names provider (by_code code) s = s.provider == provider && has_code code s.tracking_code
names provider (by_seller_order n) s = s.provider == provider && is_for n s
names provider unnamed s = false

abbrev pub find_parcel : ℕ → Parcel → List Shipment → Option Shipment
find_parcel provider p [] = none
find_parcel provider p (s ∷ ss) = if names provider p s then some s else find_parcel provider p ss

-- The shipment, after a word that maps to a status or to none.
abbrev pub reported : Option CourierStatus → Shipment → Shipment
reported none s = record s { unmapped = true }
reported (some c) s = record s { unmapped = false; status = c }

abbrev pub replace : Shipment → List Shipment → List Shipment
replace s [] = []
replace s (x ∷ xs) = if x.id == s.id then s ∷ xs else x ∷ replace s xs

abbrev pub callback_event : Shipment → Option CourierStatus → ShipmentEvent
unfolding action_for
callback_event s none = status_unmapped s
callback_event s (some c) = status_changed s c (action_for (some c))

-- What comes back from order-saga: a status, a call shed by the breaker, or no answer.
pub data SagaAnswer : Type 0 where
  answered : ℕ → SagaAnswer
  refused_by_breaker no_answer : SagaAnswer

pub data ActionResult : Type 0 where
  applied not_applicable unavailable unreachable : ActionResult
  rejected : ℕ → ActionResult

abbrev pub result_of : SagaAnswer → ActionResult
result_of (answered n) =
    if n == 200 then applied else if n == 409 then not_applicable else rejected n
result_of refused_by_breaker = unavailable
result_of no_answer = unreachable

pub record CallbackResponse : Type 0 where
  pub shipment_id : ℕ
  pub canonical_status : Option CourierStatus
  pub action : Option Action
  pub action_result : Option ActionResult

module _ {S : Type 0} (saga : ℕ → ℕ → Action → S → SagaAnswer × S) where
  -- _drive_seller_order, where there is an action.
  unfoldable pub drive : Shipment → Option CourierStatus → S → CallbackResponse × S
  unfolding action_for
  drive s canonical w = elim (action_for canonical) [
    | none ↦ (
      record {
        shipment_id = s.id;
        canonical_status = canonical;
        action = none;
        action_result = none;
      },
      w,
    )
    | some a ↦
        let (answer, w') = saga s.order_id s.seller_order_id a w in
        (
          record {
            shipment_id = s.id;
            canonical_status = canonical;
            action = some a;
            action_result = some (result_of answer);
          },
          w',
        )
  ]

  -- What follows the shipment that was found.
  unfoldable pub record_status :
      Bool → Option CourierStatus → Shipment → Parcels → S → Response CallbackResponse × Parcels × S
  unfolding drive callback_event
  record_status commits canonical s db w =
      let s' = reported canonical s in
      if commits
      then (let (response, w') = drive s' canonical w in
          (
            ok response,
            record {
              shipments = replace s' db.shipments;
              outbox = db.outbox ++ callback_event s' canonical ∷ [];
            },
            w',
          ))
      else (http_error 500, db, w)

  unfoldable pub handle_callback :
      Bool → List Courier → ℕ → Parcel → ℕ → Parcels → S → Response CallbackResponse × Parcels × S
  unfolding record_status
  handle_callback commits couriers provider unnamed word db w = elim (get provider couriers) [
    | none ↦ (http_error 404, db, w)
    | some courier ↦ (http_error 422, db, w)
  ]
  handle_callback commits couriers provider p word db w = elim (get provider couriers) [
    | none ↦ (http_error 404, db, w)
    | some courier ↦ elim (find_parcel courier.provider p db.shipments) [
      | none ↦ (http_error 404, db, w)
      | some s ↦ record_status commits (map_status courier.index word) s db w
    ]
  ]
