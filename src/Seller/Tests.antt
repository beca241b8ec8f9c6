-- ===== src/Seller/Tests.antt =====
-- Concrete runs of seller-service.
use ecommerce_platform.Base.Text.{is_blank}
use ecommerce_platform.Base.Int.{pos}
use ecommerce_platform.Base.{
  ℕ, ◌⊎◌, none, [], ◌↔◌, true, ◌∷◌, arith, List, Option, ◌≡◌, false, some, refl,
}
use ecommerce_platform.Base.Http.{ok, http_error}
use ecommerce_platform.Seller.{
  may_list_products, SellerStatus, registered, active, rejected, suspended, banned, national_id,
  trade_licence, other, review_started_event, approved_event, activated_event, missing_documents,
  reachable_statuses,
}
use ecommerce_platform.Seller.Table.{Database, Seller, Location, find_seller, document_types}
use ecommerce_platform.Seller.Service.{SellerResponse, to_response}
use ecommerce_platform.Seller.Service.Register.{SellerRegisterRequest, register_seller}
use ecommerce_platform.Seller.Service.Queries.{SellerPermission, get_permission, get_commission}
use ecommerce_platform.Seller.Moves.{Action, leads_to, has_status, plan, transitions_exact}
use ecommerce_platform.Seller.Sessions.{
  System, Request, Event, init, run, serve, register, read, write, send_documents, begin_review,
  reinstate, review_result, accept, ban, locate,
}
use ecommerce_platform.Seller.Sessions.Grows.{told}
use ecommerce_platform.Seller.Sessions.Serial.{Call, enrol, act, serve_all}
use ecommerce_platform.Seller.Sessions.Banned.{banned_is_final}
use ecommerce_platform.Seller.Sessions.Race.{overlapping, ban_overlapped}
use ecommerce_platform.Seller.Sessions.Replay.{registration_replayed}
use ecommerce_platform.Seller.Sessions.Vetted.Listed.{listed_is_vetted}
use ecommerce_platform.Seller.Commission.{over_http, outcome_for, delivery_at_accepted_rate}
use ecommerce_platform.Escrow.Books.{already_booked, Books, DeliveryRequest, book_delivery}

abbrev nowhere : Location
nowhere = record {
  latitude = none;
  longitude = none;
  address_line = none;
  city = none;
  district = none;
}

abbrev shop : SellerRegisterRequest
shop = record {
  legal_name = " Rahim Traders";
  display_name = "Rahim";
  contact_email = "r@x.bd";
  location = nowhere;
}

abbrev in_turn : ℕ → List Request → List Event
in_turn id [] = []
in_turn id (r ∷ rs) = read 0 id r ∷ write 0 true ∷ in_turn id rs

abbrev onboarding : List Event
onboarding =
    register true 7 shop 100
    ∷ in_turn 7 (
        send_documents ((national_id, 1) ∷ (trade_licence, 2) ∷ (national_id, 3) ∷ [])
        ∷ begin_review
        ∷ review_result true none
        ∷ accept (pos 1)
        ∷ [])

-- The seller that `onboarding` leaves.
abbrev rahim : Option SellerStatus → Seller
rahim status = record {
  id = 7;
  legal_name = "Rahim Traders";
  display_name = "Rahim";
  contact_email = "r@x.bd";
  status = status;
  status_reason = some "";
  accepted_contract_version = some (pos 1);
  location = nowhere;
}

abbrev rahim_only : Option SellerStatus → Database
rahim_only status = record { sellers = rahim status ∷ []; documents = []; outbox = []; keys = [] }

onboarded : find_seller 7 (run onboarding init).db.sellers ≡ some (rahim (some active))
unfolding run
onboarded = refl

last_document_counts :
    document_types 7 (run onboarding init).db.documents ≡ national_id ∷ trade_licence ∷ []
unfolding document_types run
last_document_counts = refl

incomplete_set :
    (serve true 7
      (send_documents ((national_id, 1) ∷ (other 3, 2) ∷ []))
      (rahim_only (some rejected))).0
    ≡ http_error 422
unfolding serve
incomplete_set = refl

no_reason_no_ban : (serve true 7 (ban "  ") (rahim_only (some active))).0 ≡ http_error 422
unfolding serve
no_reason_no_ban = refl

unknown_seller : get_permission 8 (rahim_only (some active)) ≡ http_error 404
unfolding get_permission
unknown_seller = refl

transitions_exact_example :
    (has_status suspended (reachable_statuses (some active)) ≡ true)
    ↔ ((a : Action) × (leads_to suspended (plan a (some active)) ≡ true))
transitions_exact_example = transitions_exact active suspended

abbrev allowed : SellerPermission
allowed = record { seller_id = 7; status = some active; may_list = true; may_receive = true }

listed_is_vetted_example :
    let db = (run onboarding init).db in
    (missing_documents (document_types 7 db.documents) ≡ [])
    × (told review_started_event 7 db ≡ true)
    × (told approved_event 7 db ≡ true)
    × (told activated_event 7 db ≡ true)
unfolding get_permission run
listed_is_vetted_example = listed_is_vetted onboarding 7 allowed refl refl

abbrev later_calls : List Call
later_calls = act true 7 reinstate ∷ enrol true 8 shop 5 ∷ act true 7 (locate nowhere) ∷ []

banned_is_final_example :
    let db' = serve_all later_calls (rahim_only (some banned)) in
    ((p : SellerPermission) × (get_permission 7 db' ≡ ok p)
      × (p.may_list ≡ false)
      × (p.may_receive ≡ false))
    × ((serve true 7 (accept (pos 1)) db' ≡ (http_error 409, db'))
        ⊎ ((given : Location) × (accept (pos 1) ≡ locate given)))
banned_is_final_example =
    banned_is_final later_calls (rahim_only (some banned)) 7 (rahim (some banned)) true
      (accept (pos 1)) refl refl

abbrev stopped : System
stopped = record { db = rahim_only (some suspended); pending = λ _. none }

ban_overlapped_example :
    let after = (run (overlapping 7 "fraud") stopped).db in
    let one_by_one = (serve true 7 (ban "fraud") stopped.db).1 in
    ((p : SellerPermission) × (get_permission 7 after ≡ ok p)
      × (p.status ≡ some active)
      × (p.may_list ≡ true))
    × (serve true 7 reinstate one_by_one ≡ (http_error 409, one_by_one))
unfolding may_list_products is_blank
ban_overlapped_example =
    ban_overlapped stopped 7 (rahim (some suspended)) "fraud" refl refl refl refl

abbrev first_view : SellerResponse
first_view =
    to_response
      (record (rahim (some registered)) { status_reason = none; accepted_contract_version = none })
      []

registration_replayed_example :
    let db' =
      (run (register true 7 shop 100 ∷ read 0 7 (ban "fraud") ∷ write 0 true ∷ []) init).db in
    (again : SellerResponse) × (again.id ≡ first_view.id)
    × (register_seller true 9 shop 100 db' ≡ (ok again, db'))
unfolding register_seller
registration_replayed_example =
    registration_replayed 7 shop 100 init first_view refl refl
      (read 0 7 (ban "fraud") ∷ write 0 true ∷ []) true 9 shop

abbrev cash : DeliveryRequest
cash = record { seller_id = 7; seller_order_id = 3; collected_cents = pos 1000 }

abbrev no_books : Books
no_books = record { rows = []; outbox = [] }

delivery_at_accepted_rate_example :
    book_delivery true 1 (over_http (get_commission 7 (run onboarding init).db)) cash no_books
    ≡ outcome_for (some (rahim (some active))) true 1 cash no_books
unfolding run already_booked
delivery_at_accepted_rate_example =
    delivery_at_accepted_rate onboarding true 1 cash no_books (omega arith) refl
