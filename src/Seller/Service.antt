-- ===== src/Seller/Service.antt =====
-- Requests to seller-service: services/seller-service/app/services/seller_service.py.
-- The handlers read the seller with no row lock, so what a request has loaded (Loaded) is an
-- argument apart from the database that its writes reach. A commit that fails is `false`.
pub mod Documents
pub mod Queries
pub mod Register
pub mod Listing
use ecommerce_platform.Base.Int.{ℤ}
use ecommerce_platform.Base.{
  not, true, ◌==◌, some, none, if◌then◌else◌, [], ◌++◌, ◌∷◌, ◌&&◌, false, Bool, keep_if, Option, ℕ,
  List,
}
use ecommerce_platform.Base.Text.{strip}
use ecommerce_platform.Base.Http.{Response, ok, http_error}
use ecommerce_platform.Seller.Table.{
  Seller, SellerDocument, OutboxMessage, Database, Location, find_seller, find_key, document_types,
  save,
}
use ecommerce_platform.Seller.{
  current_contract_version, missing_documents, needs_contract_acceptance, may_receive_orders,
  plan_document_submission, plan_ban, plan_registration, location_event, plan_review_result,
  same_document, plan_reinstatement, plan_contract_acceptance, may_list_products, plan_review_start,
  String, plan_suspension, SellerStatus, DocumentType, SellerEvent, Decision, moves, invalid,
  not_allowed,
}

pub record SellerResponse : Type 0 where
  pub id : ℕ
  pub legal_name : String
  pub display_name : String
  pub contact_email : String
  pub status : Option SellerStatus
  pub status_reason : Option String
  pub accepted_contract_version : Option ℤ
  pub current_version : ℤ
  pub may_list : Bool
  pub may_receive : Bool
  pub needs_acceptance : Bool
  pub missing : List DocumentType
  pub city : Option String
  pub district : Option String
  pub latitude : Option String
  pub longitude : Option String

unfoldable pub to_response : Seller → List DocumentType → SellerResponse
unfolding may_list_products may_receive_orders needs_contract_acceptance missing_documents
to_response seller submitted = record {
  id = seller.id;
  legal_name = seller.legal_name;
  display_name = seller.display_name;
  contact_email = seller.contact_email;
  status = seller.status;
  status_reason = seller.status_reason;
  accepted_contract_version = seller.accepted_contract_version;
  current_version = current_contract_version;
  may_list = may_list_products seller.status seller.accepted_contract_version;
  may_receive = may_receive_orders seller.status seller.accepted_contract_version;
  needs_acceptance = needs_contract_acceptance seller.status seller.accepted_contract_version;
  missing = missing_documents submitted;
  city = seller.location.city;
  district = seller.location.district;
  latitude = seller.location.latitude;
  longitude = seller.location.longitude;
}

-- What a request has read of its seller: the row, and _document_types.
pub record Loaded : Type 0 where
  pub seller : Seller
  pub documents : List DocumentType

-- _load
unfoldable pub load : ℕ → Database → Option Loaded
unfolding document_types
load id db = elim (find_seller id db.sellers) [
  | none ↦ none
  | some s ↦ some (record { seller = s; documents = document_types id db.documents })
]

unfoldable pub message : Seller → SellerEvent → OutboxMessage
unfolding may_list_products
message seller event = record {
  event = event;
  seller_id = seller.id;
  display_name = seller.display_name;
  status = seller.status;
  status_reason = seller.status_reason;
  accepted_contract_version = seller.accepted_contract_version;
  city = seller.location.city;
  district = seller.location.district;
  latitude = seller.location.latitude;
  longitude = seller.location.longitude;
  may_list = may_list_products seller.status seller.accepted_contract_version;
}

-- _emit
unfoldable pub emit : Seller → SellerEvent → Database → Database
unfolding message
emit seller event db = record db { outbox = db.outbox ++ message seller event ∷ [] }

-- _reject
abbrev pub rejection : Decision → ℕ
rejection invalid = 422
rejection _ = 409

abbrev pub or_else {ℓ} : {A : Type ℓ} → Option A → Option A → Option A
or_else none previous = previous
or_else (some new) previous = some new

-- _apply: `seller` is the loaded row with the handler's changes, `written` the database with what
-- the handler has written before.
unfoldable pub apply :
    Bool
    → Seller
    → Seller
    → Decision
    → Option String
    → Database
    → Database
    → Response SellerResponse × Database
unfolding save emit to_response document_types
apply commits loaded seller (moves status event detail) reason written db =
    let seller' = record seller {
      status = some status;
      status_reason = or_else reason seller.status_reason;
    } in
    let db' =
      emit seller' event (record written { sellers = save loaded seller' written.sellers }) in
    if commits
    then (ok (to_response seller' (document_types seller'.id db'.documents)), db')
    else (http_error 500, db)
apply commits loaded seller invalid reason written db = (http_error (rejection invalid), db)
apply commits loaded seller not_allowed reason written db = (http_error (rejection not_allowed), db)

unfoldable pub start_review : Bool → Loaded → Database → Response SellerResponse × Database
unfolding plan_review_start apply
start_review commits loaded db =
    let seller = loaded.seller in
    apply commits seller seller (plan_review_start seller.status) none db db

abbrev pub detail : Decision → String
detail (moves status event text) = text
detail _ = ""

unfoldable pub record_review_result :
    Bool → Loaded → Bool → Option String → Database → Response SellerResponse × Database
unfolding plan_review_result apply
record_review_result commits loaded accept reason db =
    let seller = loaded.seller in
    let text = elim reason as (λ _. String) [ none ↦ "" | some r ↦ r ] in
    let decision = plan_review_result seller.status accept text in
    apply commits seller seller decision (if accept then none else some (detail decision)) db db

unfoldable pub accept_contract : Bool → Loaded → ℤ → Database → Response SellerResponse × Database
unfolding plan_contract_acceptance apply
accept_contract commits loaded version db =
    let seller = loaded.seller in
    apply commits seller (record seller { accepted_contract_version = some version })
      (plan_contract_acceptance seller.status version) none db db

unfoldable pub suspend_seller :
    Bool → Loaded → String → Database → Response SellerResponse × Database
unfolding plan_suspension apply
suspend_seller commits loaded reason db =
    let seller = loaded.seller in
    let decision = plan_suspension seller.status reason in
    apply commits seller seller decision (some (detail decision)) db db

unfoldable pub reinstate_seller : Bool → Loaded → Database → Response SellerResponse × Database
unfolding plan_reinstatement apply
reinstate_seller commits loaded db =
    let seller = loaded.seller in
    apply commits seller seller (plan_reinstatement seller.status) (some "") db db

unfoldable pub ban_seller : Bool → Loaded → String → Database → Response SellerResponse × Database
unfolding plan_ban apply
ban_seller commits loaded reason db =
    let seller = loaded.seller in
    let decision = plan_ban seller.status reason in
    apply commits seller seller decision (some (detail decision)) db db

abbrev pub changed_location : Location → Location → Location
changed_location given current = record {
  latitude = or_else given.latitude current.latitude;
  longitude = or_else given.longitude current.longitude;
  address_line = or_else given.address_line current.address_line;
  city = or_else given.city current.city;
  district = or_else given.district current.district;
}

-- The answer is read again after the commit.
unfoldable pub set_location :
    Bool → Loaded → Location → Database → Response SellerResponse × Database
unfolding save emit load to_response
set_location commits loaded given db =
    let seller = loaded.seller in
    let seller' = record seller { location = changed_location given seller.location } in
    let db' =
      emit seller' location_event (record db { sellers = save seller seller' db.sellers }) in
    if commits
    then (
      elim (load seller.id db') [
        | none ↦ http_error 500
        | some l ↦ ok (to_response l.seller l.documents)
      ],
      db',
    )
    else (http_error 500, db)
