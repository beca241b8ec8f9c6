-- ===== src/Seller/Sessions.antt =====
-- Requests to seller-service that overlap: services/seller-service/app/services/seller_service.py,
-- with _load and the transaction's writes as two steps, since _load takes no row lock. The row and
-- its document types are one read, and the writes of a request, up to the commit, one write, as the
-- locks of the written rows make them.
pub mod Grows
pub mod Vetted
pub mod Serial
pub mod Shape
pub mod Banned
pub mod Replay
pub mod Race
pub mod Refused
use ecommerce_platform.Base.Int.{ℤ}
use ecommerce_platform.Base.{Bool, ◌∷◌, none, ℕ, some, List, if◌then◌else◌, [], ◌==◌, Option}
use ecommerce_platform.Base.Http.{Response, ok, http_error}
use ecommerce_platform.Seller.{String, DocumentType}
use ecommerce_platform.Seller.Table.{Database, Location, empty}
use ecommerce_platform.Seller.Service.{
  Loaded, SellerResponse, load, start_review, record_review_result, accept_contract, suspend_seller,
  reinstate_seller, ban_seller, set_location,
}
use ecommerce_platform.Seller.Service.Documents.{submit_documents}
use ecommerce_platform.Seller.Service.Register.{SellerRegisterRequest, register_seller}

pub data Request : Type 0 where
  send_documents : List (DocumentType × ℕ) → Request
  begin_review reinstate : Request
  review_result : Bool → Option String → Request
  accept : ℤ → Request
  suspend ban : String → Request
  locate : Location → Request

unfoldable pub handle : Bool → Loaded → Request → Database → Response SellerResponse × Database
unfolding submit_documents start_review record_review_result accept_contract suspend_seller
    reinstate_seller ban_seller set_location
handle commits loaded (send_documents request) db = submit_documents commits loaded request db
handle commits loaded begin_review db = start_review commits loaded db
handle commits loaded reinstate db = reinstate_seller commits loaded db
handle commits loaded (review_result approved reason) db =
    record_review_result commits loaded approved reason db
handle commits loaded (accept version) db = accept_contract commits loaded version db
handle commits loaded (suspend reason) db = suspend_seller commits loaded reason db
handle commits loaded (ban reason) db = ban_seller commits loaded reason db
handle commits loaded (locate given) db = set_location commits loaded given db

-- A request that is served with no other between its read and its writes.
unfoldable pub serve : Bool → ℕ → Request → Database → Response SellerResponse × Database
unfolding load handle
serve commits id request db = elim (load id db) [
  | none ↦ (http_error 404, db)
  | some loaded ↦ handle commits loaded request db
]

-- The database, and what each worker is in the middle of.
pub record System : Type 0 where
  pub db : Database
  pub pending : ℕ → Option (Loaded × Request)

abbrev pub init : System
init = record { db = empty; pending = λ _. none }

pub data Event : Type 0 where
  register : Bool → ℕ → SellerRegisterRequest → ℕ → Event
  read : ℕ → ℕ → Request → Event
  write : ℕ → Bool → Event

abbrev pub assign :
    (ℕ → Option (Loaded × Request)) → ℕ → Option (Loaded × Request) → ℕ → Option (Loaded × Request)
assign pending worker p w = if worker == w then p else pending w

abbrev pub with_request : Request → Option Loaded → Option (Loaded × Request)
with_request request none = none
with_request request (some loaded) = some (loaded, request)

abbrev pub write_pending : Bool → Option (Loaded × Request) → Database → Database
unfolding handle
write_pending commits none db = db
write_pending commits (some (loaded, request)) db = (handle commits loaded request db).1

unfoldable pub happen : Event → System → System
unfolding register_seller load handle
happen (register commits id request key) s = record s {
  db = (register_seller commits id request key s.db).1;
}
happen (read worker id request) s = record s {
  pending = assign s.pending worker (with_request request (load id s.db));
}
happen (write worker commits) s = record {
  db = write_pending commits (s.pending worker) s.db;
  pending = assign s.pending worker none;
}

unfoldable pub run : List Event → System → System
unfolding happen
run [] s = s
run (e ∷ es) s = run es (happen e s)
