-- ===== src/Seller/Service/Register.antt =====
-- Registration: register_seller of services/seller-service/app/services/seller_service.py, with
-- _claim_idempotency, which waits for another request that holds the key.
use ecommerce_platform.Base.{
  not, true, some, none, if◌then◌else◌, [], ◌∷◌, ◌&&◌, false, Bool, Option, ℕ,
}
use ecommerce_platform.Base.Text.{strip}
use ecommerce_platform.Base.Http.{Response, ok, http_error}
use ecommerce_platform.Seller.Table.{Seller, Database, Location, find_seller, find_key}
use ecommerce_platform.Seller.{
  plan_registration, String, SellerStatus, SellerEvent, moves, invalid, not_allowed,
}
use ecommerce_platform.Seller.Service.{SellerResponse, to_response, load, emit, rejection}
use ecommerce_platform.Seller.{plan_registration}

pub record SellerRegisterRequest : Type 0 where
  pub legal_name : String
  pub display_name : String
  pub contact_email : String
  pub location : Location

-- What is answered to a key that has been seen.
unfoldable pub replay : Option ℕ → Database → Response SellerResponse
unfolding load to_response
replay none db = http_error 409
replay (some id) db = elim (load id db) [
  | none ↦ http_error 404
  | some l ↦ ok (to_response l.seller l.documents)
]

abbrev pub is_some : Option Seller → Bool
is_some none = false
is_some (some s) = true

unfoldable pub new_seller : ℕ → SellerRegisterRequest → SellerStatus → Seller
unfolding strip
new_seller id request status = record {
  id = id;
  legal_name = strip request.legal_name;
  display_name = strip request.display_name;
  contact_email = strip request.contact_email;
  status = some status;
  status_reason = none;
  accepted_contract_version = none;
  location = request.location;
}

-- The insert of the row, its event and the key's result; an id that is taken breaks the primary key.
unfoldable pub insert_seller :
    Bool → ℕ → Seller → SellerEvent → Database → Response SellerResponse × Database
unfolding emit to_response
insert_seller commits key seller event db =
    if commits && not (is_some (find_seller seller.id db.sellers))
    then (
      ok (to_response seller []),
      emit seller event
          (record db { sellers = seller ∷ db.sellers; keys = (key, some seller.id) ∷ db.keys }),
    )
    else (http_error 500, db)

unfoldable pub register_seller :
    Bool → ℕ → SellerRegisterRequest → ℕ → Database → Response SellerResponse × Database
unfolding plan_registration replay insert_seller new_seller
register_seller commits id request key db = elim (find_key key db.keys) [
  | some result ↦ (replay result db, db)
  | none ↦ elim (plan_registration request.legal_name request.display_name request.contact_email) [
    | moves status event text ↦ insert_seller commits key (new_seller id request status) event db
    | invalid ↦ (http_error (rejection invalid), db)
    | not_allowed ↦ (http_error (rejection not_allowed), db)
  ]
]
