-- ===== src/Seller/Service/Queries.antt =====
-- The reads of seller-service: get_seller, get_permission, get_commission and list_sellers of
-- services/seller-service/app/services/seller_service.py.
use ecommerce_platform.Base.Int.{ℤ}
use ecommerce_platform.Base.{
  keep_if, Option, ◌==◌, ℕ, if◌then◌else◌, ◌∷◌, elem, none, zero, min, List, ◌++◌, [], map, some,
  Bool, suc,
}
use ecommerce_platform.Base.Http.{Response, ok, http_error}
use ecommerce_platform.Seller.{
  SellerStatus, DocumentType, may_list_products, may_receive_orders, commission_bps,
  current_contract_version,
}
use ecommerce_platform.Seller.Table.{Seller, SellerDocument, Database, find_seller, same_status}
use ecommerce_platform.Seller.Service.{SellerResponse, to_response, load}

unfoldable pub get_seller : ℕ → Database → Response SellerResponse
unfolding load to_response
get_seller id db = elim (load id db) [
  | none ↦ http_error 404
  | some l ↦ ok (to_response l.seller l.documents)
]

pub record SellerPermission : Type 0 where
  pub seller_id : ℕ
  pub status : Option SellerStatus
  pub may_list : Bool
  pub may_receive : Bool

unfoldable pub permission : Seller → SellerPermission
unfolding may_list_products may_receive_orders
permission s = record {
  seller_id = s.id;
  status = s.status;
  may_list = may_list_products s.status s.accepted_contract_version;
  may_receive = may_receive_orders s.status s.accepted_contract_version;
}

unfoldable pub get_permission : ℕ → Database → Response SellerPermission
unfolding permission
get_permission id db = elim (find_seller id db.sellers) [
  | none ↦ http_error 404
  | some s ↦ ok (permission s)
]

pub record SellerCommission : Type 0 where
  pub seller_id : ℕ
  pub accepted_contract_version : Option ℤ
  pub current_version : ℤ
  pub bps : ℤ

unfoldable pub get_commission : ℕ → Database → Response SellerCommission
unfolding commission_bps
get_commission id db = elim (find_seller id db.sellers) [
  | none ↦ http_error 404
  | some s ↦ elim (commission_bps s.accepted_contract_version) [
    | none ↦ http_error 409
    | some rate ↦ ok (record {
      seller_id = s.id;
      accepted_contract_version = s.accepted_contract_version;
      current_version = current_contract_version;
      bps = rate;
    })
  ]
]

-- by_seller: each seller's document types, filled in one pass over the rows.
abbrev pub Grouped : Type 0
Grouped = List (ℕ × List DocumentType)

abbrev pub append_to : ℕ → DocumentType → Grouped → Grouped
append_to id t [] = (id, t ∷ []) ∷ []
append_to id t ((i, ts) ∷ more) =
    let later = append_to id t more in if i == id then (i, ts ++ t ∷ []) ∷ more else (i, ts) ∷ later

abbrev pub group_documents : List ℕ → List SellerDocument → Grouped → Grouped
group_documents ids [] done = done
group_documents ids (d ∷ ds) done =
    group_documents ids ds
      (if elem d.seller_id ids then append_to d.seller_id d.document_type done else done)

-- by_seller.get(id, [])
abbrev pub documents_of : ℕ → Grouped → List DocumentType
documents_of id [] = []
documents_of id ((i, ts) ∷ more) = let rest = documents_of id more in if i == id then ts else rest

abbrev pub take : ℕ → List Seller → List Seller
take zero ss = []
take (suc n) [] = []
take (suc n) (s ∷ ss) = s ∷ take n ss

-- `none` is no filter, `some none` a text outside the vocabulary.
abbrev pub chosen_sellers : Option (Option SellerStatus) → List Seller → List Seller
chosen_sellers none ss = ss
chosen_sellers (some status) ss = keep_if (λ s. same_status s.status status) ss

abbrev pub ids_of : List Seller → List ℕ
ids_of [] = []
ids_of (s ∷ ss) = s.id ∷ ids_of ss

unfoldable pub answer_list : List Seller → List SellerDocument → List SellerResponse
unfolding to_response
answer_list ss ds =
    let by_seller = group_documents (ids_of ss) ds [] in
    map (λ s. to_response s (documents_of s.id by_seller)) ss

unfoldable pub list_sellers :
    Option (Option SellerStatus) → ℕ → Database → Response (List SellerResponse)
unfolding answer_list
list_sellers (some none) limit db = http_error 422
list_sellers status limit db =
    ok (answer_list (take (min limit 200) (chosen_sellers status db.sellers)) db.documents)
