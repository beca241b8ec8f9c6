-- ===== src/Seller/Service/Documents.antt =====
-- The documents of a seller: submit_documents of
-- services/seller-service/app/services/seller_service.py.
use ecommerce_platform.Base.{
  not, ◌==◌, some, if◌then◌else◌, [], ◌++◌, ◌∷◌, ◌&&◌, Bool, keep_if, ℕ, List,
}
use ecommerce_platform.Base.Http.{Response}
use ecommerce_platform.Seller.Table.{SellerDocument, Database}
use ecommerce_platform.Seller.{plan_document_submission, same_document, DocumentType}
use ecommerce_platform.Seller.Service.{SellerResponse, Loaded, apply}

-- {d.document_type: d.media_id for d in request.documents}
abbrev pub put_key : DocumentType → ℕ → List (DocumentType × ℕ) → List (DocumentType × ℕ)
put_key t media [] = (t, media) ∷ []
put_key t media ((u, m) ∷ rest) =
    let later = put_key t media rest in
    if same_document t u then (u, media) ∷ rest else (u, m) ∷ later

abbrev pub as_dict : List (DocumentType × ℕ) → List (DocumentType × ℕ) → List (DocumentType × ℕ)
as_dict [] done = done
as_dict ((t, media) ∷ ds) done = as_dict ds (put_key t media done)

abbrev pub keys_of : List (DocumentType × ℕ) → List DocumentType
keys_of [] = []
keys_of ((t, media) ∷ ds) = t ∷ keys_of ds

abbrev pub is_document : ℕ → DocumentType → SellerDocument → Bool
is_document id t d = d.seller_id == id && same_document d.document_type t

-- delete, then add
unfoldable pub replace_document : ℕ → DocumentType → ℕ → List SellerDocument → List SellerDocument
replace_document id t media ds =
    keep_if (λ d. not (is_document id t d)) ds
    ++ record { seller_id = id; document_type = t; media_id = media } ∷ []

unfoldable pub put_documents :
    ℕ → List (DocumentType × ℕ) → List SellerDocument → List SellerDocument
unfolding replace_document
put_documents id [] ds = ds
put_documents id ((t, media) ∷ more) ds = put_documents id more (replace_document id t media ds)

unfoldable pub submit_documents :
    Bool → Loaded → List (DocumentType × ℕ) → Database → Response SellerResponse × Database
unfolding plan_document_submission put_documents apply
submit_documents commits loaded request db =
    let incoming = as_dict request [] in
    let resulting = loaded.documents ++ keys_of incoming in
    let seller = loaded.seller in
    apply commits seller seller (plan_document_submission seller.status resulting) (some "")
      (record db { documents = put_documents seller.id incoming db.documents }) db
