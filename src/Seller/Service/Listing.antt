-- ===== src/Seller/Service/Listing.antt =====
-- The list of sellers: list_sellers of services/seller-service/app/services/seller_service.py groups
-- the rows of all documents in one pass.
use ecommerce_platform.Base.{
  some, min, none, map, ◌++◌, [], sym, elem, ==_iff, inr, true, ◌==◌, Option, List, if◌then◌else◌,
  arith, ap, ◌≡◌, inl, refl, ℕ, Bool-cases, ==_refl, ◌∙◌, ◌∷◌,
}
use ecommerce_platform.Base.Http.{ok, http_error}
use ecommerce_platform.Seller.{SellerStatus, DocumentType}
use ecommerce_platform.Seller.Table.{Seller, SellerDocument, Database, document_types}
use ecommerce_platform.Seller.Service.{to_response}
use ecommerce_platform.Seller.Service.Queries.{
  Grouped, append_to, group_documents, documents_of, answer_list, list_sellers, chosen_sellers,
  ids_of, take,
}

documents_of-append_to :
    (id i : ℕ) (t : DocumentType) (done : Grouped)
    → documents_of id (append_to i t done)
      ≡ (if i == id then documents_of id done ++ t ∷ [] else documents_of id done)
documents_of-append_to id i t [] = ground arith
documents_of-append_to id i t ((j, ts) ∷ more) = ground (arith, documents_of-append_to id i t more)

++_assoc {ℓ} : {A : Type ℓ} (xs ys zs : List A) → (xs ++ ys) ++ zs ≡ xs ++ (ys ++ zs)
++_assoc [] ys zs = refl
++_assoc (x ∷ xs) ys zs = ap (λ l. x ∷ l) (++_assoc xs ys zs)

++_nil {ℓ} : {A : Type ℓ} (xs : List A) → xs ++ [] ≡ xs
++_nil [] = refl
++_nil (x ∷ xs) = ap (λ l. x ∷ l) (++_nil xs)

grouped :
    (id : ℕ) (ids : List ℕ) (ds : List SellerDocument) (done : Grouped)
    → elem id ids ≡ true
    → documents_of id (group_documents ids ds done) ≡ documents_of id done ++ document_types id ds
unfolding document_types
grouped id ids [] done h = sym (++_nil (documents_of id done))
grouped id ids (d ∷ ds) done h = elim (Bool-cases (d.seller_id == id)) [
  | inl mine ↦
      let listed : elem d.seller_id ids ≡ true = rw ((==_iff d.seller_id id).0 mine) h in
      rw (listed, mine)
        (grouped id ids ds (append_to d.seller_id d.document_type done) h
          ∙ rw (documents_of-append_to id d.seller_id d.document_type done, mine)
              (++_assoc (documents_of id done) (d.document_type ∷ []) (document_types id ds)))
  | inr other ↦ elim (Bool-cases (elem d.seller_id ids)) [
    | inl e ↦
        rw (e, other)
          (grouped id ids ds (append_to d.seller_id d.document_type done) h
            ∙ rw (documents_of-append_to id d.seller_id d.document_type done, other) refl)
    | inr e ↦ rw (e, other) (grouped id ids ds done h)
  ]
]

answers :
    (ids : List ℕ) (all : List Seller) (ds : List SellerDocument)
    → ((id : ℕ) → elem id (ids_of all) ≡ true → elem id ids ≡ true)
    → map (λ s. to_response s (documents_of s.id (group_documents ids ds []))) all
      ≡ map (λ s. to_response s (document_types s.id ds)) all
answers ids [] ds inside = refl
answers ids (s ∷ ss) ds inside =
    let first : elem s.id ids ≡ true = inside s.id (rw (==_refl s.id) refl) in
    rw (grouped s.id ids ds [] first) (
      ap (λ l. to_response s (document_types s.id ds) ∷ l)
        (answers ids ss ds λ id h. inside id (ground arith)))

list_answer :
    (ss : List Seller) (ds : List SellerDocument)
    → answer_list ss ds ≡ map (λ s. to_response s (document_types s.id ds)) ss
unfolding answer_list
list_answer ss ds = answers (ids_of ss) ss ds λ id h. h

-- The query parameter: no filter, or a status of the vocabulary.
abbrev pub filter_by : Option SellerStatus → Option (Option SellerStatus)
filter_by none = none
filter_by (some status) = some (some status)

-- With no filter or a status of the vocabulary, the list holds the first `limit` sellers of that
-- status, 200 at most, each with the document types of its own rows, as if they were read for each
-- seller alone; a status outside the vocabulary is answered 422.
pub list_sellers_exact :
    (status : Option SellerStatus) (limit : ℕ) (db : Database)
    → (list_sellers (filter_by status) limit db
        ≡ ok (
            map
              (λ s. to_response s (document_types s.id db.documents))
              (take (min limit 200) (chosen_sellers (filter_by status) db.sellers))))
      × (list_sellers (some none) limit db ≡ http_error 422)
unfolding list_sellers
list_sellers_exact none limit db =
    (ap ok (list_answer (take (min limit 200) db.sellers) db.documents), refl)
list_sellers_exact (some status) limit db = (
  ap ok (
      list_answer (take (min limit 200) (chosen_sellers (some (some status)) db.sellers))
        db.documents),
  refl,
)
