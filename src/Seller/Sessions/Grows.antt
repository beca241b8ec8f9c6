-- ===== src/Seller/Sessions/Grows.antt =====
-- What no request to seller-service takes away: a document type that a seller has sent, and an event
-- in the outbox (services/seller-service/app/services/seller_service.py).
use ecommerce_platform.Base.{
  Bool, inr, inl, arith, any, ◌==◌, ◌&&◌, ◌⊎◌, keep_if, ℕ, ◌++◌, ◌≡◌, List, not, Bool-cases, ◌∷◌,
  refl, [], true,
}
use ecommerce_platform.Seller.{
  DocumentType, SellerEvent, same_document, document_code, registered_event, submitted_event,
  review_started_event, approved_event, rejected_event, activated_event, suspended_event,
  reinstated_event, banned_event, location_event, national_id, trade_licence,
}
use ecommerce_platform.Seller.Table.{Database, OutboxMessage, SellerDocument, document_types}
use ecommerce_platform.Seller.Service.Documents.{
  keys_of, replace_document, put_documents, is_document,
}

abbrev pub event_code : SellerEvent → ℕ
event_code registered_event = 0
event_code submitted_event = 1
event_code review_started_event = 2
event_code approved_event = 3
event_code rejected_event = 4
event_code activated_event = 5
event_code suspended_event = 6
event_code reinstated_event = 7
event_code banned_event = 8
event_code location_event = 9

abbrev pub tells : SellerEvent → ℕ → OutboxMessage → Bool
tells event id m = event_code m.event == event_code event && m.seller_id == id

-- The outbox has this event of this seller.
abbrev pub told : SellerEvent → ℕ → Database → Bool
told event id db = any (tells event id) db.outbox

abbrev pub sent : DocumentType → ℕ → Database → Bool
sent t id db = any (λ d. is_document id t d) db.documents

-- The required documents have been sent.
abbrev pub complete : ℕ → Database → Bool
complete id db = sent national_id id db && sent trade_licence id db

pub record Grows (before after : Database) : Type 0 where
  pub docs : (t : DocumentType) (id : ℕ) → sent t id before ≡ true → sent t id after ≡ true
  pub events : (e : SellerEvent) (id : ℕ) → told e id before ≡ true → told e id after ≡ true

pub Grows-refl : (db : Database) → Grows db db
Grows-refl db = record { docs = λ t id h. h; events = λ e id h. h }

pub Grows-trans : (a b c : Database) → Grows a b → Grows b c → Grows a c
Grows-trans a b c g h = record {
  docs = λ t id k. h.docs t id (g.docs t id k);
  events = λ e id k. h.events e id (g.events e id k);
}

pub any-append_left {ℓ} :
    {A : Type ℓ} (p : A → Bool) (xs ys : List A) → any p xs ≡ true → any p (xs ++ ys) ≡ true
any-append_left p [] ys h = cc h
any-append_left p (x ∷ xs) ys h = ground (arith, any-append_left p xs ys)

pub any-append_right {ℓ} :
    {A : Type ℓ} (p : A → Bool) (xs ys : List A) → any p ys ≡ true → any p (xs ++ ys) ≡ true
any-append_right p [] ys h = h
any-append_right p (x ∷ xs) ys h = ground (arith, any-append_right p xs ys h)

-- A row that is dropped is one of the same seller and type as the row that is added.
sent-keep :
    (t u : DocumentType) (id i : ℕ) (ds : List SellerDocument)
    → any (λ d. is_document id t d) ds ≡ true
    → (any (λ d. is_document id t d) (keep_if (λ d. not (is_document i u d)) ds) ≡ true)
      ⊎ ((i ≡ id) × (document_code u ≡ document_code t))
sent-keep t u id i [] h = cc h
sent-keep t u id i (d ∷ ds) h = ground (arith, sent-keep t u id i ds)

pub sent-replace :
    (t u : DocumentType) (id i media : ℕ) (ds : List SellerDocument)
    → any (λ d. is_document id t d) ds ≡ true
    → any (λ d. is_document id t d) (replace_document i u media ds) ≡ true
unfolding replace_document
sent-replace t u id i media ds h =
    let kept = keep_if (λ d. not (is_document i u d)) ds in
    let p = λ (d : SellerDocument). is_document id t d in
    let new : SellerDocument = record { seller_id = i; document_type = u; media_id = media } in
    elim (sent-keep t u id i ds h) [
      | inl k ↦ any-append_left p kept (new ∷ []) k
      | inr (e, c) ↦ any-append_right p kept (new ∷ []) (ground arith)
    ]

pub sent-put :
    (t : DocumentType) (id i : ℕ) (incoming : List (DocumentType × ℕ)) (ds : List SellerDocument)
    → any (λ d. is_document id t d) ds ≡ true
    → any (λ d. is_document id t d) (put_documents i incoming ds) ≡ true
unfolding put_documents
sent-put t id i [] ds h = h
sent-put t id i ((u, media) ∷ more) ds h =
    sent-put t id i more (replace_document i u media ds) (sent-replace t u id i media ds h)

-- What is put is there.
pub put-sent :
    (t : DocumentType) (i : ℕ) (incoming : List (DocumentType × ℕ)) (ds : List SellerDocument)
    → any (same_document t) (keys_of incoming) ≡ true
    → any (λ d. is_document i t d) (put_documents i incoming ds) ≡ true
unfolding put_documents replace_document
put-sent t i [] ds h = cc h
put-sent t i ((u, media) ∷ more) ds h =
    let kept = keep_if (λ d. not (is_document i u d)) ds in
    let new : SellerDocument = record { seller_id = i; document_type = u; media_id = media } in
    elim (Bool-cases (same_document t u)) [
      | inl e ↦
          sent-put t i i more (kept ++ new ∷ [])
            (any-append_right (λ d. is_document i t d) kept (new ∷ []) (ground arith))
      | inr e ↦ put-sent t i more (kept ++ new ∷ []) (ground arith)
    ]

-- The types that a request has read are rows of the table.
pub types-sent :
    (t : DocumentType) (id : ℕ) (ds : List SellerDocument)
    → any (same_document t) (document_types id ds) ≡ any (λ d. is_document id t d) ds
unfolding document_types
types-sent t id [] = refl
types-sent t id (d ∷ ds) = ground (arith, types-sent t id ds)
