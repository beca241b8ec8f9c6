-- ===== src/Seller/Sessions/Vetted/Loaded.antt =====
-- What a request of services/seller-service/app/services/seller_service.py has read of its seller
-- stays true.
use mathlib.Core.Path.{subst}
use ecommerce_platform.Base.{
  found_here, arith, ◌++◌, ◌∙◌, ==_iff, Option-cases, ap, ◌⊎◌, sym, any, All, ◌∷◌, ◌==◌, [], ◌≡◌,
  Bool, none, true, Bool-cases, List, inl, ℕ, inr, some,
}
use ecommerce_platform.Seller.{
  DocumentType, missing_documents, is_nothing, same_document, national_id, trade_licence,
}
use ecommerce_platform.Seller.Table.{Database, Seller, document_types, find_seller}
use ecommerce_platform.Seller.Service.{Loaded, load}
use ecommerce_platform.Seller.Sessions.Grows.{sent, Grows, types-sent}
use ecommerce_platform.Seller.Sessions.Vetted.{Vetted, Vetted-Grows}

-- What a request has read stays true.
pub record IsLoaded (db : Database) (l : Loaded) : Type 0 where
  pub row : Vetted db l.seller
  pub documents :
      (t : DocumentType) → any (same_document t) l.documents ≡ true → sent t l.seller.id db ≡ true

pub IsLoaded-Grows :
    (before after : Database) (l : Loaded)
    → Grows before after
    → IsLoaded before l
    → IsLoaded after l
IsLoaded-Grows before after l g h = record {
  row = Vetted-Grows before after l.seller g h.row;
  documents = λ t k. g.docs t l.seller.id (h.documents t k);
}

pub find_seller-Vetted :
    (db : Database) (id : ℕ) (ss : List Seller) (s : Seller)
    → All (Vetted db) ss
    → find_seller id ss ≡ some s
    → Vetted db s
find_seller-Vetted db id [] s h f = cc f
find_seller-Vetted db id (x ∷ xs) s (h, t) f = elim (Bool-cases (x.id == id)) [
  | inl e ↦ let equal : x ≡ s = found_here _ _ e f in subst (Vetted db) equal h
  | inr e ↦ find_seller-Vetted db id xs s t (rw e at f)
]

pub find_seller-id :
    (id : ℕ) (ss : List Seller) (s : Seller) → find_seller id ss ≡ some s → s.id ≡ id
find_seller-id id [] s f = cc f
find_seller-id id (x ∷ xs) s f = elim (Bool-cases (x.id == id)) [
  | inl e ↦
      let equal : x ≡ s = found_here _ _ e f in
      ap (λ (y : Seller). y.id) (sym equal) ∙ (==_iff x.id id).0 e
  | inr e ↦ find_seller-id id xs s (rw e at f)
]

pub seller-IsLoaded :
    (db : Database) (id : ℕ) (s : Seller)
    → find_seller id db.sellers ≡ some s
    → All (Vetted db) db.sellers
    → IsLoaded db (record { seller = s; documents = document_types id db.documents })
seller-IsLoaded db id s f h = record {
  row = find_seller-Vetted db id db.sellers s h f;
  documents = λ t k. rw (find_seller-id id db.sellers s f) (sym (types-sent t id db.documents) ∙ k);
}

pub load-IsLoaded :
    (db : Database) (id : ℕ) (l : Loaded)
    → All (Vetted db) db.sellers
    → load id db ≡ some l
    → IsLoaded db l
unfolding load
load-IsLoaded db id l h f = elim (Option-cases (find_seller id db.sellers)) [
  | inl e ↦ let absent : none ≡ some l = rw (load, e) at f in cc absent
  | inr (s, e) ↦
      let there : some (record { seller = s; documents = document_types id db.documents })
          ≡ some l =
        rw (load, e) at f in
      let equal : record { seller = s; documents = document_types id db.documents } ≡ l =
        cc there in
      subst (IsLoaded db) equal (seller-IsLoaded db id s e h)
]

pub any-append {ℓ} :
    {A : Type ℓ} (p : A → Bool) (xs ys : List A)
    → any p (xs ++ ys) ≡ true
    → (any p xs ≡ true) ⊎ (any p ys ≡ true)
any-append p [] ys h = inr h
any-append p (x ∷ xs) ys h = ground (arith, any-append p xs ys)

pub nothing_missing :
    (submitted : List DocumentType)
    → is_nothing (missing_documents submitted) ≡ true
    → (any (same_document national_id) submitted ≡ true)
      × (any (same_document trade_licence) submitted ≡ true)
unfolding missing_documents
nothing_missing submitted h = ground arith
