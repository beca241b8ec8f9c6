-- ===== src/Seller/Sessions/Refused.antt =====
-- What is answered to a banned seller's requests, and what they change:
-- services/seller-service/app/services/seller_service.py.
use ecommerce_platform.Seller.Sessions.Shape.{find-save, handle-Shape, Shape-other}
use mathlib.Core.Path.{subst}
use ecommerce_platform.Seller.Sessions.Vetted.Loaded.{find_seller-id}
use ecommerce_platform.Base.{
  ==_iff, sym, ap, Option-cases, ◌∙◌, ◌==◌, true, ==_refl, Bool-cases, false, ℕ, Bool, some, refl,
  inr, ◌⊎◌, ◌≡◌, inl,
}
use ecommerce_platform.Base.Http.{Response, http_error}
use ecommerce_platform.Seller.{
  banned, plan_document_submission, plan_review_start, plan_review_result, plan_contract_acceptance,
  plan_suspension, plan_reinstatement, plan_ban,
}
use ecommerce_platform.Seller.Table.{
  document_types, status_code, find_seller, update_row, Seller, Database,
}
use ecommerce_platform.Seller.Service.{
  SellerResponse, load, changed_location, emit, set_location, Loaded, apply, start_review,
  record_review_result, accept_contract, suspend_seller, reinstate_seller, ban_seller,
}
use ecommerce_platform.Seller.Service.Documents.{submit_documents}
use ecommerce_platform.Seller.Sessions.{
  serve, serve, Location, Request, handle, send_documents, begin_review, reinstate, review_result,
  accept, suspend, ban, locate,
}

-- What is answered to a banned seller's requests.
abbrev pub Refuses : Bool → Loaded → Request → Database → Type 0
Refuses commits l request db =
    (handle commits l request db ≡ (http_error 409, db))
    ⊎ ((given : Location) × (request ≡ locate given))

pub banned-Refuses :
    (commits : Bool) (l : Loaded) (request : Request) (db : Database)
    → l.seller.status ≡ some banned
    → Refuses commits l request db
unfolding handle submit_documents start_review record_review_result accept_contract suspend_seller
    reinstate_seller ban_seller plan_document_submission plan_review_start plan_review_result
    plan_contract_acceptance plan_suspension plan_reinstatement plan_ban apply
banned-Refuses commits l (send_documents request) db e = inl (rw e refl)
banned-Refuses commits l begin_review db e = inl (rw e refl)
banned-Refuses commits l reinstate db e = inl (rw e refl)
banned-Refuses commits l (review_result approve reason) db e = inl (rw e refl)
banned-Refuses commits l (accept version) db e = inl (rw e refl)
banned-Refuses commits l (suspend reason) db e = inl (rw e refl)
banned-Refuses commits l (ban reason) db e = inl (rw e refl)
banned-Refuses commits l (locate given) db e = inr (given, refl)

-- The row that is found is banned.
abbrev pub IsBanned : ℕ → Database → Type 0
IsBanned id db = (s : Seller) × (find_seller id db.sellers ≡ some s) × (s.status ≡ some banned)

pub located_status :
    (loaded : Seller) (given : Location) (s : Seller)
    → (update_row loaded (record loaded { location = given }) s).status ≡ s.status
unfolding update_row
located_status loaded given s = rw (==_refl (status_code loaded.status)) refl

pub locate-IsBanned :
    (commits : Bool) (l : Loaded) (given : Location) (db : Database) (id : ℕ) (s : Seller)
    → (l.seller.id == id) ≡ true
    → find_seller id db.sellers ≡ some s
    → s.status ≡ some banned
    → IsBanned id (set_location commits l given db).1
unfolding set_location emit
locate-IsBanned false l given db id s same f b = (s, f, b)
locate-IsBanned true l given db id s same f b =
    let seller : Seller = record l.seller { location = changed_location given l.seller.location } in
    (
      update_row l.seller seller s,
      find-save id l.seller seller db.sellers ∙ rw (same, f) refl,
      located_status l.seller (changed_location given l.seller.location) s ∙ b,
    )

pub handle-IsBanned :
    (commits : Bool) (l : Loaded) (request : Request) (db : Database) (id : ℕ) (s : Seller)
    → find_seller l.seller.id db.sellers ≡ some l.seller
    → find_seller id db.sellers ≡ some s
    → s.status ≡ some banned
    → IsBanned id (handle commits l request db).1
unfolding handle
handle-IsBanned commits l request db id s own f b = elim (Bool-cases (l.seller.id == id)) [
  | inr other ↦ (
    s,
    Shape-other id l.seller db (handle commits l request db).1 (handle-Shape commits l request db)
          other
        ∙ f,
    b,
  )
  | inl mine ↦
      let same : find_seller id db.sellers ≡ some l.seller =
        subst (λ n. find_seller n db.sellers ≡ some l.seller) ((==_iff l.seller.id id).0 mine)
          own in
      let there : some s ≡ some l.seller = sym f ∙ same in
      let equal : s ≡ l.seller = cc there in
      let b' : l.seller.status ≡ some banned = ap (λ (x : Seller). x.status) (sym equal) ∙ b in
      elim (banned-Refuses commits l request db b') [
        | inl refused ↦
            subst (λ (r : Response SellerResponse × Database). IsBanned id r.1) (sym refused)
              (s, f, b)
        | inr (given, e) ↦
            subst (λ r. IsBanned id (handle commits l r db).1) (sym e) (located mine given)
      ]
]
  where
    located :
        (l.seller.id == id) ≡ true
        → (given : Location) → IsBanned id (set_location commits l given db).1
    located mine given = locate-IsBanned commits l given db id s mine f b

pub act-IsBanned :
    (commits : Bool) (other : ℕ) (request : Request) (db : Database) (id : ℕ)
    → IsBanned id db
    → IsBanned id (serve commits other request db).1
unfolding serve load
act-IsBanned commits other request db id (s, f, b) =
    elim (Option-cases (find_seller other db.sellers)) [
      | inl e ↦ rw (serve, load, e) (s, f, b)
      | inr (s', e) ↦
          let l : Loaded = record { seller = s'; documents = document_types other db.documents } in
          let own : find_seller s'.id db.sellers ≡ some s' =
            subst (λ n. find_seller n db.sellers ≡ some s')
              (sym (find_seller-id other db.sellers s' e)) e in
          rw (serve, load, e) (handle-IsBanned commits l request db id s own f b)
    ]
