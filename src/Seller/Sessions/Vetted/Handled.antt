-- ===== src/Seller/Sessions/Vetted/Handled.antt =====
-- Each handler of services/seller-service/app/services/seller_service.py keeps every seller's past
-- true, and so does any run of overlapping requests.
use ecommerce_platform.Base.Int.{ℤ}
use ecommerce_platform.Base.{
  ◌++◌, any, All, [], ◌≡◌, Bool, none, true, List, Option, inl, if◌then◌else◌, ℕ, inr, some, refl,
  false,
}
use ecommerce_platform.Seller.{
  String, Decision, DocumentType, plan_document_submission, plan_review_start, plan_review_result,
  plan_contract_acceptance, plan_suspension, plan_reinstatement, plan_ban, same_document,
  national_id, trade_licence, location_event,
}
use ecommerce_platform.Seller.Table.{Database, Seller, Location, save}
use ecommerce_platform.Seller.Service.{
  Loaded, apply, emit, start_review, record_review_result, accept_contract, suspend_seller,
  reinstate_seller, ban_seller, set_location, detail, changed_location,
}
use ecommerce_platform.Seller.Service.Documents.{
  is_document, submit_documents, keys_of, as_dict, put_documents,
}
use ecommerce_platform.Seller.Sessions.Grows.{
  complete, Grows, Grows-refl, Grows-trans, put-sent, sent-put,
}
use ecommerce_platform.Seller.Sessions.Vetted.{
  Earned, Accepted, Vetted, Earned-Grows, Accepted-Grows, Vetted-Grows, All-Grows, save-Vetted,
}
use ecommerce_platform.Seller.Sessions.Vetted.Applied.{
  Kept, Told, Earns, applied_db, applied-Grows, applied-Told, apply-Kept, emit-Grows,
}
use ecommerce_platform.Seller.Sessions.Vetted.Planned.{
  review_start-Earns, review_result-Earns, suspension-Earns, reinstatement-Earns, ban-Earns,
  submission-Earns, acceptance-Earns,
}
use ecommerce_platform.Seller.Sessions.Vetted.Loaded.{IsLoaded, any-append, nothing_missing}

module _ (db : Database) (l : Loaded) (h : IsLoaded db l) (rows : All (Vetted db) db.sellers)
    (commits : Bool) where
  -- A decision on the loaded row, where what the handler writes besides it only adds.
  settled-Kept :
      (decision : Decision) (reason : Option String) (written : Database)
      → Grows db written
      → All (Vetted db) written.sellers
      → ((after : Database)
          → Grows written after
          → Earned l.seller.status l.seller.id after
          → Accepted l.seller.accepted_contract_version l.seller.id after
          → Told decision l.seller.id after
          → Earns decision l.seller.id l.seller.accepted_contract_version after)
      → Kept db (apply commits l.seller l.seller decision reason written db).1
  settled-Kept decision reason written grows kept earns =
      let after = applied_db l.seller l.seller decision reason written in
      let later = applied-Grows l.seller l.seller decision reason written in
      let g : Grows db after = Grows-trans db written after grows later in
      apply-Kept l.seller l.seller reason written db refl grows kept rows commits decision (
        earns after later (Earned-Grows db after l.seller.status l.seller.id g h.row.0)
          (Accepted-Grows db after l.seller.accepted_contract_version l.seller.id g h.row.1)
          (applied-Told l.seller l.seller decision reason written))

  -- The types that the decision is about are rows once the request's are written.
  resulting-sent :
      (t : DocumentType) (incoming : List (DocumentType × ℕ))
      → any (same_document t) (l.documents ++ keys_of incoming) ≡ true
      → any (λ d. is_document l.seller.id t d) (put_documents l.seller.id incoming db.documents)
        ≡ true
  resulting-sent t incoming k =
      elim (any-append (same_document t) l.documents (keys_of incoming) k) [
        | inl old ↦ sent-put t l.seller.id l.seller.id incoming db.documents (h.documents t old)
        | inr new ↦ put-sent t l.seller.id incoming db.documents new
      ]

  resulting_complete :
      (request : List (DocumentType × ℕ)) (after : Database)
      → let incoming = as_dict request [] in
        Grows (record db { documents = put_documents l.seller.id incoming db.documents }) after
        → (any (same_document national_id) (l.documents ++ keys_of incoming) ≡ true)
          × (any (same_document trade_licence) (l.documents ++ keys_of incoming) ≡ true)
        → complete l.seller.id after ≡ true
  resulting_complete request after later (n, t) =
      let incoming = as_dict request [] in
      let id = l.seller.id in
      rw
        (
          later.docs national_id id (resulting-sent national_id incoming n),
          later.docs trade_licence id (resulting-sent trade_licence incoming t),
        )
        refl

  pub submit_documents-Kept :
      (request : List (DocumentType × ℕ)) → Kept db (submit_documents commits l request db).1
  unfolding submit_documents
  submit_documents-Kept request =
      let incoming = as_dict request [] in
      let resulting = l.documents ++ keys_of incoming in
      let id = l.seller.id in
      let written : Database = record db { documents = put_documents id incoming db.documents } in
      let grows : Grows db written = record {
        docs = λ t i k. sent-put t i id incoming db.documents k;
        events = λ e i k. k;
      } in
      settled-Kept (plan_document_submission l.seller.status resulting) (some "") written grows rows
        λ after later e a t.
          submission-Earns id l.seller.accepted_contract_version after a l.seller.status resulting
            λ full. resulting_complete request after later (nothing_missing resulting full)

  pub start_review-Kept : Kept db (start_review commits l db).1
  unfolding start_review
  start_review-Kept =
      settled-Kept (plan_review_start l.seller.status) none db (Grows-refl db) rows
        λ after later e a t.
          review_start-Earns l.seller.id l.seller.accepted_contract_version after a l.seller.status
            e t

  pub record_review_result-Kept :
      (accept : Bool) (reason : Option String)
      → Kept db (record_review_result commits l accept reason db).1
  unfolding record_review_result
  record_review_result-Kept accept reason =
      let text = elim reason as (λ _. String) [ none ↦ "" | some r ↦ r ] in
      let decision = plan_review_result l.seller.status accept text in
      settled-Kept decision (if accept then none else some (detail decision)) db (Grows-refl db)
        rows
        λ after later e a t.
          review_result-Earns l.seller.id l.seller.accepted_contract_version after a l.seller.status
            accept text e t

  pub suspend_seller-Kept : (reason : String) → Kept db (suspend_seller commits l reason db).1
  unfolding suspend_seller
  suspend_seller-Kept reason =
      let decision = plan_suspension l.seller.status reason in
      settled-Kept decision (some (detail decision)) db (Grows-refl db) rows λ after later e a t.
        suspension-Earns l.seller.id l.seller.accepted_contract_version after a l.seller.status
          reason e

  pub reinstate_seller-Kept : Kept db (reinstate_seller commits l db).1
  unfolding reinstate_seller
  reinstate_seller-Kept =
      settled-Kept (plan_reinstatement l.seller.status) (some "") db (Grows-refl db) rows
        λ after later e a t.
          reinstatement-Earns l.seller.id l.seller.accepted_contract_version after a l.seller.status
            e

  pub ban_seller-Kept : (reason : String) → Kept db (ban_seller commits l reason db).1
  unfolding ban_seller
  ban_seller-Kept reason =
      let decision = plan_ban l.seller.status reason in
      settled-Kept decision (some (detail decision)) db (Grows-refl db) rows λ after later e a t.
        ban-Earns l.seller.id l.seller.accepted_contract_version after a l.seller.status reason

  pub accept_contract-Kept : (version : ℤ) → Kept db (accept_contract commits l version db).1
  unfolding accept_contract
  accept_contract-Kept version =
      let seller : Seller = record l.seller { accepted_contract_version = some version } in
      let decision = plan_contract_acceptance l.seller.status version in
      let after = applied_db l.seller seller decision none db in
      let g : Grows db after = applied-Grows l.seller seller decision none db in
      apply-Kept l.seller seller none db db refl (Grows-refl db) rows rows commits decision (
        acceptance-Earns l.seller.id version after l.seller.status
          (Earned-Grows db after l.seller.status l.seller.id g h.row.0)
          (applied-Told l.seller seller decision none db))

  pub set_location-Kept : (given : Location) → Kept db (set_location commits l given db).1
  unfolding set_location
  set_location-Kept given = elim commits as (λ c. Kept db (set_location c l given db).1) [
    | false ↦ (Grows-refl db, rows)
    | true ↦
        let seller : Seller = record l.seller {
          location = changed_location given l.seller.location;
        } in
        let after =
          emit seller location_event (record db { sellers = save l.seller seller db.sellers }) in
        let g : Grows db after =
          emit-Grows seller location_event db (save l.seller seller db.sellers) in
        (
          g,
          save-Vetted after l.seller seller db.sellers refl (Vetted-Grows db after l.seller g h.row)
              (All-Grows db after db.sellers g rows),
        )
  ]
