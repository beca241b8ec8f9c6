-- ===== src/Seller/Sessions/Vetted/Listed.antt =====
-- Who may list products, after any overlapping requests to seller-service:
-- services/seller-service/app/services/seller_service.py.
use ecommerce_platform.Base.Int.{ℤ}
use ecommerce_platform.Base.{
  ap, ◌∙◌, arith, true, [], inl, none, ℕ, inr, Option, Option-cases, List, some, ◌≡◌,
}
use ecommerce_platform.Seller.{
  SellerStatus, may_list_products, missing_documents, registered, documents_submitted, under_review,
  approved, active, rejected, suspended, banned, review_started_event, approved_event,
  activated_event, national_id, trade_licence,
}
use ecommerce_platform.Seller.Table.{Database, find_seller, document_types}
use ecommerce_platform.Seller.Sessions.{http_error, ok, Event, init, run}
use ecommerce_platform.Seller.Sessions.Grows.{told, complete, types-sent}
use ecommerce_platform.Seller.Sessions.Vetted.{Earned, Accepted}
use mathlib.Core.Path.{subst}
use ecommerce_platform.Seller.Service.Queries.{SellerPermission, get_permission, permission}
use ecommerce_platform.Seller.Sessions.Vetted.Loaded.{find_seller-Vetted, find_seller-id}
use ecommerce_platform.Seller.Sessions.Vetted.Runs.{run-IsTrue, init-IsTrue}

listing :
    (db : Database) (id : ℕ) (status : Option SellerStatus) (version : Option ℤ)
    → may_list_products status version ≡ true
    → Earned status id db
    → Accepted version id db
    → (complete id db ≡ true)
      × (told review_started_event id db ≡ true)
      × (told approved_event id db ≡ true)
      × (told activated_event id db ≡ true)
unfolding may_list_products
listing db id none version l e a = cc l
listing db id (some registered) version l e a = cc l
listing db id (some documents_submitted) version l e a = cc l
listing db id (some under_review) version l e a = cc l
listing db id (some approved) version l e a = cc l
listing db id (some active) none l e a = cc l
listing db id (some active) (some v) l (c, r, p) (v1, t) = (c, r, p, t)
listing db id (some rejected) version l e a = cc l
listing db id (some suspended) version l e a = cc l
listing db id (some banned) version l e a = cc l

none_missing :
    (id : ℕ) (db : Database)
    → complete id db ≡ true
    → missing_documents (document_types id db.documents) ≡ []
unfolding missing_documents
none_missing id db h =
    rw (types-sent national_id id db.documents, types-sent trade_licence id db.documents)
      (ground arith)

-- After any sequence of requests from empty tables, overlapping in any way and whatever commits fail:
-- a seller to whom get_permission answers that it may list products has no required document
-- missing, and the outbox has its review's start, its approval and its activation.
pub listed_is_vetted :
    (events : List Event) (id : ℕ) (p : SellerPermission)
    → get_permission id (run events init).db ≡ ok p
    → p.may_list ≡ true
    → let db = (run events init).db in
      (missing_documents (document_types id db.documents) ≡ [])
      × (told review_started_event id db ≡ true)
      × (told approved_event id db ≡ true)
      × (told activated_event id db ≡ true)
unfolding get_permission permission
listed_is_vetted events id p answer may =
    elim (Option-cases (find_seller id (run events init).db.sellers)) [
      | inl e ↦ let absent : http_error 404 ≡ ok p = rw (get_permission, e) at answer in cc absent
      | inr (s, e) ↦
          let db = (run events init).db in
          let shown : ok (permission s) ≡ ok p = rw (get_permission, e) at answer in
          let same : permission s ≡ p = cc shown in
          let may' : (permission s).may_list ≡ true =
            ap (λ (q : SellerPermission). q.may_list) same ∙ may in
          let (earned, accepted) =
            find_seller-Vetted db id db.sellers s (run-IsTrue events init init-IsTrue).rows e in
          let (c, r, a, t) =
            listing db s.id s.status s.accepted_contract_version may' earned accepted in
          subst
            (λ i.
              (missing_documents (document_types i db.documents) ≡ [])
              × (told review_started_event i db ≡ true)
              × (told approved_event i db ≡ true)
              × (told activated_event i db ≡ true))
            (find_seller-id id db.sellers s e) (none_missing s.id db c, r, a, t)
    ]
