-- ===== src/Seller/Sessions/Vetted/Planned.antt =====
-- Each plan of services/seller-service/app/services/seller_rules.py leads from a past that is true to
-- one that is.
use ecommerce_platform.Base.Int.{◌==ℤ◌, pos, ℤ}
use ecommerce_platform.Base.{
  ◌≡◌, Bool, none, true, Bool-cases, List, Option, inl, if◌then◌else◌, ℕ, inr, some, false,
}
use ecommerce_platform.Base.Text.{is_blank, strip}
use ecommerce_platform.Seller.{
  banned_event, String, submitted_event, SellerStatus, DocumentType, moves, invalid, not_allowed,
  plan_document_submission, plan_review_start, plan_review_result, plan_contract_acceptance,
  plan_suspension, plan_reinstatement, plan_ban, missing_documents, is_nothing, awaits_documents,
  registered, documents_submitted, under_review, approved, active, rejected, suspended, banned,
}
use ecommerce_platform.Seller.Table.{Database}
use ecommerce_platform.Seller.Sessions.Grows.{complete}
use ecommerce_platform.Seller.Sessions.Vetted.{Earned, Accepted}
use ecommerce_platform.Seller.Sessions.Vetted.Applied.{Told, Earns}

-- Each plan, from a status that is earned in a database that has grown since.
module _ (id : ℕ) (version : Option ℤ) (db : Database) (accepted : Accepted version id db) where
  pub review_start-Earns :
      (status : Option SellerStatus)
      → Earned status id db
      → Told (plan_review_start status) id db
      → Earns (plan_review_start status) id version db
  unfolding plan_review_start
  review_start-Earns none e t = tt
  review_start-Earns (some registered) e t = tt
  review_start-Earns (some documents_submitted) e t = ((e, t), accepted)
  review_start-Earns (some under_review) e t = tt
  review_start-Earns (some approved) e t = tt
  review_start-Earns (some active) e t = tt
  review_start-Earns (some rejected) e t = tt
  review_start-Earns (some suspended) e t = tt
  review_start-Earns (some banned) e t = tt

  pub review_result-Earns :
      (status : Option SellerStatus) (accept : Bool) (reason : String)
      → Earned status id db
      → Told (plan_review_result status accept reason) id db
      → Earns (plan_review_result status accept reason) id version db
  unfolding plan_review_result
  review_result-Earns none accept reason e t = tt
  review_result-Earns (some registered) accept reason e t = tt
  review_result-Earns (some documents_submitted) accept reason e t = tt
  review_result-Earns (some under_review) true reason e t = ((e.0, e.1, t), accepted)
  review_result-Earns (some under_review) false reason e t = elim (Bool-cases (is_blank reason)) [
    | inl b ↦ rw b tt
    | inr b ↦ rw b (e, accepted)
  ]
  review_result-Earns (some approved) accept reason e t = tt
  review_result-Earns (some active) accept reason e t = tt
  review_result-Earns (some rejected) accept reason e t = tt
  review_result-Earns (some suspended) accept reason e t = tt
  review_result-Earns (some banned) accept reason e t = tt

  pub suspension-Earns :
      (status : Option SellerStatus) (reason : String)
      → Earned status id db
      → Earns (plan_suspension status reason) id version db
  unfolding plan_suspension
  suspension-Earns none reason e = tt
  suspension-Earns (some registered) reason e = tt
  suspension-Earns (some documents_submitted) reason e = tt
  suspension-Earns (some under_review) reason e = tt
  suspension-Earns (some approved) reason e = tt
  suspension-Earns (some active) reason e = elim (Bool-cases (is_blank reason)) [
    | inl b ↦ rw b tt
    | inr b ↦ rw b (e, accepted)
  ]
  suspension-Earns (some rejected) reason e = tt
  suspension-Earns (some suspended) reason e = tt
  suspension-Earns (some banned) reason e = tt

  pub reinstatement-Earns :
      (status : Option SellerStatus)
      → Earned status id db
      → Earns (plan_reinstatement status) id version db
  unfolding plan_reinstatement
  reinstatement-Earns none e = tt
  reinstatement-Earns (some registered) e = tt
  reinstatement-Earns (some documents_submitted) e = tt
  reinstatement-Earns (some under_review) e = tt
  reinstatement-Earns (some approved) e = tt
  reinstatement-Earns (some active) e = tt
  reinstatement-Earns (some rejected) e = tt
  reinstatement-Earns (some suspended) e = (e, accepted)
  reinstatement-Earns (some banned) e = tt

  pub ban_if :
      (blank : Bool) (text : String)
      → Earns (if blank then invalid else moves banned banned_event text) id version db
  ban_if true text = tt
  ban_if false text = (tt, accepted)

  pub ban-Earns :
      (status : Option SellerStatus) (reason : String)
      → Earns (plan_ban status reason) id version db
  unfolding plan_ban
  ban-Earns none reason = tt
  ban-Earns (some registered) reason = ban_if (is_blank reason) (strip reason)
  ban-Earns (some documents_submitted) reason = ban_if (is_blank reason) (strip reason)
  ban-Earns (some under_review) reason = ban_if (is_blank reason) (strip reason)
  ban-Earns (some approved) reason = ban_if (is_blank reason) (strip reason)
  ban-Earns (some active) reason = ban_if (is_blank reason) (strip reason)
  ban-Earns (some rejected) reason = ban_if (is_blank reason) (strip reason)
  ban-Earns (some suspended) reason = ban_if (is_blank reason) (strip reason)
  ban-Earns (some banned) reason = tt

  pub submission_if :
      (submitted : List DocumentType) (awaits : Bool)
      → (is_nothing (missing_documents submitted) ≡ true → complete id db ≡ true)
      → Earns
          (if awaits
            then if is_nothing (missing_documents submitted)
              then moves documents_submitted submitted_event "queued for review"
              else invalid
            else not_allowed)
          id
          version
          db
  submission_if submitted false full = tt
  submission_if submitted true full = elim (Bool-cases (is_nothing (missing_documents submitted))) [
    | inl e ↦ rw e (full e, accepted)
    | inr e ↦ rw e tt
  ]

  pub submission-Earns :
      (status : Option SellerStatus) (submitted : List DocumentType)
      → (is_nothing (missing_documents submitted) ≡ true → complete id db ≡ true)
      → Earns (plan_document_submission status submitted) id version db
  unfolding plan_document_submission
  submission-Earns none submitted full = tt
  submission-Earns (some status) submitted full =
      submission_if submitted (awaits_documents status) full

pub acceptance-Earns :
    (id : ℕ) (version : ℤ) (db : Database) (status : Option SellerStatus)
    → Earned status id db
    → Told (plan_contract_acceptance status version) id db
    → Earns (plan_contract_acceptance status version) id (some version) db
unfolding plan_contract_acceptance
acceptance-Earns id version db none e t = tt
acceptance-Earns id version db (some registered) e t = tt
acceptance-Earns id version db (some documents_submitted) e t = tt
acceptance-Earns id version db (some under_review) e t = tt
acceptance-Earns id version db (some approved) e t = elim (Bool-cases (version ==ℤ pos 1)) [
  | inl v ↦ rw v (e, (v, rw v at t))
  | inr v ↦ rw v tt
]
acceptance-Earns id version db (some active) e t = elim (Bool-cases (version ==ℤ pos 1)) [
  | inl v ↦ rw v (e, (v, rw v at t))
  | inr v ↦ rw v tt
]
acceptance-Earns id version db (some rejected) e t = tt
acceptance-Earns id version db (some suspended) e t = tt
acceptance-Earns id version db (some banned) e t = tt
