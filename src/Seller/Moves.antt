-- ===== src/Seller/Moves.antt =====
-- The transition table and the plan functions of
-- services/seller-service/app/services/seller_rules.py.
use ecommerce_platform.Base.Int.{ℤ, pos}
use ecommerce_platform.Base.{◌↔◌, arith, any, true, List, Option, Bool, some, ◌≡◌, false}
use ecommerce_platform.Seller.{
  missing_documents, String, SellerStatus, Decision, DocumentType, moves, plan_document_submission,
  plan_review_start, plan_review_result, plan_contract_acceptance, plan_suspension,
  plan_reinstatement, plan_ban, required_documents, registered, documents_submitted, under_review,
  approved, active, rejected, suspended, banned, transitions, reachable_statuses,
}
use ecommerce_platform.Seller.Table.{same_status}

-- A call of a plan function, with what it is given besides the status.
pub data Action : Type 0 where
  submission : List DocumentType → Action
  review_start reinstatement : Action
  review_result : Bool → String → Action
  acceptance : ℤ → Action
  suspension banning : String → Action

unfoldable pub plan : Action → Option SellerStatus → Decision
unfolding plan_document_submission plan_review_start plan_review_result plan_contract_acceptance
    plan_suspension plan_reinstatement plan_ban
plan (submission submitted) status = plan_document_submission status submitted
plan review_start status = plan_review_start status
plan reinstatement status = plan_reinstatement status
plan (review_result accept reason) status = plan_review_result status accept reason
plan (acceptance version) status = plan_contract_acceptance status version
plan (suspension reason) status = plan_suspension status reason
plan (banning reason) status = plan_ban status reason

abbrev pub leads_to : SellerStatus → Decision → Bool
leads_to t (moves status event text) = same_status (some status) (some t)
leads_to t _ = false

abbrev pub has_status : SellerStatus → List SellerStatus → Bool
has_status t ss = any (λ s. same_status (some s) (some t)) ss

-- What each decision leads to is in the table, whichever way its test falls.
plan_in_table :
    (s t : SellerStatus) (a : Action)
    → leads_to t (plan a (some s)) ≡ true
    → has_status t (reachable_statuses (some s)) ≡ true
unfolding plan plan_document_submission plan_review_start plan_review_result
    plan_contract_acceptance plan_suspension plan_reinstatement plan_ban reachable_statuses
    transitions
plan_in_table s t (submission ds) h = ground arith
plan_in_table s t review_start h = ground arith
plan_in_table s t reinstatement h = ground arith
plan_in_table s t (review_result ok reason) h = ground arith
plan_in_table s t (acceptance v) h = ground arith
plan_in_table s t (suspension reason) h = ground arith
plan_in_table s t (banning reason) h = ground arith

-- A call that leads from the one status to the other, for each pair in the table.
abbrev call : SellerStatus → SellerStatus → Action
call suspended active = reinstatement
call s documents_submitted = submission required_documents
call s under_review = review_start
call s approved = review_result true ""
call s rejected = review_result false "reason"
call s suspended = suspension "reason"
call s banned = banning "reason"
call s active = acceptance (pos 1)
call s registered = review_start

table_in_plan :
    (s t : SellerStatus)
    → has_status t (reachable_statuses (some s)) ≡ true
    → leads_to t (plan (call s t) (some s)) ≡ true
unfolding plan plan_document_submission plan_review_start plan_review_result
    plan_contract_acceptance plan_suspension plan_reinstatement plan_ban reachable_statuses
    transitions missing_documents
table_in_plan s t h = ground arith

-- The transition table is exact: it has a status among those reachable from another if and only if
-- some call of a plan function leads from the one to the other.
pub transitions_exact :
    (s t : SellerStatus)
    → (has_status t (reachable_statuses (some s)) ≡ true)
      ↔ ((a : Action) × (leads_to t (plan a (some s)) ≡ true))
transitions_exact s t = (λ h. (call s t, table_in_plan s t h), λ (a, h). plan_in_table s t a h)
