-- ===== src/Seller.antt =====
-- Onboarding decisions: services/seller-service/app/services/seller_rules.py.
-- A stored status is `some` of the vocabulary, or `none` where the text is outside it, as _as_status
-- makes it. The texts of refusals are left out.
pub mod Moves
pub mod Table
pub mod Service
pub mod Sessions
pub mod Commission
mod Tests
use ecommerce_platform.Base.Text.{strip, is_empty, is_blank, has_at}
use Prim.Native.String.{String}
use ecommerce_platform.Base.{
  ◌∷◌, false, if◌then◌else◌, not, any, true, Option, none, ◌==◌, keep_if, ◌+◌, ℕ, List, Bool, ◌||◌,
  [], some,
}
use ecommerce_platform.Base.Int.{◌==ℤ◌, pos, ℤ}

pub data SellerStatus : Type 0 where
  registered documents_submitted under_review approved : SellerStatus
  active rejected suspended banned : SellerStatus

-- `other` is a text outside the vocabulary.
pub data DocumentType : Type 0 where
  national_id trade_licence tax_registration bank_statement : DocumentType
  other : ℕ → DocumentType

abbrev pub document_code : DocumentType → ℕ
document_code national_id = 0
document_code trade_licence = 1
document_code tax_registration = 2
document_code bank_statement = 3
document_code (other n) = 4 + n

abbrev pub same_document : DocumentType → DocumentType → Bool
same_document a b = document_code a == document_code b

abbrev pub current_contract_version : ℤ
current_contract_version = pos 1

abbrev pub optional_is : Option ℤ → ℤ → Bool
optional_is none version = false
optional_is (some v) version = v ==ℤ version

-- COMMISSION_BPS_BY_VERSION.get(version), and None for None
unfoldable pub commission_bps : Option ℤ → Option ℤ
commission_bps none = none
commission_bps (some version) = if version ==ℤ pos 1 then some (pos 1200) else none

pub data SellerEvent : Type 0 where
  registered_event submitted_event review_started_event approved_event rejected_event : SellerEvent
  activated_event suspended_event reinstated_event banned_event location_event : SellerEvent

-- A Decision: OK with the new status, the event and the detail, INVALID or NOT_ALLOWED.
pub data Decision : Type 0 where
  moves : SellerStatus → SellerEvent → String → Decision
  invalid not_allowed : Decision

unfoldable pub may_list_products : Option SellerStatus → Option ℤ → Bool
may_list_products (some active) accepted = optional_is accepted current_contract_version
may_list_products _ accepted = false

unfoldable pub may_receive_orders : Option SellerStatus → Option ℤ → Bool
unfolding may_list_products
may_receive_orders status accepted = may_list_products status accepted

unfoldable pub needs_contract_acceptance : Option SellerStatus → Option ℤ → Bool
needs_contract_acceptance (some active) accepted =
    not (optional_is accepted current_contract_version)
needs_contract_acceptance (some approved) accepted =
    not (optional_is accepted current_contract_version)
needs_contract_acceptance _ accepted = false

abbrev pub required_documents : List DocumentType
required_documents = national_id ∷ trade_licence ∷ []

unfoldable pub missing_documents : List DocumentType → List DocumentType
missing_documents submitted =
    keep_if (λ d. not (any (same_document d) submitted)) required_documents

unfoldable pub plan_registration : String → String → String → Decision
unfolding is_blank
plan_registration legal_name display_name contact_email =
    if is_blank legal_name
      || is_blank display_name
      || is_empty contact_email
      || not (has_at contact_email)
    then invalid
    else moves registered registered_event "registered; documents required before review"

abbrev pub is_nothing : List DocumentType → Bool
is_nothing [] = true
is_nothing (d ∷ ds) = false

-- May documents be sent from here?
abbrev pub awaits_documents : SellerStatus → Bool
awaits_documents registered = true
awaits_documents rejected = true
awaits_documents documents_submitted = true
awaits_documents _ = false

unfoldable pub plan_document_submission : Option SellerStatus → List DocumentType → Decision
unfolding missing_documents
plan_document_submission none submitted = not_allowed
plan_document_submission (some status) submitted =
    if awaits_documents status
    then if is_nothing (missing_documents submitted)
      then moves documents_submitted submitted_event "queued for review"
      else invalid
    else not_allowed

unfoldable pub plan_review_start : Option SellerStatus → Decision
plan_review_start (some documents_submitted) =
    moves under_review review_started_event "under review"
plan_review_start _ = not_allowed

unfoldable pub plan_review_result : Option SellerStatus → Bool → String → Decision
unfolding is_blank strip
plan_review_result (some under_review) accept reason =
    if accept
    then moves approved approved_event "approved; contract acceptance required before selling"
    else if is_blank reason
    then invalid
    else moves rejected rejected_event (strip reason)
plan_review_result _ accept reason = not_allowed

abbrev pub is_reviewed : Option SellerStatus → Bool
is_reviewed (some approved) = true
is_reviewed (some active) = true
is_reviewed _ = false

unfoldable pub plan_contract_acceptance : Option SellerStatus → ℤ → Decision
plan_contract_acceptance status version =
    if is_reviewed status
    then if version ==ℤ current_contract_version
      then moves active activated_event "active on contract version 1"
      else invalid
    else not_allowed

unfoldable pub plan_suspension : Option SellerStatus → String → Decision
unfolding is_blank strip
plan_suspension (some active) reason =
    if is_blank reason then invalid else moves suspended suspended_event (strip reason)
plan_suspension _ reason = not_allowed

unfoldable pub plan_reinstatement : Option SellerStatus → Decision
plan_reinstatement (some suspended) = moves active reinstated_event "reinstated"
plan_reinstatement _ = not_allowed

unfoldable pub plan_ban : Option SellerStatus → String → Decision
unfolding is_blank strip
plan_ban none reason = not_allowed
plan_ban (some banned) reason = not_allowed
plan_ban (some _) reason =
    if is_blank reason then invalid else moves banned banned_event (strip reason)

-- TRANSITIONS
unfoldable pub transitions : SellerStatus → List SellerStatus
transitions registered = documents_submitted ∷ banned ∷ []
transitions documents_submitted = documents_submitted ∷ under_review ∷ banned ∷ []
transitions under_review = approved ∷ rejected ∷ banned ∷ []
transitions approved = active ∷ banned ∷ []
transitions active = active ∷ suspended ∷ banned ∷ []
transitions rejected = documents_submitted ∷ banned ∷ []
transitions suspended = active ∷ banned ∷ []
transitions banned = []

unfoldable pub reachable_statuses : Option SellerStatus → List SellerStatus
unfolding transitions
reachable_statuses none = []
reachable_statuses (some status) = transitions status
