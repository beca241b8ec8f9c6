-- ===== src/Reviews/Table.antt =====
-- The tables of reviews-service: services/reviews-service/app/models.py. The times of updates and
-- rulings, the moderator's notes and the order's own id are left out. The newest review stands
-- first.
use ecommerce_platform.Base.Int.{ℤ}
use ecommerce_platform.Base.{
  List, ◌==◌, if◌then◌else◌, ◌∷◌, any, [], none, suc, some, Option, ℕ, not, ◌&&◌, Bool,
}
use Prim.Native.String.{String}
use ecommerce_platform.Reviews.{
  ModerationState, ReportReason, visible, hidden_pending_review, removed, cleared,
}

pub record Review : Type 0 where
  pub id : ℕ
  pub seller_order_id : ℕ
  pub product_id : ℕ
  pub seller_id : ℕ
  pub buyer_id : ℕ
  pub product_rating : ℤ
  pub seller_rating : Option ℤ
  pub title : Option String
  pub body : Option String
  pub created_at : ℤ
  pub moderation_state : ModerationState

pub record ReviewReport : Type 0 where
  pub review_id : ℕ
  pub reporter_id : ℕ
  pub reason : ReportReason
  pub note : Option String

-- The outbox rows: what all payloads share, and what a report or a ruling adds.
pub data OutboxMessage : Type 0 where
  review_published review_updated : Review → OutboxMessage
  review_hidden : Review → ℕ → OutboxMessage
  review_moderated : Review → OutboxMessage

pub record Database : Type 0 where
  pub reviews : List Review
  pub reports : List ReviewReport
  pub outbox : List OutboxMessage
  pub keys : List (ℕ × Option ℕ)

abbrev pub empty : Database
empty = record { reviews = []; reports = []; outbox = []; keys = [] }

-- db.get(Review, id)
abbrev pub find_review : ℕ → List Review → Option Review
find_review id [] = none
find_review id (r ∷ rs) = let rest = find_review id rs in if r.id == id then some r else rest

-- db.get(IdempotencyKey, key)
abbrev pub find_key : ℕ → List (ℕ × Option ℕ) → Option (Option ℕ)
find_key k [] = none
find_key k ((j, r) ∷ ks) = let rest = find_key k ks in if j == k then some r else rest

-- uq_review_per_purchase_product
abbrev pub is_of : ℕ → ℕ → Review → Bool
is_of order product r = r.seller_order_id == order && r.product_id == product

-- uq_one_report_per_person
abbrev pub is_by : ℕ → ℕ → ReviewReport → Bool
is_by review reporter r = r.review_id == review && r.reporter_id == reporter

-- select(count(distinct(reporter_id))).where(review_id == id): a reporter counts at its last row.
abbrev pub distinct_reporters : ℕ → List ReviewReport → ℕ
distinct_reporters id [] = 0
distinct_reporters id (r ∷ rs) =
    let rest = distinct_reporters id rs in
    if r.review_id == id && not (any (is_by id r.reporter_id) rs) then suc rest else rest

-- Writing one column of the row with this id.
abbrev pub set_state : ℕ → ModerationState → List Review → List Review
set_state id state [] = []
set_state id state (r ∷ rs) =
    let rest = set_state id state rs in
    if r.id == id then record r { moderation_state = state } ∷ rs else r ∷ rest

abbrev pub state_code : ModerationState → ℕ
state_code visible = 0
state_code hidden_pending_review = 1
state_code removed = 2
state_code cleared = 3

abbrev pub same_state : ModerationState → ModerationState → Bool
same_state a b = state_code a == state_code b
