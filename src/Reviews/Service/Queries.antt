-- ===== src/Reviews/Service/Queries.antt =====
-- The reads of reviews-service: product_summary, seller_summary, list_for_product, moderation_queue
-- and my_reviews of services/reviews-service/app/services/review_service.py.
use ecommerce_platform.Base.Text.{is_empty}
use ecommerce_platform.Base.Int.{ℤ}
use ecommerce_platform.Base.{
  if◌then◌else◌, [], keep_if, Option, none, suc, true, ◌∷◌, some, List, zero, ℕ, min, ◌==◌, any,
  map, length, ◌&&◌, ◌++◌, Bool,
}
use Prim.Native.String.{String}
use ecommerce_platform.Reviews.{
  Aggregate, ReportReason, aggregate_ratings, distribution, is_public, visible_to,
  hidden_pending_review, abusive, spam, irrelevant, personal_info, fake,
}
use ecommerce_platform.Reviews.Table.{Review, ReviewReport, Database, same_state}

abbrev pub take {ℓ} : {A : Type ℓ} → ℕ → List A → List A
take zero xs = []
take (suc n) [] = []
take (suc n) (x ∷ xs) = x ∷ take n xs

pub record Summary : Type 0 where
  pub aggregate : Aggregate
  pub stars : List (ℤ × ℕ)

unfoldable pub summary : List (Option ℤ) → Summary
unfolding aggregate_ratings distribution
summary ratings = record { aggregate = aggregate_ratings ratings; stars = distribution ratings }

abbrev pub is_shown : Review → Bool
unfolding is_public
is_shown r = is_public (some r.moderation_state)

unfoldable pub product_ratings : ℕ → List Review → List (Option ℤ)
unfolding is_shown
product_ratings product rs =
    map (λ r. some r.product_rating) (keep_if (λ r. r.product_id == product && is_shown r) rs)

unfoldable pub seller_ratings : ℕ → List Review → List (Option ℤ)
unfolding is_shown
seller_ratings seller rs =
    map (λ r. r.seller_rating) (keep_if (λ r. r.seller_id == seller && is_shown r) rs)

unfoldable pub product_summary : ℕ → Database → Summary
unfolding summary product_ratings
product_summary product db = summary (product_ratings product db.reviews)

unfoldable pub seller_summary : ℕ → Database → Summary
unfolding summary seller_ratings
seller_summary seller db = summary (seller_ratings seller db.reviews)

unfoldable pub list_for_product : ℕ → ℕ → Database → List Review
unfolding is_shown
list_for_product product limit db =
    take (min limit 100) (keep_if (λ r. r.product_id == product && is_shown r) db.reviews)

unfoldable pub my_reviews : ℕ → ℕ → Database → List Review
unfolding visible_to
my_reviews buyer limit db =
    keep_if (λ r. visible_to (some r.moderation_state) true)
      (take (min limit 200) (keep_if (λ r. r.buyer_id == buyer) db.reviews))

pub record Queued : Type 0 where
  pub review : Review
  pub report_count : ℕ
  pub reasons : List ReportReason
  pub notes : List String

abbrev pub reason_code : ReportReason → ℕ
reason_code abusive = 0
reason_code fake = 1
reason_code irrelevant = 2
reason_code personal_info = 3
reason_code spam = 4

-- sorted({r[0] for r in rows}), by the texts of the reasons
abbrev pub sorted_reasons : List ReviewReport → List ReportReason
sorted_reasons rows =
    keep_if (λ reason. any (λ r. reason_code r.reason == reason_code reason) rows)
      (abusive ∷ fake ∷ irrelevant ∷ personal_info ∷ spam ∷ [])

-- [r[1] for r in rows if r[1]]
abbrev pub given_notes : List ReviewReport → List String
given_notes [] = []
given_notes (r ∷ rs) =
    let rest = given_notes rs in
    elim (r.note) [ none ↦ rest | some text ↦ if is_empty text then rest else text ∷ rest ]

abbrev pub queued : List ReviewReport → Review → Queued
queued reports review =
    let rows = keep_if (λ r. r.review_id == review.id) reports in
    record {
      review = review;
      report_count = length rows;
      reasons = sorted_reasons rows;
      notes = given_notes rows;
    }

abbrev pub oldest_first : List Review → List Review
oldest_first [] = []
oldest_first (r ∷ rs) = oldest_first rs ++ r ∷ []

unfoldable pub moderation_queue : ℕ → Database → List Queued
moderation_queue limit db = map (queued db.reports) (
    take (min limit 200) (
      keep_if (λ r. same_state r.moderation_state hidden_pending_review) (oldest_first db.reviews)))
