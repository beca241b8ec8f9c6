-- ===== src/Reviews/Service.antt =====
-- Writing reviews and reports: services/reviews-service/app/services/review_service.py. What
-- order-saga answers to fetch_purchase, the time and the new id are arguments, and so is how a
-- commit ends, where the tables' own constraints do not decide that. A request that reads before it
-- writes is two functions, for another request may come between.
pub mod Moderation
pub mod Queries
use ecommerce_platform.Base.Int.{ℤ}
use ecommerce_platform.Base.{
  ◌∷◌, false, ℕ, any, Option, List, true, if◌then◌else◌, not, none, some, ◌==◌, Bool, ◌++◌, [],
  ◌||◌,
}
use Prim.Native.String.{String}
use ecommerce_platform.Base.Http.{Response, ok, http_error}
use ecommerce_platform.SellerOrder.{SellerOrderStatus}
use ecommerce_platform.Reviews.{
  Verdict, Attempt, Value, allowed, http_status, may_review, may_edit, validate_rating, visible,
}
use ecommerce_platform.Reviews.Table.{
  Review, OutboxMessage, Database, review_published, review_updated, find_review, find_key, is_of,
}

-- The purchase, its time of delivery as _parse leaves it.
pub record Purchase : Type 0 where
  pub buyer_id : ℕ
  pub seller_id : ℕ
  pub status : Option SellerOrderStatus
  pub product_ids : List ℕ
  pub delivered_at : Option ℤ

-- An absent or empty idempotency key is `none`.
pub record Submission : Type 0 where
  pub buyer_id : ℕ
  pub seller_order_id : ℕ
  pub product_id : ℕ
  pub product_rating : Value
  pub seller_rating : Option Value
  pub title : Option String
  pub body : Option String
  pub key : Option ℕ

-- What the first half of submit_review comes to: an answer, or a row that is ready to be written.
pub data Draft : Type 0 where
  answer : Response Review → Draft
  draft : Review → Option ℕ → Draft

unfoldable pub optional_rating : Option Value → Option (Option ℤ)
unfolding validate_rating
optional_rating none = some none
optional_rating (some v) = elim (validate_rating v) [ none ↦ none | some r ↦ some (some r) ]

-- The ratings, once the purchase is established.
unfoldable pub rate : ℕ → ℤ → Purchase → Submission → Draft
unfolding validate_rating optional_rating
rate id now purchase request = elim (validate_rating request.product_rating) [
  | none ↦ answer (http_error 422)
  | some product_rating ↦ elim (optional_rating request.seller_rating) [
    | none ↦ answer (http_error 422)
    | some seller_rating ↦
        draft
          (record {
            id = id;
            seller_order_id = request.seller_order_id;
            product_id = request.product_id;
            seller_id = purchase.seller_id;
            buyer_id = request.buyer_id;
            product_rating = product_rating;
            seller_rating = seller_rating;
            title = request.title;
            body = request.body;
            created_at = now;
            moderation_state = visible;
          })
          request.key
  ]
]

abbrev pub attempt : ℤ → Purchase → Submission → Database → Attempt
attempt now purchase request db = record {
  buyer_id = request.buyer_id;
  order_buyer_id = purchase.buyer_id;
  seller_order_status = purchase.status;
  product_ids_in_order = purchase.product_ids;
  product_id = request.product_id;
  delivered_at = purchase.delivered_at;
  now = now;
  reviewed = any (is_of request.seller_order_id request.product_id) db.reviews;
}

unfoldable pub decide : Verdict → Draft → Draft
unfolding http_status
decide allowed d = d
decide verdict d = answer (http_error (http_status verdict))

unfoldable pub check_purchase : ℕ → ℤ → Response Purchase → Submission → Database → Draft
unfolding rate may_review decide
check_purchase id now (http_error code) request db = answer (http_error code)
check_purchase id now (ok purchase) request db =
    decide (may_review (attempt now purchase request db)) (rate id now purchase request)

-- A key that is bound to a review that is there answers with it.
unfoldable pub replay : Option (Option ℕ) → Database → Option (Response Review)
replay none db = none
replay (some none) db = some (http_error 409)
replay (some (some id)) db = elim (find_review id db.reviews) [ none ↦ none | some r ↦ some (ok r) ]

abbrev pub seen : Option ℕ → Database → Option (Option ℕ)
seen none db = none
seen (some key) db = find_key key db.keys

-- submit_review up to its writes.
unfoldable pub begin_review : ℕ → ℤ → Response Purchase → Submission → Database → Draft
unfolding replay check_purchase
begin_review id now fetched request db = elim (replay (seen request.key db) db) [
  | some response ↦ answer response
  | none ↦ check_purchase id now fetched request db
]

pub data Commit : Type 0 where
  committed broken : Commit

abbrev pub is_some {ℓ} : {A : Type ℓ} → Option A → Bool
is_some none = false
is_some (some a) = true

-- A key, an id, or a purchase and product that is there already: the IntegrityError.
abbrev pub breaks_unique : Review → Option ℕ → Database → Bool
breaks_unique r key db =
    any (is_of r.seller_order_id r.product_id) db.reviews
    || is_some (find_review r.id db.reviews)
    || is_some (seen key db)

abbrev pub key_row : Option ℕ → ℕ → List (ℕ × Option ℕ)
key_row none id = []
key_row (some key) id = (key, some id) ∷ []

-- The writes of submit_review and their commit.
unfoldable pub publish : Commit → Draft → Database → Response Review × Database
publish commit (answer response) db = (response, db)
publish commit (draft r key) db =
    if breaks_unique r key db then (http_error 409, db) else elim commit [
      | broken ↦ (http_error 500, db)
      | committed ↦ (
        ok r,
        record db {
          reviews = r ∷ db.reviews;
          outbox = db.outbox ++ review_published r ∷ [];
          keys = key_row key r.id ++ db.keys;
        },
      )
    ]

unfoldable pub submit_review :
    Commit → ℕ → ℤ → Response Purchase → Submission → Database → Response Review × Database
unfolding begin_review publish
submit_review commit id now fetched request db =
    publish commit (begin_review id now fetched request db) db

pub record Edit : Type 0 where
  pub buyer_id : ℕ
  pub product_rating : Option Value
  pub seller_rating : Option Value
  pub title : Option String
  pub body : Option String

abbrev pub or_else {ℓ} : {A : Type ℓ} → Option A → A → A
or_else none previous = previous
or_else (some new) previous = new

abbrev pub or_keep {ℓ} : {A : Type ℓ} → Option A → Option A → Option A
or_keep none previous = previous
or_keep (some new) previous = some new

-- The row that is found, replaced.
abbrev pub put_review : Review → List Review → List Review
put_review new [] = []
put_review new (r ∷ rs) =
    let rest = put_review new rs in if r.id == new.id then new ∷ rs else r ∷ rest

abbrev pub edited : Edit → Review → Option (Option ℤ) → Option (Option ℤ) → Option Review
edited edit r none seller = none
edited edit r (some product) none = none
edited edit r (some product) (some seller) = some (record r {
  product_rating = or_else product r.product_rating;
  seller_rating = or_keep seller r.seller_rating;
  title = or_keep edit.title r.title;
  body = or_keep edit.body r.body;
})

abbrev pub save_edit : Commit → Option Review → Database → Response Review × Database
save_edit commit none db = (http_error 422, db)
save_edit broken (some r) db = (http_error 500, db)
save_edit committed (some r) db = (
  ok r,
  record db { reviews = put_review r db.reviews; outbox = db.outbox ++ review_updated r ∷ [] },
)

unfoldable pub edit_review : Commit → ℕ → ℤ → Edit → Database → Response Review × Database
unfolding may_edit optional_rating
edit_review commit id now edit db = elim (find_review id db.reviews) [
  | none ↦ (http_error 404, db)
  | some r ↦
      if not (r.buyer_id == edit.buyer_id)
      then (http_error 404, db)
      else if not (may_edit r.created_at now)
      then (http_error 422, db)
      else save_edit commit
          (edited edit r (optional_rating edit.product_rating) (optional_rating edit.seller_rating))
          db
]
