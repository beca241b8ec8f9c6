-- ===== src/Reviews.antt =====
-- Reviews, their ratings and their moderation:
-- services/reviews-service/app/services/review_rules.py. Times are whole microseconds. A status or a
-- state outside its vocabulary is `none`. The texts of refusals are left out.
pub mod Ratings
pub mod Eligible
pub mod Table
pub mod Service
pub mod Sessions
mod Tests
use ecommerce_platform.Base.Int.{ltb_ℤ, sum, leb_ℤ, ◌-ℤ◌, ◌==ℤ◌, pos, ℤ}
use ecommerce_platform.Base.{
  none, ℕ, not, if◌then◌else◌, Option, some, elem, ◌&&◌, List, suc, ◌*◌, ◌==◌, ◌∷◌, [], true, false,
  ◌||◌, length, Bool, leb,
}
use ecommerce_platform.SellerOrder.{SellerOrderStatus, delivered, settled}

pub data Verdict : Type 0 where
  allowed not_delivered not_in_order already_reviewed window_closed not_the_buyer : Verdict

-- DELIVERED_STATES
abbrev pub is_delivered : Option SellerOrderStatus → Bool
is_delivered (some delivered) = true
is_delivered (some settled) = true
is_delivered _ = false

unfoldable pub http_status : Verdict → ℕ
http_status allowed = 200
http_status not_the_buyer = 403
http_status not_delivered = 403
http_status not_in_order = 404
http_status already_reviewed = 409
http_status window_closed = 422

abbrev pub days : ℕ → ℤ
days n = pos (n * 86400000000)

abbrev pub review_window_days : ℕ
review_window_days = 90

abbrev pub edit_window_days : ℕ
edit_window_days = 14

-- The arguments of may_review.
pub record Attempt : Type 0 where
  pub buyer_id : ℕ
  pub order_buyer_id : ℕ
  pub seller_order_status : Option SellerOrderStatus
  pub product_ids_in_order : List ℕ
  pub product_id : ℕ
  pub delivered_at : Option ℤ
  pub now : ℤ
  pub reviewed : Bool

-- now - delivered_at > timedelta(days=window_days), if there is a time of delivery
abbrev pub is_closed : Option ℤ → ℤ → Bool
is_closed none now = false
is_closed (some delivered_at) now = ltb_ℤ (days review_window_days) (now -ℤ delivered_at)

unfoldable pub may_review : Attempt → Verdict
may_review a =
    if not (a.buyer_id == a.order_buyer_id)
    then not_the_buyer
    else if not (is_delivered a.seller_order_status)
    then not_delivered
    else if not (elem a.product_id a.product_ids_in_order)
    then not_in_order
    else if a.reviewed
    then already_reviewed
    else if is_closed a.delivered_at a.now
    then window_closed
    else allowed

unfoldable pub may_edit : ℤ → ℤ → Bool
may_edit authored_at now = leb_ℤ (now -ℤ authored_at) (days edit_window_days)

-- A JSON value: a whole number, or anything else, `true` and `false` included.
pub data Value : Type 0 where
  whole : ℤ → Value
  no_number : Value

abbrev pub is_rating : ℤ → Bool
is_rating n = leb_ℤ (pos 1) n && leb_ℤ n (pos 5)

-- `none` is the ValueError.
unfoldable pub validate_rating : Value → Option ℤ
validate_rating no_number = none
validate_rating (whole n) = if is_rating n then some n else none

-- The ratings that are given: [r for r in ratings if r is not None]
abbrev pub present : List (Option ℤ) → List ℤ
present [] = []
present (none ∷ rs) = present rs
present (some r ∷ rs) = r ∷ present rs

-- The mean, as the sum that is divided by the count, and the count.
pub record Aggregate : Type 0 where
  pub average : Option (ℤ × ℕ)
  pub count : ℕ

abbrev pub mean : List ℤ → Aggregate
unfolding sum
mean [] = record { average = none; count = 0 }
mean (r ∷ rs) = record { average = some (sum (r ∷ rs), length (r ∷ rs)); count = length (r ∷ rs) }

unfoldable pub aggregate_ratings : List (Option ℤ) → Aggregate
unfolding mean
aggregate_ratings ratings = mean (present ratings)

-- {star: 0 for star in range(MIN_RATING, MAX_RATING + 1)}
abbrev pub no_stars : List (ℤ × ℕ)
no_stars = (pos 1, 0) ∷ (pos 2, 0) ∷ (pos 3, 0) ∷ (pos 4, 0) ∷ (pos 5, 0) ∷ []

-- if rating in counts: counts[rating] += 1
abbrev pub count_star : ℤ → List (ℤ × ℕ) → List (ℤ × ℕ)
count_star rating [] = []
count_star rating ((star, n) ∷ more) =
    let later = count_star rating more in
    if star ==ℤ rating then (star, suc n) ∷ more else (star, n) ∷ later

abbrev pub count_stars : List (Option ℤ) → List (ℤ × ℕ) → List (ℤ × ℕ)
count_stars [] counts = counts
count_stars (none ∷ rs) counts = count_stars rs counts
count_stars (some r ∷ rs) counts = count_stars rs (count_star r counts)

unfoldable pub distribution : List (Option ℤ) → List (ℤ × ℕ)
distribution ratings = count_stars ratings no_stars

pub data ReportReason : Type 0 where
  abusive spam irrelevant personal_info fake : ReportReason

abbrev pub reports_to_hide : ℕ
reports_to_hide = 3

pub data ModerationState : Type 0 where
  visible hidden_pending_review removed cleared : ModerationState

unfoldable pub is_public : Option ModerationState → Bool
is_public (some visible) = true
is_public (some cleared) = true
is_public _ = false

unfoldable pub may_report : Option ModerationState → Bool → Verdict
may_report state true = not_the_buyer
may_report (some visible) false = allowed
may_report (some hidden_pending_review) false = allowed
may_report _ false = already_reviewed

unfoldable pub state_after_report : Option ModerationState → ℕ → ModerationState
state_after_report none reporters = hidden_pending_review
state_after_report (some visible) reporters =
    if leb reports_to_hide reporters then hidden_pending_review else visible
state_after_report (some state) reporters = state

unfoldable pub visible_to : Option ModerationState → Bool → Bool
unfolding is_public
visible_to state viewer_is_author = viewer_is_author || is_public state
