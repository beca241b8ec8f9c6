-- ===== src/Reviews/Sessions/Sound.antt =====
-- The invariant of the tables of reviews-service (services/reviews-service/app/models.py), whatever
-- requests overlap: one review for each purchase and product, ratings from 1 to 5, and three
-- distinct reporters of every hidden review.
pub mod Edited
pub mod Results
pub mod Submitted
pub mod Moderated
pub mod Running
use ecommerce_platform.Base.Int.{ℤ}
use ecommerce_platform.Base.{
  found_here, ◌||◌, inr, ==_iff, ap, [], none, false, ◌≤◌, any, List, Option, some, sym, inl, All,
  refl, true, ◌∙◌, ◌==◌, Bool-cases, ◌≡◌, ℕ, arith, ◌∷◌,
}
use mathlib.Core.Path.{subst}
use ecommerce_platform.Reviews.{
  ModerationState, ReportReason, is_rating, visible, hidden_pending_review, removed, cleared,
}
use ecommerce_platform.Reviews.Table.{
  Review, ReviewReport, Database, find_review, is_of, is_by, distinct_reporters, set_state,
}
use ecommerce_platform.Reviews.Service.{put_review}

abbrev pub Rated : Option ℤ → Type 0
Rated none = Unit
Rated (some r) = is_rating r ≡ true

abbrev pub Hidden : ModerationState → ℕ → List ReviewReport → Type 0
Hidden hidden_pending_review id reports = 3 ≤ distinct_reporters id reports
Hidden _ id reports = Unit

-- What is true of every row.
abbrev pub Fine : List ReviewReport → Review → Type 0
Fine reports r =
    (is_rating r.product_rating ≡ true)
    × Rated r.seller_rating
    × Hidden r.moderation_state r.id reports

-- No two reviews of one purchase and product.
abbrev pub IsOnce : List Review → Type 0
IsOnce [] = Unit
IsOnce (r ∷ rs) = (any (is_of r.seller_order_id r.product_id) rs ≡ false) × IsOnce rs

abbrev pub IsSound : Database → Type 0
IsSound db = All (Fine db.reports) db.reviews × IsOnce db.reviews

pub Hidden-more :
    (state : ModerationState) (id : ℕ) (r : ReviewReport) (rs : List ReviewReport)
    → Hidden state id rs
    → Hidden state id (r ∷ rs)
Hidden-more visible id r rs h = tt
Hidden-more hidden_pending_review id r rs h = ground arith
Hidden-more removed id r rs h = tt
Hidden-more cleared id r rs h = tt

pub All-more :
    (r : ReviewReport) (reports : List ReviewReport) (rs : List Review)
    → All (Fine reports) rs
    → All (Fine (r ∷ reports)) rs
All-more r reports [] h = tt
All-more r reports (x ∷ xs) ((p, s, h), t) =
    ((p, s, Hidden-more x.moderation_state x.id r reports h), All-more r reports xs t)

pub find-Fine :
    (reports : List ReviewReport) (id : ℕ) (rs : List Review) (r : Review)
    → All (Fine reports) rs
    → find_review id rs ≡ some r
    → Fine reports r
find-Fine reports id [] r h f = cc f
find-Fine reports id (x ∷ xs) r (h, t) f = elim (Bool-cases (x.id == id)) [
  | inl e ↦ let equal : x ≡ r = found_here _ _ e f in subst (Fine reports) equal h
  | inr e ↦ find-Fine reports id xs r t (rw e at f)
]

pub find-id : (id : ℕ) (rs : List Review) (r : Review) → find_review id rs ≡ some r → r.id ≡ id
find-id id [] r f = cc f
find-id id (x ∷ xs) r f = elim (Bool-cases (x.id == id)) [
  | inl e ↦
      let equal : x ≡ r = found_here _ _ e f in
      ap (λ (y : Review). y.id) (sym equal) ∙ (==_iff x.id id).0 e
  | inr e ↦ find-id id xs r (rw e at f)
]

-- Writing a state.
pub set_state-Fine :
    (reports : List ReviewReport) (id : ℕ) (state : ModerationState) (rs : List Review)
    → Hidden state id reports
    → All (Fine reports) rs
    → All (Fine reports) (set_state id state rs)
set_state-Fine reports id state [] k h = tt
set_state-Fine reports id state (x ∷ xs) k ((p, s, h), t) = elim (Bool-cases (x.id == id)) [
  | inl e ↦ rw e ((p, s, subst (λ n. Hidden state n reports) (sym ((==_iff x.id id).0 e)) k), t)
  | inr e ↦ rw e ((p, s, h), set_state-Fine reports id state xs k t)
]

set_state-any :
    (order product id : ℕ) (state : ModerationState) (rs : List Review)
    → any (is_of order product) (set_state id state rs) ≡ any (is_of order product) rs
set_state-any order product id state [] = refl
set_state-any order product id state (x ∷ xs) = elim (Bool-cases (x.id == id)) [
  | inl e ↦ rw e refl
  | inr e ↦ rw (e, set_state-any order product id state xs) refl
]

pub set_state-IsOnce :
    (id : ℕ) (state : ModerationState) (rs : List Review)
    → IsOnce rs
    → IsOnce (set_state id state rs)
set_state-IsOnce id state [] h = tt
set_state-IsOnce id state (x ∷ xs) (h, t) = elim (Bool-cases (x.id == id)) [
  | inl e ↦ rw e (h, t)
  | inr e ↦
      rw e (
        set_state-any x.seller_order_id x.product_id id state xs ∙ h,
        set_state-IsOnce id state xs t,
      )
]

-- Writing a whole row.
pub put_review-Fine :
    (reports : List ReviewReport) (new : Review) (rs : List Review)
    → Fine reports new
    → All (Fine reports) rs
    → All (Fine reports) (put_review new rs)
put_review-Fine reports new [] k h = tt
put_review-Fine reports new (x ∷ xs) k (h, t) = elim (Bool-cases (x.id == new.id)) [
  | inl e ↦ rw e (k, t)
  | inr e ↦ rw e (h, put_review-Fine reports new xs k t)
]

-- The row that is replaced is of the same purchase and product.
abbrev pub SameKey : Review → Review → Type 0
SameKey new r = (new.seller_order_id ≡ r.seller_order_id) × (new.product_id ≡ r.product_id)

put_review-any :
    (new r : Review) (order product : ℕ) (rs : List Review)
    → find_review new.id rs ≡ some r
    → SameKey new r
    → any (is_of order product) (put_review new rs) ≡ any (is_of order product) rs
put_review-any new r order product [] f k = refl
put_review-any new r order product (x ∷ xs) f (o, p) = elim (Bool-cases (x.id == new.id)) [
  | inl e ↦
      let equal : x ≡ r = found_here _ _ e f in
      rw (e, o, p)
        (ap (λ (y : Review). is_of order product y || any (is_of order product) xs) (sym equal))
  | inr e ↦ rw (e, put_review-any new r order product xs (rw e at f) (o, p)) refl
]

pub put_review-IsOnce :
    (new r : Review) (rs : List Review)
    → find_review new.id rs ≡ some r
    → SameKey new r
    → IsOnce rs
    → IsOnce (put_review new rs)
put_review-IsOnce new r [] f k h = tt
put_review-IsOnce new r (x ∷ xs) f (o, p) (h, t) = elim (Bool-cases (x.id == new.id)) [
  | inl e ↦
      let equal : x ≡ r = found_here _ _ e f in
      rw (e, o, p)
        (ap (λ (y : Review). any (is_of y.seller_order_id y.product_id) xs) (sym equal) ∙ h, t)
  | inr e ↦ rw e (
    put_review-any new r x.seller_order_id x.product_id xs (rw e at f) (o, p) ∙ h,
    put_review-IsOnce new r xs (rw e at f) (o, p) t,
  )
]
