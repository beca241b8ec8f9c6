-- ===== src/Reviews/Sessions/Sound/Results.antt =====
-- What holds of the reviews after any overlapping requests to reviews-service:
-- services/reviews-service/app/services/review_service.py.
use ecommerce_platform.Base.Int.{◌≤ℤ◌, ℤ, pos}
use ecommerce_platform.Base.{
  found_here, Option, ℕ, Bool-cases, false, ◌∷◌, refl, ◌&&◌, arith, ==_refl, ◌≡◌, ◌∙◌, ==_iff, sym,
  inr, if◌then◌else◌, none, ◌==◌, inl, List, some, ◌*◌, All, ap, any, ◌≤◌, [], true,
}
use mathlib.Core.Path.{subst}
use ecommerce_platform.Reviews.{hidden_pending_review}
use ecommerce_platform.Reviews.Ratings.{IsRated, total, weigh, ratings_add_up}
use ecommerce_platform.Reviews.Table.{Review, ReviewReport, find_review, is_of, distinct_reporters}
use ecommerce_platform.Reviews.Service.Queries.{
  Summary, summary, is_shown, product_ratings, seller_ratings, product_summary, seller_summary,
}
use ecommerce_platform.Reviews.Sessions.{Event, init, run}
use ecommerce_platform.Reviews.Sessions.Sound.{Rated, Hidden, Fine, IsOnce, find-Fine, find-id}
use ecommerce_platform.Reviews.Sessions.Sound.Running.{run-IsSound}

found-is_of :
    (i : ℕ) (r : Review) (order product : ℕ) (rs : List Review)
    → find_review i rs ≡ some r
    → r.seller_order_id ≡ order
    → r.product_id ≡ product
    → any (is_of order product) rs ≡ true
found-is_of i r order product [] f o p = cc f
found-is_of i r order product (x ∷ xs) f o p = elim (Bool-cases (x.id == i)) [
  | inl e ↦
      let equal : x ≡ r = found_here _ _ e f in
      rw (equal, o, p, ==_refl order, ==_refl product) refl
  | inr e ↦ rw (found-is_of i r order product xs (rw e at f) o p) (ground arith)
]

once_equal :
    (rs : List Review) (i j : ℕ) (r q : Review)
    → IsOnce rs
    → find_review i rs ≡ some r
    → find_review j rs ≡ some q
    → r.seller_order_id ≡ q.seller_order_id
    → r.product_id ≡ q.product_id
    → i ≡ j
once_equal [] i j r q h f g o p = cc f
once_equal (x ∷ xs) i j r q (h, t) f g o p = elim (Bool-cases (x.id == i)) [
  | inl e ↦ elim (Bool-cases (x.id == j)) [
    | inl d ↦ sym ((==_iff x.id i).0 e) ∙ (==_iff x.id j).0 d
    | inr d ↦
        let equal : x ≡ r = found_here _ _ e f in
        let again =
          found-is_of j q x.seller_order_id x.product_id xs (rw d at g)
            (sym o ∙ ap (λ (y : Review). y.seller_order_id) (sym equal))
            (sym p ∙ ap (λ (y : Review). y.product_id) (sym equal)) in
        let clash : true ≡ false = sym again ∙ h in cc clash
  ]
  | inr e ↦ elim (Bool-cases (x.id == j)) [
    | inl d ↦
        let equal : x ≡ q = found_here _ _ d g in
        let again =
          found-is_of i r x.seller_order_id x.product_id xs (rw e at f)
            (o ∙ ap (λ (y : Review). y.seller_order_id) (sym equal))
            (p ∙ ap (λ (y : Review). y.product_id) (sym equal)) in
        let clash : true ≡ false = sym again ∙ h in cc clash
    | inr d ↦ once_equal xs i j r q t (rw e at f) (rw d at g) o p
  ]
]

-- After any sequence of requests from empty tables, overlapping in any way and whatever commits fail,
-- two stored reviews of the same seller order and product have the same id.
pub purchase_reviewed_once :
    (events : List Event) (i j : ℕ) (r q : Review)
    → find_review i (run events init).db.reviews ≡ some r
    → find_review j (run events init).db.reviews ≡ some q
    → r.seller_order_id ≡ q.seller_order_id
    → r.product_id ≡ q.product_id
    → i ≡ j
purchase_reviewed_once events i j r q f g o p =
    once_equal (run events init).db.reviews i j r q (run-IsSound events).1 f g o p

-- After any sequence of requests from empty tables, overlapping in any way and whatever commits fail,
-- a stored review that is hidden pending a moderator has at least three distinct reporters among
-- the stored reports.
pub hidden_by_three :
    (events : List Event) (id : ℕ) (r : Review)
    → find_review id (run events init).db.reviews ≡ some r
    → r.moderation_state ≡ hidden_pending_review
    → 3 ≤ distinct_reporters id (run events init).db.reports
hidden_by_three events id r f e =
    let db = (run events init).db in
    let (p, s, h) = find-Fine db.reports id db.reviews r (run-IsSound events).0 f in
    let counted : Hidden hidden_pending_review r.id db.reports =
      subst (λ state. Hidden state r.id db.reports) e h in
    subst (λ n. 3 ≤ distinct_reporters n db.reports) (find-id id db.reviews r f) counted

product-IsRated :
    (product : ℕ) (reports : List ReviewReport) (rs : List Review)
    → All (Fine reports) rs
    → IsRated (product_ratings product rs)
unfolding product_ratings
product-IsRated product reports [] h = tt
product-IsRated product reports (r ∷ rs) ((p, s, k), t) =
    elim (Bool-cases (r.product_id == product && is_shown r)) [
      | inl e ↦ rw (product_ratings, e) (p, product-IsRated product reports rs t)
      | inr e ↦ rw (product_ratings, e) (product-IsRated product reports rs t)
    ]

given-IsRated : (o : Option ℤ) (rs : List (Option ℤ)) → Rated o → IsRated rs → IsRated (o ∷ rs)
given-IsRated none rs h t = t
given-IsRated (some r) rs h t = (h, t)

seller-IsRated :
    (seller : ℕ) (reports : List ReviewReport) (rs : List Review)
    → All (Fine reports) rs
    → IsRated (seller_ratings seller rs)
unfolding seller_ratings
seller-IsRated seller reports [] h = tt
seller-IsRated seller reports (r ∷ rs) ((p, s, k), t) =
    elim (Bool-cases (r.seller_id == seller && is_shown r)) [
      | inl e ↦
          rw (seller_ratings, e)
            (given-IsRated r.seller_rating (seller_ratings seller rs) s
              (seller-IsRated seller reports rs t))
      | inr e ↦ rw (seller_ratings, e) (seller-IsRated seller reports rs t)
    ]

-- The stars of a summary against its count and its average.
abbrev pub AddsUp : Summary → Type 0
AddsUp s =
    (total s.stars ≡ s.aggregate.count)
    × (s.aggregate.average
        ≡ (if s.aggregate.count == 0 then none else some (weigh s.stars, s.aggregate.count)))
    × (pos s.aggregate.count ≤ℤ weigh s.stars)
    × (weigh s.stars ≤ℤ pos (5 * s.aggregate.count))

-- After any sequence of requests from empty tables, overlapping in any way, the summaries of every
-- product and every seller add up: the stars are as many as the count, the average is what the
-- stars weigh over the count, and absent if the count is zero, and it is from 1 to 5.
pub summaries-AddsUp :
    (events : List Event) (product seller : ℕ)
    → let db = (run events init).db in
      AddsUp (product_summary product db) × AddsUp (seller_summary seller db)
unfolding product_summary seller_summary summary
summaries-AddsUp events product seller =
    let db = (run events init).db in
    let (fine, once) = run-IsSound events in
    (
      ratings_add_up (product_ratings product db.reviews)
          (product-IsRated product db.reports db.reviews fine),
      ratings_add_up (seller_ratings seller db.reviews)
          (seller-IsRated seller db.reports db.reviews fine),
    )
