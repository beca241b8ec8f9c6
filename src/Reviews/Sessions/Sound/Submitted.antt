-- ===== src/Reviews/Sessions/Sound/Submitted.antt =====
-- A submission keeps the invariant: submit_review of
-- services/reviews-service/app/services/review_service.py.
use ecommerce_platform.Reviews.Sessions.Sound.{Rated, Hidden, IsSound}
use ecommerce_platform.Reviews.Service.{
  Purchase, Submission, Draft, answer, draft, Commit, committed, broken, optional_rating, rate,
  decide, attempt, check_purchase, replay, seen, begin_review, breaks_unique, publish,
}
use ecommerce_platform.Reviews.{
  Value, Verdict, is_rating, visible, validate_rating, whole, no_number, may_review, allowed,
  not_delivered, not_in_order, already_reviewed, window_closed, not_the_buyer,
}
use ecommerce_platform.Base.Int.{ℤ}
use ecommerce_platform.Base.{
  found_here, ◌≡◌, none, inr, true, Option, Option-cases, inl, any, sym, refl, ℕ, some, false,
  arith, Bool-cases,
}
use mathlib.Core.Path.{subst}
use ecommerce_platform.Base.Http.{Response, ok, http_error}
use ecommerce_platform.Reviews.Table.{Database, is_of}

-- What is true of a row that is ready to be written.
abbrev pub Ready : Draft → Type 0
Ready (answer response) = Unit
Ready (draft r key) =
    (is_rating r.product_rating ≡ true) × Rated r.seller_rating × (r.moderation_state ≡ visible)

pub validated : (v : Value) (n : ℤ) → validate_rating v ≡ some n → is_rating n ≡ true
unfolding validate_rating
validated no_number n h = cc h
validated (whole m) n h = elim (Bool-cases (is_rating m)) [
  | inl e ↦ let equal : m ≡ n = found_here _ _ e h in subst (λ k. is_rating k ≡ true) equal e
  | inr e ↦ let none_is : none ≡ some n = rw e at h in cc none_is
]

pub optional-Rated : (v : Option Value) (o : Option ℤ) → optional_rating v ≡ some o → Rated o
unfolding optional_rating
optional-Rated none o h = let equal : none ≡ o = cc h in subst Rated equal tt
optional-Rated (some v) o h = elim (Option-cases (validate_rating v)) [
  | inl e ↦ let absent : none ≡ some o = rw (optional_rating, e) at h in cc absent
  | inr (n, e) ↦
      let there : some (some n) ≡ some o = rw (optional_rating, e) at h in
      let equal : some n ≡ o = cc there in subst Rated equal (validated v n e)
]

pub rate-Ready :
    (id : ℕ) (now : ℤ) (purchase : Purchase) (request : Submission)
    → Ready (rate id now purchase request)
unfolding rate
rate-Ready id now purchase request = elim (Option-cases (validate_rating request.product_rating)) [
  | inl e ↦ rw (rate, e) tt
  | inr (n, e) ↦ elim (Option-cases (optional_rating request.seller_rating)) [
    | inl f ↦ rw (rate, e, f) tt
    | inr (o, f) ↦
        rw (rate, e, f)
          (validated request.product_rating n e, optional-Rated request.seller_rating o f, refl)
  ]
]

pub decide-Ready : (v : Verdict) (d : Draft) → Ready d → Ready (decide v d)
unfolding decide
decide-Ready allowed d h = h
decide-Ready not_delivered d h = tt
decide-Ready not_in_order d h = tt
decide-Ready already_reviewed d h = tt
decide-Ready window_closed d h = tt
decide-Ready not_the_buyer d h = tt

pub check_purchase-Ready :
    (id : ℕ) (now : ℤ) (fetched : Response Purchase) (request : Submission) (db : Database)
    → Ready (check_purchase id now fetched request db)
unfolding check_purchase
check_purchase-Ready id now (http_error code) request db = tt
check_purchase-Ready id now (ok purchase) request db =
    decide-Ready (may_review (attempt now purchase request db)) (rate id now purchase request)
      (rate-Ready id now purchase request)

pub begin_review-Ready :
    (id : ℕ) (now : ℤ) (fetched : Response Purchase) (request : Submission) (db : Database)
    → Ready (begin_review id now fetched request db)
unfolding begin_review
begin_review-Ready id now fetched request db =
    elim (Option-cases (replay (seen request.key db) db)) [
      | inl e ↦ rw (begin_review, e) (check_purchase-Ready id now fetched request db)
      | inr (response, e) ↦ rw (begin_review, e) tt
    ]

pub publish-IsSound :
    (commit : Commit) (d : Draft) (db : Database)
    → Ready d
    → IsSound db
    → IsSound (publish commit d db).1
unfolding publish
publish-IsSound commit (answer response) db ready h = h
publish-IsSound commit (draft r key) db (p, s, v) (fine, once) =
    elim (Bool-cases (breaks_unique r key db)) [
      | inl e ↦ rw (publish, e) (fine, once)
      | inr e ↦ elim commit as (λ c. IsSound (publish c (draft r key) db).1) [
        | broken ↦ rw (publish, e) (fine, once)
        | committed ↦
            let new : any (is_of r.seller_order_id r.product_id) db.reviews ≡ false =
              ground (arith, e) in
            let shown : Hidden r.moderation_state r.id db.reports =
              subst (λ state. Hidden state r.id db.reports) (sym v) tt in
            rw (publish, e) (((p, s, shown), fine), (new, once))
      ]
    ]
