-- ===== src/Reviews/Eligible.antt =====
-- Which submissions are accepted: may_review of
-- services/reviews-service/app/services/review_rules.py in submit_review of review_service.py.
use ecommerce_platform.Reviews.{
  Verdict, not_delivered, not_in_order, already_reviewed, window_closed, not_the_buyer, http_status,
  validate_rating, whole, no_number, Attempt, Value, allowed, may_review, is_delivered, is_closed,
  is_rating,
}
use ecommerce_platform.Reviews.Table.{Database, find_review, is_of, Review}
use ecommerce_platform.Reviews.Service.{
  Purchase, Submission, Draft, answer, committed, optional_rating, rate, decide, attempt,
  check_purchase, replay, seen, begin_review, publish, submit_review,
}
use ecommerce_platform.Base.Int.{ℤ}
use ecommerce_platform.Base.{
  inr, ℕ, refl, any, inl, Bool-cases, Bool, elem, ◌≡◌, not, ◌&&◌, Option, none, true, ◌≢◌, some,
  false, ◌==◌, arith, ◌⊎◌,
}
use ecommerce_platform.Base.Http.{Response, ok, http_error}

abbrev pub is_ok : Response Review → Bool
is_ok (ok r) = true
is_ok (http_error code) = false

-- The buyer's own purchase, delivered, with the product in it, not reviewed yet, and in time.
abbrev pub is_eligible : Attempt → Bool
is_eligible a =
    a.buyer_id == a.order_buyer_id
    && is_delivered a.seller_order_status
    && elem a.product_id a.product_ids_in_order
    && not a.reviewed
    && not (is_closed a.delivered_at a.now)

abbrev pub is_star : Value → Bool
is_star no_number = false
is_star (whole n) = is_rating n

abbrev pub is_star_if_given : Option Value → Bool
is_star_if_given none = true
is_star_if_given (some v) = is_star v

verdict_cases :
    (a : Attempt)
    → ((may_review a ≡ allowed) × (is_eligible a ≡ true))
      ⊎ ((may_review a ≢ allowed) × (is_eligible a ≡ false))
unfolding may_review
verdict_cases a = ground arith

decide_refused :
    (v : Verdict) (d : Draft) → v ≢ allowed → decide v d ≡ answer (http_error (http_status v))
unfolding decide http_status
decide_refused allowed d h = elim (h refl) [ ]
decide_refused not_delivered d h = refl
decide_refused not_in_order d h = refl
decide_refused already_reviewed d h = refl
decide_refused window_closed d h = refl
decide_refused not_the_buyer d h = refl

validate-cases :
    (v : Value)
    → ((validate_rating v ≡ none) × (is_star v ≡ false))
      ⊎ ((n : ℤ) × (validate_rating v ≡ some n) × (is_star v ≡ true))
unfolding validate_rating
validate-cases no_number = inl (refl, refl)
validate-cases (whole n) = elim (Bool-cases (is_rating n)) [
  | inl e ↦ inr (n, rw e refl, e)
  | inr e ↦ inl (rw e refl, e)
]

optional-cases :
    (v : Option Value)
    → ((optional_rating v ≡ none) × (is_star_if_given v ≡ false))
      ⊎ ((o : Option ℤ) × (optional_rating v ≡ some o) × (is_star_if_given v ≡ true))
unfolding optional_rating
optional-cases none = inr (none, refl, refl)
optional-cases (some v) = elim (validate-cases v) [
  | inl (e, f) ↦ inl (rw (optional_rating, e) refl, f)
  | inr (n, e, f) ↦ inr (some n, rw (optional_rating, e) refl, f)
]

module _ (id : ℕ) (now : ℤ) (purchase : Purchase) (request : Submission) (db : Database)
    (new_key : seen request.key db ≡ none) (new_id : find_review id db.reviews ≡ none) where
  rate_published :
      any (is_of request.seller_order_id request.product_id) db.reviews ≡ false
      → is_ok (publish committed (rate id now purchase request) db).0
        ≡ is_star request.product_rating && is_star_if_given request.seller_rating
  unfolding rate publish
  rate_published fresh = elim (validate-cases request.product_rating) [
    | inl (e, f) ↦ rw (rate, e, f) refl
    | inr (n, e, f) ↦ elim (optional-cases request.seller_rating) [
      | inl (g, k) ↦ rw (rate, e, g, f, k) refl
      | inr (o, g, k) ↦ rw (rate, e, g, f, k) (rw (publish, fresh, new_id, new_key) refl)
    ]
  ]

  begun :
      begin_review id now (ok purchase) request db
      ≡ decide (may_review (attempt now purchase request db)) (rate id now purchase request)
  unfolding begin_review check_purchase replay
  begun = rw (begin_review, replay, new_key) refl

  -- A submission with no key that is known and an id that is not taken, where the purchase is fetched
  -- and the commit succeeds, is accepted exactly if the purchase is the submitter's own, it is
  -- delivered or settled and has the product in it, that pair has no review yet, at most ninety
  -- days have passed since a known time of delivery, and the product's rating and the seller's, if
  -- it is given, are whole numbers from 1 to 5.
  pub submission_exact :
      is_ok (submit_review committed id now (ok purchase) request db).0
      ≡ is_eligible (attempt now purchase request db)
        && is_star request.product_rating
        && is_star_if_given request.seller_rating
  unfolding submit_review
  submission_exact =
      let a = attempt now purchase request db in
      elim (verdict_cases a) [
        | inl (v, e) ↦
            let fresh : any (is_of request.seller_order_id request.product_id) db.reviews ≡ false =
              ground (arith, e) in
            rw (submit_review, begun, v, e) (rate_published fresh)
        | inr (v, e) ↦
            rw
              (
                submit_review,
                begun,
                decide_refused (may_review a) (rate id now purchase request) v,
                e,
              )
              refl
      ]
