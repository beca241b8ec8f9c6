-- ===== src/Reviews/Tests.antt =====
-- Concrete runs of reviews-service.
use ecommerce_platform.Base.Int.{◌-ℤ◌, pos}
use ecommerce_platform.Base.{some, List, ◌≤◌, ℕ, none, ◌&&◌, ◌≡◌, ◌∷◌, refl, [], ◌++◌}
use ecommerce_platform.Base.Http.{ok, http_error}
use ecommerce_platform.SellerOrder.{delivered, dispatched}
use ecommerce_platform.Reviews.{
  ModerationState, whole, visible, hidden_pending_review, cleared, spam, fake, distribution,
}
use ecommerce_platform.Reviews.Eligible.{
  is_ok, is_eligible, is_star, is_star_if_given, submission_exact,
}
use ecommerce_platform.Reviews.Table.{
  Review, ReviewReport, Database, empty, find_review, distinct_reporters,
}
use ecommerce_platform.Reviews.Service.{Purchase, Submission, committed, attempt, submit_review}
use ecommerce_platform.Reviews.Service.Moderation.{Report, report_review}
use ecommerce_platform.Reviews.Service.Queries.{product_summary, seller_summary}
use ecommerce_platform.Reviews.Sessions.{idle, System, Event, init, run, begin, read_report, go_on}
use ecommerce_platform.Reviews.Sessions.Rulings.{Call, submit, complain, serve_all}
use ecommerce_platform.Reviews.Sessions.Reported.{ruling_stands}
use ecommerce_platform.Reviews.Sessions.Overturned.{take_two, overtaken, ruling_overturned}
use ecommerce_platform.Reviews.Sessions.Sound.Results.{AddsUp, hidden_by_three, summaries-AddsUp}

abbrev bought : Purchase
bought = record {
  buyer_id = 5;
  seller_id = 8;
  status = some delivered;
  product_ids = 30 ∷ 31 ∷ [];
  delivered_at = some (pos 0);
}

abbrev praise : Submission
praise = record {
  buyer_id = 5;
  seller_order_id = 70;
  product_id = 31;
  product_rating = whole (pos 4);
  seller_rating = none;
  title = none;
  body = none;
  key = some 900;
}

abbrev written : ModerationState → Review
written state = record {
  id = 1;
  seller_order_id = 70;
  product_id = 31;
  seller_id = 8;
  buyer_id = 5;
  product_rating = pos 4;
  seller_rating = none;
  title = none;
  body = none;
  created_at = pos 86400000000;
  moderation_state = state;
}

abbrev by : ℕ → Report
by reporter = record { review_id = 1; reporter_id = reporter; reason = some spam; note = none }

abbrev reported_by : ℕ → List Event
reported_by reporter = read_report 0 (by reporter) ∷ go_on 0 committed ∷ go_on 0 committed ∷ []

-- Two workers submit at once, and three people report the review that is stored.
abbrev busy : List Event
busy =
    begin 1 1 (pos 86400000000) (ok bought) praise
      ∷ begin 2 2 (pos 86400000000) (ok bought) (record praise { key = none })
      ∷ go_on 1 committed
      ∷ go_on 2 committed
      ∷ reported_by 11
    ++ reported_by 12
    ++ reported_by 12
    ++ reported_by 13

stored_and_hidden : (run busy init).db.reviews ≡ written hidden_pending_review ∷ []
unfolding run ◌-ℤ◌
stored_and_hidden = refl

stars_counted :
    distribution (some (pos 4) ∷ none ∷ some (pos 2) ∷ some (pos 4) ∷ [])
    ≡ (pos 1, 0) ∷ (pos 2, 1) ∷ (pos 3, 0) ∷ (pos 4, 2) ∷ (pos 5, 0) ∷ []
unfolding distribution
stars_counted = refl

late_review :
    (submit_review committed 1 (pos 7776000000001) (ok bought) praise empty).0 ≡ http_error 422
unfolding submit_review ◌-ℤ◌
late_review = refl

undelivered :
    (submit_review committed 1
      (pos 0)
      (ok (record bought { status = some dispatched }))
      praise
      empty).0
    ≡ http_error 403
unfolding submit_review
undelivered = refl

submission_exact_example :
    is_ok (submit_review committed 1 (pos 0) (ok bought) praise empty).0
    ≡ is_eligible (attempt (pos 0) bought praise empty)
      && is_star (whole (pos 4))
      && is_star_if_given none
submission_exact_example = submission_exact 1 (pos 0) bought praise empty refl refl

abbrev first_id : ℕ
first_id = 1

hidden_by_three_example : 3 ≤ distinct_reporters 1 (run busy init).db.reports
unfolding run ◌-ℤ◌
hidden_by_three_example = hidden_by_three busy 1 (written hidden_pending_review) refl refl

summaries-AddsUp_example :
    let db = (run busy init).db in AddsUp (product_summary 31 db) × AddsUp (seller_summary 8 db)
summaries-AddsUp_example = summaries-AddsUp busy 31 8

abbrev one_review : ModerationState → Database
one_review state = record { reviews = written state ∷ []; reports = []; outbox = []; keys = [] }

abbrev complaints : List Call
complaints =
    complain committed committed (by 11)
    ∷ complain committed committed (by 12)
    ∷ complain committed committed (by 13)
    ∷ submit committed 2 (pos 0) (ok bought) (record praise { product_id = 30; key = none })
    ∷ []

ruling_stands_example :
    let db' = serve_all complaints (one_review cleared) in
    ((q : Review) × (find_review 1 db'.reviews ≡ some q) × (q.moderation_state ≡ cleared))
    × ((code : ℕ) × (report_review committed committed (by 14) db' ≡ (http_error code, db')))
ruling_stands_example =
    ruling_stands complaints (one_review cleared) 1 (written cleared) committed committed (by 14)
      refl refl refl

abbrev filed : ℕ → ReviewReport
filed reporter = record { review_id = 1; reporter_id = reporter; reason = fake; note = none }

abbrev twice_reported : System
twice_reported = record {
  db = record {
    reviews = written visible ∷ [];
    reports = filed 11 ∷ filed 12 ∷ [];
    outbox = [];
    keys = [];
  };
  pending = λ _. idle;
}

ruling_overturned_example :
    ((q : Review) × (find_review 1 (run (take_two (by 13)) twice_reported).db.reviews ≡ some q)
      × (q.moderation_state ≡ cleared))
    × ((q : Review) × (find_review 1 (run (overtaken (by 13)) twice_reported).db.reviews ≡ some q)
        × (q.moderation_state ≡ hidden_pending_review))
ruling_overturned_example =
    ruling_overturned twice_reported (by 13) spam (written visible) refl refl refl refl refl refl
