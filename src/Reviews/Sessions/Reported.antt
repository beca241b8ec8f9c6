-- ===== src/Reviews/Sessions/Reported.antt =====
-- Reports after a ruling: report_review of
-- services/reviews-service/app/services/review_service.py.
use ecommerce_platform.Reviews.Service.{
  submit_review, begin_review, edit_review, Commit, committed, broken,
}
use ecommerce_platform.Reviews.{
  not_delivered, not_in_order, window_closed, ModerationState, Verdict, allowed, not_the_buyer,
  already_reviewed, http_status, may_report, state_after_report, visible, hidden_pending_review,
  removed, cleared,
}
use ecommerce_platform.Reviews.Sessions.Sound.{find-id}
use ecommerce_platform.Reviews.Sessions.Rulings.{
  Call, submit, revise, complain, serve, serve_all, publish-Stands, edit_review-Stands, is_ruled,
  Stands,
}
use ecommerce_platform.Base.{
  ap, Option-cases, inr, ==_iff, Bool, ◌≡◌, [], inl, ℕ, Bool-cases, some, ◌∙◌, ◌==◌, List, sym,
  false, ◌∷◌, true, refl, any,
}
use mathlib.Core.Path.{subst}
use ecommerce_platform.Base.Http.{Response, ok, http_error}
use ecommerce_platform.Reviews.Table.{
  Review, Database, find_review, is_by, set_state, distinct_reporters, same_state,
}
use ecommerce_platform.Reviews.Service.Moderation.{
  Report, Reported, begin_report, admit, file_report, change_state, count_report, after_filing,
  report_review, report_row,
}

find-set_state :
    (id other : ℕ) (state : ModerationState) (rs : List Review)
    → (other == id) ≡ false
    → find_review id (set_state other state rs) ≡ find_review id rs
find-set_state id other state [] d = refl
find-set_state id other state (x ∷ xs) d = elim (Bool-cases (x.id == other)) [
  | inl e ↦
      let differs : (x.id == id) ≡ false = rw ((==_iff x.id other).0 e) d in rw (e, differs) refl
  | inr e ↦ rw (e, find-set_state id other state xs d) refl
]

change_state-other :
    (state new : ModerationState) (id : ℕ) (commit : Commit) (q : Review) (n : ℕ) (db : Database)
    → (q.id == id) ≡ false
    → Stands state id db
    → Stands state id (change_state commit q n new db).1
change_state-other state new id commit q n db d (r, f, s) =
    elim (Bool-cases (same_state new q.moderation_state)) [
      | inl e ↦ rw e (r, f, s)
      | inr e ↦ elim commit as (λ c. Stands state id (change_state c q n new db).1) [
        | broken ↦ rw e (r, f, s)
        | committed ↦ rw e (r, find-set_state id q.id new db.reviews d ∙ f, s)
      ]
    ]

filed-Stands :
    (state : ModerationState) (id : ℕ) (first second : Commit) (q : Review) (report : Report)
    (db : Database)
    → (q.id == id) ≡ false
    → Stands state id db
    → Stands state id (after_filing second q (file_report first q report db)).1
unfolding file_report count_report
filed-Stands state id first second q report db d h = elim (Option-cases (report.reason)) [
  | inl e ↦ rw (file_report, e) h
  | inr (reason, e) ↦ elim (Bool-cases (any (is_by q.id report.reporter_id) db.reports)) [
    | inl f ↦ rw (file_report, e, f) h
    | inr f ↦
        elim first as (λ c. Stands state id (after_filing second q (file_report c q report db)).1) [
          | broken ↦ rw (file_report, e, f) h
          | committed ↦
              let db' : Database = record db {
                reports = report_row q report reason ∷ db.reports;
              } in
              rw (file_report, e, f)
                (change_state-other state
                  (state_after_report (some q.moderation_state)
                    (distinct_reporters q.id db'.reports))
                  id second q (distinct_reporters q.id db'.reports) db' d h)
        ]
  ]
]

-- A ruled review cannot be reported.
ruled_refused :
    (state : ModerationState) (author : Bool) (r : Review)
    → is_ruled state ≡ true
    → (code : ℕ) × (admit (may_report (some state) author) r ≡ http_error code)
unfolding admit may_report
ruled_refused visible author r h = cc h
ruled_refused hidden_pending_review author r h = cc h
ruled_refused removed true r h = (http_status not_the_buyer, refl)
ruled_refused removed false r h = (http_status already_reviewed, refl)
ruled_refused cleared true r h = (http_status not_the_buyer, refl)
ruled_refused cleared false r h = (http_status already_reviewed, refl)

refused_on :
    (state : ModerationState) (first second : Commit) (report : Report) (db : Database)
    → is_ruled state ≡ true
    → Stands state report.review_id db
    → (code : ℕ) × (report_review first second report db ≡ (http_error code, db))
unfolding report_review begin_report
refused_on state first second report db ruled (r, f, s) = elim (Option-cases (report.reason)) [
  | inl e ↦ (422, rw (report_review, begin_report, e) refl)
  | inr (reason, e) ↦
      let (code, answer) =
        ruled_refused r.moderation_state (r.buyer_id == report.reporter_id) r (rw s ruled) in
      (code, rw (report_review, begin_report, e, f, answer) refl)
]

admitted : (v : Verdict) (r q : Review) → admit v r ≡ ok q → r ≡ q
unfolding admit
admitted allowed r q h = cc h
admitted not_delivered r q h = cc h
admitted not_in_order r q h = cc h
admitted already_reviewed r q h = cc h
admitted window_closed r q h = cc h
admitted not_the_buyer r q h = cc h

-- What a report has read is the stored review.
pub read_of :
    (report : Report) (db : Database) (q : Review)
    → begin_report report db ≡ ok q
    → find_review report.review_id db.reviews ≡ some q
unfolding begin_report
read_of report db q h = elim (Option-cases (report.reason)) [
  | inl e ↦ let failed : http_error 422 ≡ ok q = rw (begin_report, e) at h in cc failed
  | inr (reason, e) ↦ elim (Option-cases (find_review report.review_id db.reviews)) [
    | inl f ↦ let failed : http_error 404 ≡ ok q = rw (begin_report, e, f) at h in cc failed
    | inr (r, f) ↦
        let v = may_report (some r.moderation_state) (r.buyer_id == report.reporter_id) in
        let passed : admit v r ≡ ok q = rw (begin_report, e, f) at h in
        f ∙ ap some (admitted v r q passed)
  ]
]

report-Stands :
    (state : ModerationState) (id : ℕ) (first second : Commit) (report : Report) (db : Database)
    → is_ruled state ≡ true
    → Stands state id db
    → Stands state id (report_review first second report db).1
unfolding report_review
report-Stands state id first second report db ruled h = elim (Bool-cases (report.review_id == id)) [
  | inl mine ↦
      let (code, e) =
        refused_on state first second report db ruled
          (subst (λ n. Stands state n db) (sym ((==_iff report.review_id id).0 mine)) h) in
      subst (λ (o : Response Reported × Database). Stands state id o.1) (sym e) h
  | inr other ↦ go (begin_report report db) refl other
]
  where
    go :
        (o : Response Review)
        → begin_report report db ≡ o
        → (report.review_id == id) ≡ false
        → Stands state id (report_review first second report db).1
    go (http_error code) e d = rw (report_review, e) h
    go (ok q) e d =
        rw (report_review, e)
          (filed-Stands state id first second q report db
            (rw (find-id report.review_id db.reviews q (read_of report db q e)) d) h)

serve_all-Stands :
    (state : ModerationState) (id : ℕ) (calls : List Call) (db : Database)
    → is_ruled state ≡ true
    → Stands state id db
    → Stands state id (serve_all calls db)
unfolding serve_all serve submit_review
serve_all-Stands state id [] db ruled h = h
serve_all-Stands state id (submit commit new now fetched request ∷ cs) db ruled h =
    serve_all-Stands state id cs (submit_review commit new now fetched request db).1 ruled
      (publish-Stands state id commit (begin_review new now fetched request db) db h)
serve_all-Stands state id (revise commit other now e ∷ cs) db ruled h =
    serve_all-Stands state id cs (edit_review commit other now e db).1 ruled
      (edit_review-Stands state id commit other now e db h)
serve_all-Stands state id (complain first second report ∷ cs) db ruled h =
    serve_all-Stands state id cs (report_review first second report db).1 ruled
      (report-Stands state id first second report db ruled h)

-- A review that a moderator has removed or cleared stays so through any sequence of submissions, edits
-- and reports that are served one after another, and each further report of it is refused and
-- changes nothing.
pub ruling_stands :
    (calls : List Call) (db : Database) (id : ℕ) (r : Review) (first second : Commit)
    (report : Report)
    → find_review id db.reviews ≡ some r
    → is_ruled r.moderation_state ≡ true
    → report.review_id ≡ id
    → let db' = serve_all calls db in
      ((q : Review) × (find_review id db'.reviews ≡ some q)
        × (q.moderation_state ≡ r.moderation_state))
      × ((code : ℕ) × (report_review first second report db' ≡ (http_error code, db')))
ruling_stands calls db id r first second report f ruled same =
    let h = serve_all-Stands r.moderation_state id calls db ruled (r, f, refl) in
    (h, refused_on r.moderation_state first second report (serve_all calls db) ruled (rw same h))
