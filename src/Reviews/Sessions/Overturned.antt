-- ===== src/Reviews/Sessions/Overturned.antt =====
-- A report that a ruling comes between: report_review and moderate_review of
-- services/reviews-service/app/services/review_service.py.
use ecommerce_platform.Base.{
  found_here, ◌==◌, ==_refl, inl, none, ◌≡◌, any, some, [], ◌∷◌, inr, Bool-cases, List, ap, ◌++◌,
  refl, ℕ, ◌∙◌, false,
}
use ecommerce_platform.Base.Http.{ok}
use ecommerce_platform.Reviews.{
  ModerationState, ReportReason, may_report, state_after_report, visible, hidden_pending_review,
  cleared,
}
use ecommerce_platform.Reviews.Table.{
  Review, Database, find_review, is_by, set_state, distinct_reporters, review_moderated,
}
use ecommerce_platform.Reviews.Service.{committed}
use ecommerce_platform.Reviews.Service.Moderation.{
  Report, clear, begin_report, admit, file_report, count_report, moderate_review, report_row,
}
use ecommerce_platform.Reviews.Sessions.{
  System, Event, continue, happen, run, read_report, moderate, go_on,
}
use ecommerce_platform.Reviews.Sessions.Sound.{find-id}

-- A report is read, the moderator clears the review, and the report goes on.
abbrev pub overtaken : Report → List Event
overtaken report =
    read_report 0 report
    ∷ moderate committed report.review_id clear
    ∷ go_on 0 committed
    ∷ go_on 0 committed
    ∷ []

-- Its first two steps.
abbrev pub take_two : Report → List Event
take_two report = read_report 0 report ∷ moderate committed report.review_id clear ∷ []

find-set_own :
    (id : ℕ) (state : ModerationState) (rs : List Review) (r : Review)
    → find_review id rs ≡ some r
    → find_review id (set_state id state rs) ≡ some (record r { moderation_state = state })
find-set_own id state [] r f = cc f
find-set_own id state (x ∷ xs) r f = elim (Bool-cases (x.id == id)) [
  | inl e ↦
      let equal : x ≡ r = found_here _ _ e f in
      rw (e, e) (ap (λ (y : Review). some (record y { moderation_state = state })) equal)
  | inr e ↦ rw (e, e) (find-set_own id state xs r (rw e at f))
]

read_visible :
    (report : Report) (reason : ReportReason) (r : Review) (db : Database)
    → report.reason ≡ some reason
    → find_review report.review_id db.reviews ≡ some r
    → r.moderation_state ≡ visible
    → (r.buyer_id == report.reporter_id) ≡ false
    → begin_report report db ≡ ok r
unfolding begin_report may_report admit
read_visible report reason r db e f v a = rw (begin_report, e, f, v, a) refl

-- What the three writes make of the tables.
abbrev cleared_db : ℕ → Review → Database → Database
cleared_db id r db = record db {
  reviews = set_state id cleared db.reviews;
  outbox = db.outbox ++ review_moderated (record r { moderation_state = cleared }) ∷ [];
}

clear_written :
    (id : ℕ) (r : Review) (db : Database)
    → find_review id db.reviews ≡ some r
    → (moderate_review committed id clear db).1 ≡ cleared_db id r db
unfolding moderate_review
clear_written id r db f = rw (moderate_review, f) refl

abbrev filed_db : Review → Report → ReportReason → Database → Database
filed_db r report reason db = record db { reports = report_row r report reason ∷ db.reports }

report_written :
    (r : Review) (report : Report) (reason : ReportReason) (db : Database)
    → report.reason ≡ some reason
    → any (is_by r.id report.reporter_id) db.reports ≡ false
    → file_report committed r report db ≡ (none, filed_db r report reason db)
unfolding file_report
report_written r report reason db e n = rw (file_report, e, n) refl

third_reporter :
    (r : Review) (report : Report) (reason : ReportReason) (db : Database)
    → any (is_by r.id report.reporter_id) db.reports ≡ false
    → distinct_reporters r.id db.reports ≡ 2
    → distinct_reporters r.id (filed_db r report reason db).reports ≡ 3
third_reporter r report reason db n two = rw (==_refl r.id, n, two) refl

hidden_written :
    (r : Review) (db : Database)
    → r.moderation_state ≡ visible
    → distinct_reporters r.id db.reports ≡ 3
    → (count_report committed r db).1.reviews ≡ set_state r.id hidden_pending_review db.reviews
unfolding count_report state_after_report
hidden_written r db v three = rw (count_report, v, three) refl

in_order :
    (s : System) (report : Report) (r : Review) (db : Database)
    → begin_report report s.db ≡ ok r
    → file_report committed r report (moderate_review committed report.review_id clear s.db).1
      ≡ (none, db)
    → (run (overtaken report) s).db ≡ (count_report committed r db).1
unfolding run happen continue
in_order s report r db b f = rw (run, b, f) refl

-- A visible review with two distinct reporters, and a third person's report of it, not by its author: if
-- a moderator clears the review after the report has read it, and then the report is filed and
-- counted, the review ends up hidden pending a moderator, though it was cleared.
pub ruling_overturned :
    (s : System) (report : Report) (reason : ReportReason) (r : Review)
    → report.reason ≡ some reason
    → find_review report.review_id s.db.reviews ≡ some r
    → r.moderation_state ≡ visible
    → (r.buyer_id == report.reporter_id) ≡ false
    → any (is_by report.review_id report.reporter_id) s.db.reports ≡ false
    → distinct_reporters report.review_id s.db.reports ≡ 2
    → ((q : Review) × (find_review report.review_id (run (take_two report) s).db.reviews ≡ some q)
        × (q.moderation_state ≡ cleared))
      × ((q : Review) × (find_review report.review_id (run (overtaken report) s).db.reviews
            ≡ some q)
          × (q.moderation_state ≡ hidden_pending_review))
unfolding run happen
ruling_overturned s report reason r e f v a new two =
    let id = report.review_id in
    let own = find-id id s.db.reviews r f in
    let read = read_visible report reason r s.db e f v a in
    let db1 = cleared_db id r s.db in
    let new1 : any (is_by r.id report.reporter_id) s.db.reports ≡ false = rw own new in
    let filed : file_report committed r report (moderate_review committed id clear s.db).1
        ≡ (none, filed_db r report reason db1) =
      rw (clear_written id r s.db f) (report_written r report reason db1 e new1) in
    let db2 = filed_db r report reason db1 in
    let three = third_reporter r report reason db1 new1 (rw own two) in
    let found1 = find-set_own id cleared s.db.reviews r f in
    let cleared1 : Review = record r { moderation_state = cleared } in
    let found3 : find_review id (count_report committed r db2).1.reviews
        ≡ some (record cleared1 { moderation_state = hidden_pending_review }) =
      ap (λ rs. find_review id rs) (hidden_written r db2 v three)
      ∙ ap (λ n. find_review id (set_state n hidden_pending_review db1.reviews)) own
      ∙ find-set_own id hidden_pending_review db1.reviews cleared1 found1 in
    (
      (
        cleared1,
        ap (λ (d : Database). find_review id d.reviews) (clear_written id r s.db f) ∙ found1,
        refl,
      ),
      (
        record cleared1 { moderation_state = hidden_pending_review },
        ap (λ (d : Database). find_review id d.reviews) (in_order s report r db2 read filed)
            ∙ found3,
        refl,
      ),
    )
