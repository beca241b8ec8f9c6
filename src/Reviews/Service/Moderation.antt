-- ===== src/Reviews/Service/Moderation.antt =====
-- Reports and rulings: report_review and moderate_review of
-- services/reviews-service/app/services/review_service.py. A report is committed before the
-- reporters are counted, and the review that was read first is not read again.
use ecommerce_platform.Base.{◌∷◌, ℕ, any, Option, if◌then◌else◌, none, some, ◌==◌, ◌++◌, []}
use Prim.Native.String.{String}
use ecommerce_platform.Base.Http.{Response, ok, http_error}
use ecommerce_platform.Reviews.{
  Verdict, ModerationState, ReportReason, allowed, http_status, may_report, state_after_report,
  removed, cleared,
}
use ecommerce_platform.Reviews.Table.{
  Review, ReviewReport, Database, review_hidden, review_moderated, find_review, is_by,
  distinct_reporters, set_state, same_state,
}
use ecommerce_platform.Reviews.Service.{Commit, committed, broken}

-- `reason` is `none` if it is not one of the reasons.
pub record Report : Type 0 where
  pub review_id : ℕ
  pub reporter_id : ℕ
  pub reason : Option ReportReason
  pub note : Option String

unfoldable pub admit : Verdict → Review → Response Review
unfolding http_status
admit allowed r = ok r
admit verdict r = http_error (http_status verdict)

-- report_review up to its first write: the review as it was read.
unfoldable pub begin_report : Report → Database → Response Review
unfolding may_report admit
begin_report report db = elim (report.reason) [
  | none ↦ http_error 422
  | some reason ↦ elim (find_review report.review_id db.reviews) [
    | none ↦ http_error 404
    | some r ↦ admit (may_report (some r.moderation_state) (r.buyer_id == report.reporter_id)) r
  ]
]

abbrev pub report_row : Review → Report → ReportReason → ReviewReport
report_row r report reason = record {
  review_id = r.id;
  reporter_id = report.reporter_id;
  reason = reason;
  note = report.note;
}

-- The report's own commit: `none` if it went through.
unfoldable pub file_report : Commit → Review → Report → Database → Option ℕ × Database
file_report commit r report db = elim (report.reason) [
  | none ↦ (some 422, db)
  | some reason ↦
      if any (is_by r.id report.reporter_id) db.reports then (some 409, db) else elim commit [
        | broken ↦ (some 500, db)
        | committed ↦ (none, record db { reports = report_row r report reason ∷ db.reports })
      ]
]

pub record Reported : Type 0 where
  pub distinct : ℕ
  pub state : ModerationState

-- The count, and the second commit if the state has changed from the one that was read.
abbrev pub change_state :
    Commit → Review → ℕ → ModerationState → Database → Response Reported × Database
change_state commit r reporters state db =
    if same_state state r.moderation_state
    then (ok (record { distinct = reporters; state = r.moderation_state }), db)
    else elim commit [
      | broken ↦ (http_error 500, db)
      | committed ↦ (
        ok (record { distinct = reporters; state = state }),
        record db {
          reviews = set_state r.id state db.reviews;
          outbox = db.outbox ++ review_hidden r reporters ∷ [];
        },
      )
    ]

unfoldable pub count_report : Commit → Review → Database → Response Reported × Database
unfolding state_after_report
count_report commit r db =
    let reporters = distinct_reporters r.id db.reports in
    change_state commit r reporters (state_after_report (some r.moderation_state) reporters) db

abbrev pub after_filing : Commit → Review → Option ℕ × Database → Response Reported × Database
unfolding count_report
after_filing commit r (some code, db) = (http_error code, db)
after_filing commit r (none, db) = count_report commit r db

unfoldable pub report_review : Commit → Commit → Report → Database → Response Reported × Database
unfolding begin_report file_report after_filing
report_review first second report db = elim (begin_report report db) [
  | http_error code ↦ (http_error code, db)
  | ok r ↦ after_filing second r (file_report first r report db)
]

-- `remove`, `clear`, or any other text.
pub data Ruling : Type 0 where
  remove clear unknown_ruling : Ruling

abbrev pub ruled : Ruling → Option ModerationState
ruled remove = some removed
ruled clear = some cleared
ruled unknown_ruling = none

unfoldable pub moderate_review : Commit → ℕ → Ruling → Database → Response Review × Database
moderate_review commit id ruling db = elim (ruled ruling) [
  | none ↦ (http_error 422, db)
  | some state ↦ elim (find_review id db.reviews) [
    | none ↦ (http_error 404, db)
    | some r ↦ elim commit [
      | broken ↦ (http_error 500, db)
      | committed ↦ (
        ok (record r { moderation_state = state }),
        record db {
          reviews = set_state id state db.reviews;
          outbox = db.outbox ++ review_moderated (record r { moderation_state = state }) ∷ [];
        },
      )
    ]
  ]
]
