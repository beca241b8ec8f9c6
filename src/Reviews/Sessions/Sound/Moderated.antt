-- ===== src/Reviews/Sessions/Sound/Moderated.antt =====
-- Reports and rulings keep the invariant: report_review and moderate_review of
-- services/reviews-service/app/services/review_service.py.
use ecommerce_platform.Reviews.Sessions.Sound.{
  is_by, Hidden, IsSound, All-more, set_state-Fine, set_state-IsOnce,
}
use ecommerce_platform.Reviews.Service.{Commit, committed, broken}
use ecommerce_platform.Reviews.{
  ModerationState, visible, hidden_pending_review, removed, cleared, state_after_report,
}
use ecommerce_platform.Base.{
  ◌≡◌, List, inr, true, Option-cases, inl, any, sym, refl, ℕ, leb, some, false, arith, ◌∙◌, ◌⊎◌,
  Bool-cases,
}
use mathlib.Core.Path.{subst}
use ecommerce_platform.Reviews.Table.{
  Review, ReviewReport, Database, find_review, distinct_reporters, same_state,
}
use ecommerce_platform.Reviews.Service.Moderation.{
  remove, clear, unknown_ruling, Report, Ruling, ruled, file_report, change_state, count_report,
  moderate_review, report_row,
}

pub file_report-IsSound :
    (commit : Commit) (r : Review) (report : Report) (db : Database)
    → IsSound db
    → IsSound (file_report commit r report db).1
unfolding file_report
file_report-IsSound commit r report db (fine, once) = elim (Option-cases (report.reason)) [
  | inl e ↦ rw (file_report, e) (fine, once)
  | inr (reason, e) ↦ elim (Bool-cases (any (is_by r.id report.reporter_id) db.reports)) [
    | inl f ↦ rw (file_report, e, f) (fine, once)
    | inr f ↦ elim commit as (λ c. IsSound (file_report c r report db).1) [
      | broken ↦ rw (file_report, e, f) (fine, once)
      | committed ↦
          rw (file_report, e, f)
            (All-more (report_row r report reason) db.reports db.reviews fine, once)
    ]
  ]
]

pub state-Hidden :
    (state : ModerationState) (id : ℕ) (reports : List ReviewReport)
    → (same_state (state_after_report (some state) (distinct_reporters id reports)) state ≡ true)
      ⊎ Hidden (state_after_report (some state) (distinct_reporters id reports)) id reports
unfolding state_after_report
state-Hidden visible id reports = elim (Bool-cases (leb 3 (distinct_reporters id reports))) [
  | inl e ↦ inr (rw e (ground arith))
  | inr e ↦ inl (rw e refl)
]
state-Hidden hidden_pending_review id reports = inl refl
state-Hidden removed id reports = inl refl
state-Hidden cleared id reports = inl refl

pub change_state-IsSound :
    (commit : Commit) (r : Review) (n : ℕ) (state : ModerationState) (db : Database)
    → (same_state state r.moderation_state ≡ true) ⊎ Hidden state r.id db.reports
    → IsSound db
    → IsSound (change_state commit r n state db).1
change_state-IsSound commit r n state db h (fine, once) =
    elim (Bool-cases (same_state state r.moderation_state)) [
      | inl e ↦ rw e (fine, once)
      | inr e ↦ elim h [
        | inl same ↦ let clash : true ≡ false = sym same ∙ e in cc clash
        | inr hidden ↦ elim commit as (λ c. IsSound (change_state c r n state db).1) [
          | broken ↦ rw e (fine, once)
          | committed ↦ rw e (
            set_state-Fine db.reports r.id state db.reviews hidden fine,
            set_state-IsOnce r.id state db.reviews once,
          )
        ]
      ]
    ]

pub count_report-IsSound :
    (commit : Commit) (r : Review) (db : Database)
    → IsSound db
    → IsSound (count_report commit r db).1
unfolding count_report
count_report-IsSound commit r db h =
    let n = distinct_reporters r.id db.reports in
    change_state-IsSound commit r n (state_after_report (some r.moderation_state) n) db
      (state-Hidden r.moderation_state r.id db.reports) h

pub ruled-Hidden :
    (ruling : Ruling) (state : ModerationState) (id : ℕ) (reports : List ReviewReport)
    → ruled ruling ≡ some state
    → Hidden state id reports
ruled-Hidden remove state id reports h =
    let equal : removed ≡ state = cc h in subst (λ s. Hidden s id reports) equal tt
ruled-Hidden clear state id reports h =
    let equal : cleared ≡ state = cc h in subst (λ s. Hidden s id reports) equal tt
ruled-Hidden unknown_ruling state id reports h = cc h

pub moderate_review-IsSound :
    (commit : Commit) (id : ℕ) (ruling : Ruling) (db : Database)
    → IsSound db
    → IsSound (moderate_review commit id ruling db).1
unfolding moderate_review
moderate_review-IsSound commit id ruling db (fine, once) = elim (Option-cases (ruled ruling)) [
  | inl e ↦ rw (moderate_review, e) (fine, once)
  | inr (state, e) ↦ elim (Option-cases (find_review id db.reviews)) [
    | inl f ↦ rw (moderate_review, e, f) (fine, once)
    | inr (r, f) ↦ elim commit as (λ c. IsSound (moderate_review c id ruling db).1) [
      | broken ↦ rw (moderate_review, e, f) (fine, once)
      | committed ↦
          rw (moderate_review, e, f)
            (
              set_state-Fine db.reports id state db.reviews
                  (ruled-Hidden ruling state id db.reports e) fine,
              set_state-IsOnce id state db.reviews once,
            )
    ]
  ]
]
