-- ===== src/Reviews/Sessions.antt =====
-- Requests to reviews-service that overlap:
-- services/reviews-service/app/services/review_service.py. A submission reads and then writes; a
-- report reads, commits its row, and then counts and writes. An edit and a ruling are one step each.
pub mod Sound
pub mod Rulings
pub mod Reported
pub mod Overturned
use ecommerce_platform.Base.Int.{ℤ}
use ecommerce_platform.Base.{◌==◌, [], none, if◌then◌else◌, ℕ, List, Option, some, ◌∷◌}
use ecommerce_platform.Base.Http.{Response, ok, http_error}
use ecommerce_platform.Reviews.{ModerationState}
use ecommerce_platform.Reviews.Table.{Review, Database, empty}
use ecommerce_platform.Reviews.Service.{
  Purchase, Submission, Draft, draft, Commit, Edit, begin_review, publish, edit_review,
}
use ecommerce_platform.Reviews.Service.Moderation.{
  Report, Ruling, begin_report, file_report, count_report, moderate_review,
}

-- What a worker is in the middle of.
pub data Pending : Type 0 where
  idle : Pending
  drafted : Draft → Pending
  filing : Review → Report → Pending
  counting : Review → Pending

pub record System : Type 0 where
  pub db : Database
  pub pending : ℕ → Pending

abbrev pub init : System
init = record { db = empty; pending = λ _. idle }

pub data Event : Type 0 where
  begin : ℕ → ℕ → ℤ → Response Purchase → Submission → Event
  read_report : ℕ → Report → Event
  go_on : ℕ → Commit → Event
  edit : Commit → ℕ → ℤ → Edit → Event
  moderate : Commit → ℕ → Ruling → Event

abbrev pub assign : (ℕ → Pending) → ℕ → Pending → ℕ → Pending
assign pending worker p w = if worker == w then p else pending w

abbrev pub after_read : Report → Response Review → Pending
after_read report (http_error code) = idle
after_read report (ok r) = filing r report

abbrev pub after_file : Review → Option ℕ → Pending
after_file r none = counting r
after_file r (some code) = idle

-- The next step of a worker: what it leaves in the tables, and what it is in the middle of then.
unfoldable pub continue : Commit → Pending → Database → Database × Pending
unfolding publish file_report count_report
continue commit idle db = (db, idle)
continue commit (drafted d) db = ((publish commit d db).1, idle)
continue commit (filing r report) db =
    let filed = file_report commit r report db in (filed.1, after_file r filed.0)
continue commit (counting r) db = ((count_report commit r db).1, idle)

unfoldable pub happen : Event → System → System
unfolding begin_review begin_report continue edit_review moderate_review
happen (begin worker id now fetched request) s = record s {
  pending = assign s.pending worker (drafted (begin_review id now fetched request s.db));
}
happen (read_report worker r) s = record s {
  pending = assign s.pending worker (after_read r (begin_report r s.db));
}
happen (go_on worker commit) s =
    let (db, p) = continue commit (s.pending worker) s.db in
    record { db = db; pending = assign s.pending worker p }
happen (edit commit id now e) s = record s { db = (edit_review commit id now e s.db).1 }
happen (moderate commit id ruling) s = record s { db = (moderate_review commit id ruling s.db).1 }

unfoldable pub run : List Event → System → System
unfolding happen
run [] s = s
run (e ∷ es) s = run es (happen e s)
