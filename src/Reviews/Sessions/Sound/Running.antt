-- ===== src/Reviews/Sessions/Sound/Running.antt =====
-- The invariant holds after any overlapping requests to reviews-service:
-- services/reviews-service/app/services/review_service.py.
use ecommerce_platform.Base.{Option, ℕ, Bool-cases, ◌∷◌, inr, none, ◌==◌, inl, List, some, []}
use ecommerce_platform.Base.Http.{Response, ok, http_error}
use ecommerce_platform.Reviews.Table.{Review, Database}
use ecommerce_platform.Reviews.Service.{Commit, begin_review}
use ecommerce_platform.Reviews.Service.Moderation.{Report, begin_report, file_report}
use ecommerce_platform.Reviews.Sessions.{
  Pending, System, Event, init, assign, after_read, after_file, continue, happen, run, idle,
  drafted, filing, counting, begin, read_report, go_on, edit, moderate,
}
use ecommerce_platform.Reviews.Sessions.Sound.{IsSound}
use ecommerce_platform.Reviews.Sessions.Sound.Submitted.{Ready, begin_review-Ready, publish-IsSound}
use ecommerce_platform.Reviews.Sessions.Sound.Moderated.{
  file_report-IsSound, count_report-IsSound, moderate_review-IsSound,
}
use ecommerce_platform.Reviews.Sessions.Sound.Edited.{edit_review-IsSound}

abbrev pub CanGoOn : Pending → Type 0
CanGoOn idle = Unit
CanGoOn (drafted d) = Ready d
CanGoOn (filing r report) = Unit
CanGoOn (counting r) = Unit

pub record IsRunning (s : System) : Type 0 where
  pub sound : IsSound s.db
  pub workers : (worker : ℕ) → CanGoOn (s.pending worker)

pub assign-CanGoOn :
    (pending : ℕ → Pending) (at : ℕ) (p : Pending)
    → ((worker : ℕ) → CanGoOn (pending worker))
    → CanGoOn p
    → (worker : ℕ) → CanGoOn (assign pending at p worker)
assign-CanGoOn pending at p h k worker = elim (Bool-cases (at == worker)) [
  | inl e ↦ rw e k
  | inr e ↦ rw e (h worker)
]

pub continue-IsSound :
    (commit : Commit) (p : Pending) (db : Database)
    → CanGoOn p
    → IsSound db
    → IsSound (continue commit p db).0
unfolding continue
continue-IsSound commit idle db k h = h
continue-IsSound commit (drafted d) db k h = publish-IsSound commit d db k h
continue-IsSound commit (filing r report) db k h = file_report-IsSound commit r report db h
continue-IsSound commit (counting r) db k h = count_report-IsSound commit r db h

pub after_file-CanGoOn : (r : Review) (o : Option ℕ) → CanGoOn (after_file r o)
after_file-CanGoOn r none = tt
after_file-CanGoOn r (some code) = tt

pub continue-CanGoOn :
    (commit : Commit) (p : Pending) (db : Database) → CanGoOn (continue commit p db).1
unfolding continue
continue-CanGoOn commit idle db = tt
continue-CanGoOn commit (drafted d) db = tt
continue-CanGoOn commit (filing r report) db =
    after_file-CanGoOn r (file_report commit r report db).0
continue-CanGoOn commit (counting r) db = tt

pub after_read-CanGoOn : (report : Report) (o : Response Review) → CanGoOn (after_read report o)
after_read-CanGoOn report (http_error code) = tt
after_read-CanGoOn report (ok r) = tt

pub happen-IsRunning : (e : Event) (s : System) → IsRunning s → IsRunning (happen e s)
unfolding happen
happen-IsRunning (begin worker id now fetched request) s h = record {
  sound = h.sound;
  workers =
      assign-CanGoOn s.pending worker (drafted (begin_review id now fetched request s.db)) h.workers
        (begin_review-Ready id now fetched request s.db);
}
happen-IsRunning (read_report worker r) s h = record {
  sound = h.sound;
  workers =
      assign-CanGoOn s.pending worker (after_read r (begin_report r s.db)) h.workers
        (after_read-CanGoOn r (begin_report r s.db));
}
happen-IsRunning (go_on worker commit) s h = record {
  sound = continue-IsSound commit (s.pending worker) s.db (h.workers worker) h.sound;
  workers =
      assign-CanGoOn s.pending worker (continue commit (s.pending worker) s.db).1 h.workers
        (continue-CanGoOn commit (s.pending worker) s.db);
}
happen-IsRunning (edit commit id now e) s h = record {
  sound = edit_review-IsSound commit id now e s.db h.sound;
  workers = h.workers;
}
happen-IsRunning (moderate commit id ruling) s h = record {
  sound = moderate_review-IsSound commit id ruling s.db h.sound;
  workers = h.workers;
}

pub run-IsRunning : (es : List Event) (s : System) → IsRunning s → IsRunning (run es s)
unfolding run
run-IsRunning [] s h = h
run-IsRunning (e ∷ es) s h = run-IsRunning es (happen e s) (happen-IsRunning e s h)

pub run-IsSound : (es : List Event) → IsSound (run es init).db
run-IsSound es = (run-IsRunning es init (record { sound = (tt, tt); workers = λ worker. tt })).sound
