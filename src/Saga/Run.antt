-- ===== src/Saga/Run.antt =====
-- The life of one saga row: events that callers deliver, and passes of the reaper, in any order.
-- A step is what advance_saga (services/order-saga/app/services/saga_orchestrator.py) and
-- saga_reaper_loop (services/order-saga/app/main.py) commit for that row.
use ecommerce_platform.Base.{
  ℕ, ◌+◌, Bool, Option, none, some, List, [], ◌∷◌, ◌++◌, length, keep_if, arith, ◌≡◌,
}
use ecommerce_platform.Saga.{
  SagaStatus, EventType, Command, PaymentMethod, Decision, apply, compensate, late_duplicate,
  out_of_order, unknown_event, resolve,
}
use ecommerce_platform.Saga.Reaper.{reap}

pub data Input : Type 0 where
  deliver : EventType → Input
  sweep : Bool → Input

abbrev pub to_list {ℓ} : {A : Type ℓ} → Option A → List A
to_list none = []
to_list (some a) = a ∷ []

abbrev pub or_else {ℓ} : {A : Type ℓ} → Option A → A → A
or_else none d = d
or_else (some a) d = a

-- What is committed for a decision: APPLY moves the status, COMPENSATE only emits, and the others
-- are rolled back.
unfoldable pub commit_decision : Decision → SagaStatus → SagaStatus × List Command
commit_decision d s = elim (d.outcome) [
  | apply ↦ (or_else d.new_status s, to_list d.command)
  | compensate ↦ (s, to_list d.command)
  | late_duplicate ↦ (s, [])
  | out_of_order ↦ (s, [])
  | unknown_event ↦ (s, [])
]

unfoldable pub step : PaymentMethod → SagaStatus → Input → SagaStatus × List Command
unfolding commit_decision
step m s (deliver e) = commit_decision (resolve s e m) s
step m s (sweep stale) = or_else (reap stale m s) (s, [])

-- The final status, and every command emitted on the way.
unfoldable pub run : PaymentMethod → SagaStatus → List Input → SagaStatus × List Command
run m s [] = (s, [])
run m s (i ∷ is) =
    let (s', cs) = step m s i in let (final, rest) = run m s' is in (final, cs ++ rest)

-- How many commands of a list satisfy a test.
abbrev pub count : (Command → Bool) → List Command → ℕ
count p cs = length (keep_if p cs)

pub count-append :
    (p : Command → Bool) (cs ds : List Command) → count p (cs ++ ds) ≡ count p cs + count p ds
count-append p [] ds = omega arith
count-append p (c ∷ cs) ds = ground (arith, count-append p cs ds)
