-- ===== src/Saga/Progress.antt =====
-- How far a run of a saga can go, and what it charges
-- (services/order-saga/app/services/transitions.py).
use ecommerce_platform.Base.{
  refl, if◌then◌else◌, [], suc, ◌∷◌, List, ℕ, ◌+◌, ◌≤◌, ◌<◌, Bool, true, false, ◌≡◌, ◌⊎◌, arith,
}
use ecommerce_platform.Saga.{
  is_cod, is_terminal, SagaStatus, pending, inventory_reserved, paid, order_completed, failed,
  timed_out, rollback_completed, Command, charge_payment, PaymentMethod, card, cod, other_method,
  resolve,
}
use mathlib.Core.Logic.{ite}
use ecommerce_platform.Saga.Reaper.{reap}
use ecommerce_platform.Saga.Run.{count-append, run, Input, step, count}

-- How far a saga is from its end.
abbrev pub rank : SagaStatus → ℕ
rank pending = 0
rank inventory_reserved = 1
rank paid = 2
rank failed = 3
rank timed_out = 3
rank order_completed = 4
rank rollback_completed = 4

step-progress :
    (m : PaymentMethod) (s : SagaStatus) (i : Input)
    → ((step m s i).0 ≡ s) ⊎ (rank s < rank (step m s i).0)
unfolding step resolve reap
step-progress m s i = ground arith

abbrev pub is_charge : Command → Bool
is_charge charge_payment = true
is_charge _ = false

abbrev charges_left : PaymentMethod → SagaStatus → ℕ
charges_left card pending = 1
charges_left (other_method name) pending = 1
charges_left _ _ = 0

charges-step :
    (m : PaymentMethod) (s : SagaStatus) (i : Input)
    → count is_charge (step m s i).1 + charges_left m (step m s i).0 ≤ charges_left m s
unfolding step resolve reap
charges-step m s i = ground arith

SagaStatus-discrete : Discrete SagaStatus
SagaStatus-discrete = hlevel

-- How many inputs of a run change the status.
unfoldable pub moves : PaymentMethod → SagaStatus → List Input → ℕ
unfolding SagaStatus-discrete
moves m s [] = 0
moves m s (i ∷ is) =
    let s' = (step m s i).0 in
    let later = moves m s' is in ite (SagaStatus-discrete s' s) later (suc later)

rank-le : (s : SagaStatus) → rank s ≤ 4
rank-le pending = omega arith
rank-le s = omega arith

moves-rank : (m : PaymentMethod) (s : SagaStatus) (is : List Input) → moves m s is + rank s ≤ 4
unfolding moves
moves-rank m s [] = omega (arith, rank-le s)
moves-rank m s (i ∷ is) =
    ground (arith, step-progress m s i, moves-rank m (step m s i).0 is, rank-le s)

-- Whatever is delivered to a saga and however often it is swept, its status changes at most four
-- times.
pub moves_bounded : (m : PaymentMethod) (s : SagaStatus) (is : List Input) → moves m s is ≤ 4
moves_bounded m s is = omega (arith, moves-rank m s is)

charges-run :
    (m : PaymentMethod) (s : SagaStatus) (is : List Input)
    → count is_charge (run m s is).1 ≤ charges_left m s
unfolding run
charges-run m s [] = omega arith
charges-run m s (i ∷ is) =
    let (s', cs) = step m s i in
    omega
      (arith, charges-step m s i, charges-run m s' is, count-append is_charge cs (run m s' is).1)

-- Over a whole life that begins at PENDING, a saga emits ChargePaymentCommand at most once, and
-- never if the order is cash on delivery.
pub charged_at_most_once :
    (m : PaymentMethod) (is : List Input)
    → count is_charge (run m pending is).1 ≤ (if is_cod m then 0 else 1)
charged_at_most_once card is = charges-run card pending is
charged_at_most_once cod is = charges-run cod pending is
charged_at_most_once (other_method name) is = charges-run (other_method name) pending is

step_terminal :
    (m : PaymentMethod) (s : SagaStatus) (i : Input) → is_terminal s ≡ true → (step m s i).0 ≡ s
unfolding step resolve reap
step_terminal m s i h = ground arith

-- No input moves a saga out of ORDER_COMPLETED or ROLLBACK_COMPLETED.
pub terminal_absorbs :
    (m : PaymentMethod) (s : SagaStatus) (is : List Input)
    → is_terminal s ≡ true
    → (run m s is).0 ≡ s
unfolding run
terminal_absorbs m s [] h = refl
terminal_absorbs m s (i ∷ is) h = rw (step_terminal m s i h) (terminal_absorbs m s is h)
