-- ===== src/Orchestrator/Runs.antt =====
-- Any sequence of what order-saga does to its tables: checkouts, events, moves of seller orders
-- (services/order-saga/app/services/saga_orchestrator.py) and passes of the reaper
-- (services/order-saga/app/main.py).
use ecommerce_platform.Base.{Bool, true, ℕ, List, [], ◌∷◌, ◌≡◌}
use ecommerce_platform.Saga.{EventType}
use ecommerce_platform.SellerOrder.{Action}
use ecommerce_platform.Orchestrator.{Database, advance_saga}
use ecommerce_platform.Orchestrator.Start.{CreateOrderRequest, start_saga}
use ecommerce_platform.Orchestrator.Start.Family.{start_saga-agrees}
use ecommerce_platform.Orchestrator.SellerOrders.{TransitionRequest, transition_seller_order}
use ecommerce_platform.Orchestrator.Sweep.{free, close_stranded-agrees}
use ecommerce_platform.Orchestrator.Reap.{reaper_pass, reap_sagas}
use ecommerce_platform.Orchestrator.Children.{agrees, advance_saga-agrees}
use ecommerce_platform.Orchestrator.Children.Moves.{transition_seller_order-agrees}

-- The first argument of a request says whether its commit succeeds. The reaper's passes here find no
-- seller order locked.
pub data Request : Type 0 where
  start : Bool → ℕ → (ℕ → ℕ) → CreateOrderRequest → ℕ → Request
  advance : Bool → ℕ → EventType → ℕ → Request
  move : Bool → ℕ → ℕ → Action → TransitionRequest → Request
  reaper : (ℕ → Bool) → Request

unfoldable pub serve : Request → Database → Database
unfolding start_saga advance_saga transition_seller_order reaper_pass
serve (start commits order new_id request key) db =
    (start_saga commits order new_id request key db).1
serve (advance commits order e key) db = (advance_saga commits order e key db).1
serve (move commits order n action request) db =
    (transition_seller_order commits order n action request db).1
serve (reaper old) db = reaper_pass old free db

unfoldable pub serve_all : List Request → Database → Database
unfolding serve
serve_all [] db = db
serve_all (r ∷ rs) db = serve_all rs (serve r db)

serve-agrees :
    (n : ℕ) (r : Request) (db : Database) → agrees n db ≡ true → agrees n (serve r db) ≡ true
unfolding serve reaper_pass
serve-agrees n (start commits order new_id request key) db h =
    start_saga-agrees n commits order new_id request key db h
serve-agrees n (advance commits order e key) db h = advance_saga-agrees commits n order e key db h
serve-agrees n (move commits order i action request) db h =
    transition_seller_order-agrees commits n order i action request db h
serve-agrees n (reaper old) db h = close_stranded-agrees n (reap_sagas old db)

-- No seller order outlives its saga: for any order, if a saga that has FAILED, TIMED_OUT or been
-- rolled back has no child that could still be cancelled, this stays so through any sequence of
-- checkouts, saga events, moves of seller orders and passes of the reaper that find no seller order
-- locked, in any order, each of whose commits may succeed or fail.
pub children_follow_saga :
    (n : ℕ) (requests : List Request) (db : Database)
    → agrees n db ≡ true
    → agrees n (serve_all requests db) ≡ true
unfolding serve_all
children_follow_saga n [] db h = h
children_follow_saga n (r ∷ rs) db h =
    children_follow_saga n rs (serve r db) (serve-agrees n r db h)
