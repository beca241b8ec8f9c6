-- ===== src/Saga/Reaper.antt =====
-- The reaper's first query, for one saga row: services/order-saga/app/main.py, saga_reaper_loop.
-- Whether a row is older than fifteen minutes is decided by the database's clock, and is an
-- argument.
use ecommerce_platform.Base.{
  Bool, true, false, ◌&&◌, Option, none, some, List, [], ◌∷◌, if◌then◌else◌,
}
use ecommerce_platform.Saga.{
  SagaStatus, pending, inventory_reserved, paid, timed_out, Command, release_inventory,
  refund_payment, saga_timed_out, PaymentMethod, card, cod, other_method,
}

-- The WHERE clause over payment_method and status.
unfoldable pub is_swept : PaymentMethod → SagaStatus → Bool
is_swept card pending = true
is_swept card inventory_reserved = true
is_swept card paid = true
is_swept cod pending = true
is_swept (other_method name) pending = true
is_swept _ _ = false

-- CASE t.previous_status; a status with no arm gives NULL, whose unnest has no row.
unfoldable pub reaper_commands : SagaStatus → List Command
reaper_commands pending = saga_timed_out ∷ []
reaper_commands inventory_reserved = release_inventory ∷ refund_payment ∷ []
reaper_commands paid = refund_payment ∷ []
reaper_commands _ = []

-- One row: the new status and the commands inserted with it, or nothing when it is not swept.
unfoldable pub reap : Bool → PaymentMethod → SagaStatus → Option (SagaStatus × List Command)
unfolding is_swept reaper_commands
reap stale m s = if stale && is_swept m s then some (timed_out, reaper_commands s) else none
