-- ===== src/Orchestrator/Reap.antt =====
-- One pass of saga_reaper_loop of services/order-saga/app/main.py: its first query, over the table of
-- sagas, and then its second. Which sagas are old and not locked by another transaction is decided
-- by the database, and is an argument; so is which seller orders are locked.
use ecommerce_platform.Base.{Bool, some, none, ℕ, List, [], ◌∷◌, ◌++◌}
use ecommerce_platform.Saga.{Command}
use ecommerce_platform.Saga.Reaper.{reap}
use ecommerce_platform.Orchestrator.{SagaRow, OutboxMessage, saga_command, timeout, Database}
use ecommerce_platform.Orchestrator.Sweep.{close_stranded}

-- The rows that the INSERT writes for one saga.
abbrev pub timeout_messages : SagaRow → List Command → List OutboxMessage
timeout_messages saga [] = []
timeout_messages saga (c ∷ cs) =
    saga_command c (timeout saga.id saga.user_id saga.status) ∷ timeout_messages saga cs

unfoldable pub reap_rows : (ℕ → Bool) → List SagaRow → List SagaRow
unfolding reap
reap_rows old [] = []
reap_rows old (saga ∷ sagas) =
    elim (reap (old saga.id) saga.payment_method saga.status) [
      | none ↦ saga
      | some (s, cs) ↦ record saga { status = s }
    ]
    ∷ reap_rows old sagas

unfoldable pub reap_messages : (ℕ → Bool) → List SagaRow → List OutboxMessage
unfolding reap
reap_messages old [] = []
reap_messages old (saga ∷ sagas) =
    elim (reap (old saga.id) saga.payment_method saga.status) [
      | none ↦ []
      | some (s, cs) ↦ timeout_messages saga cs
    ]
    ++ reap_messages old sagas

unfoldable pub reap_sagas : (ℕ → Bool) → Database → Database
unfolding reap_rows reap_messages
reap_sagas old db = record db {
  sagas = reap_rows old db.sagas;
  outbox = db.outbox ++ reap_messages old db.sagas;
}

unfoldable pub reaper_pass : (ℕ → Bool) → (ℕ → Bool) → Database → Database
unfolding reap_sagas close_stranded
reaper_pass old held db = close_stranded held (reap_sagas old db)
