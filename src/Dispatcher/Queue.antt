-- ===== src/Dispatcher/Queue.antt =====
-- The life of one outbox row under the dispatcher: the claim, process_one, defer_claim and park_claim
-- of workers/saga-dispatcher/app/main.py. Whether the row's backoff or lease has elapsed is decided
-- by the database's clock, and is an argument; so is whether the worker dies on the way. `recorded`
-- says that processed_events has the row's id for this consumer.
pub mod Attempts
use ecommerce_platform.Base.{Bool, true, false, ℕ, List, [], ◌∷◌, ◌+◌, ◌&&◌, not, if◌then◌else◌}
use ecommerce_platform.Dispatcher.{Disposition, settle, retry, park, disposition_after}
use ecommerce_platform.Dispatcher.Handle.{World, Attempt, done, shed, raised, Command, handle}

pub record Row : Type 0 where
  pub command : Command
  pub attempts : ℕ
  pub processed : Bool
  pub parked : Bool
  pub recorded : Bool

-- The WHERE clause of CLAIM_SQL, as far as the row decides it.
abbrev pub is_claimable : Row → Bool
is_claimable row = not row.processed && not row.parked

-- mark_processed, park_claim, and defer_claim
abbrev pub mark_processed : Row → Row
mark_processed row = record row { processed = true }

abbrev pub park_claim : Row → Row
park_claim row = record row { attempts = row.attempts + 1; parked = true }

abbrev pub defer_claim : Bool → Row → Row
defer_claim count_attempt row = record row {
  attempts = row.attempts + (if count_attempt then 1 else 0);
}

-- The outcome of an attempt, and whether the attempt was shed.
abbrev pub outcome_of : Attempt → Disposition
outcome_of (done d) = d
outcome_of shed = retry
outcome_of raised = retry

abbrev pub was_shed : Attempt → Bool
was_shed (done d) = false
was_shed shed = true
was_shed raised = false

-- What follows an outcome that is not settled, once the event is forgotten.
unfoldable pub settle_later : Disposition → Bool → Row → Row
unfolding disposition_after
settle_later outcome is_shed row =
    let attempts = row.attempts + (if is_shed then 0 else 1) in
    elim (disposition_after outcome attempts) [
      | park ↦ park_claim row
      | retry ↦ defer_claim (not is_shed) row
      | settle ↦ defer_claim (not is_shed) row
    ]

abbrev pub is_settled : Disposition → Bool
is_settled settle = true
is_settled retry = false
is_settled park = false

abbrev pub record_outcome : Attempt → Row → Row
unfolding settle_later
record_outcome attempt row =
    if is_settled (outcome_of attempt)
    then record row { processed = true; recorded = true }
    else settle_later (outcome_of attempt) (was_shed attempt) (record row { recorded = false })

module _ {S : Type 0} (world : World S) where
  -- process_one, for a row that is claimed.
  unfoldable pub process_one : Row → S → Row × S
  unfolding handle record_outcome
  process_one row s =
      if row.recorded
      then (mark_processed row, s)
      else (let (attempt, s') = handle world row.command s in (record_outcome attempt row, s'))

  -- What may happen to a row: a pass of the dispatch loop, which finds it due or not; and a worker
  -- that dies after it has recorded the event, before or after what handle does.
  pub data Event : Type 0 where
    pass : Bool → Event
    die_before die_after : Event

  unfoldable pub step : Event → Row → S → Row × S
  unfolding process_one
  step (pass due) row s = if is_claimable row && due then process_one row s else (row, s)
  step die_before row s = if is_claimable row then (record row { recorded = true }, s) else (row, s)
  step die_after row s =
      if is_claimable row
      then (if row.recorded
          then (row, s)
          else (record row { recorded = true }, (handle world row.command s).1))
      else (row, s)

  unfoldable pub run : List Event → Row → S → Row × S
  unfolding step
  run [] row s = (row, s)
  run (e ∷ es) row s = let (row', s') = step e row s in run es row' s'
