-- ===== src/Dispatcher/Queue/Attempts.antt =====
-- How often the dispatcher of workers/saga-dispatcher/app/main.py tries a command, and how the trying
-- ends.
use mathlib.Core.Path.{subst}
use ecommerce_platform.Base.{
  ◌+◌, sym, ℕ, zero, suc, true, false, List, [], ◌∷◌, ◌&&◌, ◌≡◌, ◌≤◌, ◌<◌, refl, arith, ◌⊎◌, inl,
  inr, Bool-cases,
}
use ecommerce_platform.Dispatcher.{disposition_after, max_attempts}
use ecommerce_platform.Dispatcher.Handle.{World, Attempt, handle}
use ecommerce_platform.Dispatcher.Queue.{
  Row, is_claimable, Event, pass, die_before, die_after, process_one, was_shed, record_outcome,
  settle_later, step, run,
}

-- A row is not both done and given up, has been tried at most fifteen times, and fewer while it is
-- still in the queue.
pub record IsPaced (row : Row) : Type 0 where
  pub apart : (row.processed && row.parked) ≡ false
  pub within : row.attempts ≤ max_attempts
  pub waiting : (is_claimable row ≡ false) ⊎ (row.attempts < max_attempts)

record_outcome-IsPaced :
    (attempt : Attempt) (row : Row)
    → is_claimable row ≡ true
    → IsPaced row
    → IsPaced (record_outcome attempt row)
unfolding record_outcome settle_later disposition_after
record_outcome-IsPaced attempt row c v = ground arith

module _ {S : Type 0} (world : World S) where
  step-IsPaced :
      (e : Event world) (row : Row) (s : S) → IsPaced row → IsPaced (step world e row s).0
  unfolding step process_one
  step-IsPaced (pass due) row s v = elim (Bool-cases (is_claimable row && due)) [
    | inr n ↦ rw n v
    | inl c ↦ elim (Bool-cases row.recorded) [
      | inl r ↦ rw (c, r) (record { apart = ground arith; within = v.within; waiting = inl refl })
      | inr r ↦
          rw (c, r) (record_outcome-IsPaced (handle world row.command s).0 row (ground arith) v)
    ]
  ]
  step-IsPaced die_before row s v = ground arith
  step-IsPaced die_after row s v = ground arith

  pub run-IsPaced :
      (es : List (Event world)) (row : Row) (s : S) → IsPaced row → IsPaced (run world es row s).0
  unfolding run
  run-IsPaced [] row s v = v
  run-IsPaced (e ∷ es) row s v =
      run-IsPaced es (step world e row s).0 (step world e row s).1 (step-IsPaced e row s v)

  -- A row that was processed or parked is never touched again, and makes no call.
  pub finished_stays :
      (es : List (Event world)) (row : Row) (s : S)
      → is_claimable row ≡ false
      → run world es row s ≡ (row, s)
  unfolding run step
  finished_stays [] row s c = refl
  finished_stays (pass due ∷ es) row s c = rw (run, step, c) (finished_stays es row s c)
  finished_stays (die_before ∷ es) row s c = rw (run, step, c) (finished_stays es row s c)
  finished_stays (die_after ∷ es) row s c = rw (run, step, c) (finished_stays es row s c)

  -- If a worker dies after recording a new command's event and before calling anyone, the next pass
  -- marks the command processed, and no service has been called.
  pub death_loses_command :
      (row : Row) (s : S)
      → is_claimable row ≡ true
      → run world (die_before ∷ pass true ∷ []) row s
        ≡ (record row { recorded = true; processed = true }, s)
  unfolding run step process_one
  death_loses_command row s c = rw (run, step, c) (rw (run, step, c) refl)

  -- One more attempt that is not shed: the row is finished, or it has been tried once more.
  abbrev Tried : Row → Row → Type 0
  Tried row row' =
      (is_claimable row' ≡ false)
      ⊎ ((row'.attempts ≡ suc row.attempts)
          × (row'.recorded ≡ false)
          × (row'.command ≡ row.command))

  outcome-Tried :
      (attempt : Attempt) (row : Row)
      → was_shed attempt ≡ false
      → Tried row (record_outcome attempt row)
  unfolding record_outcome settle_later disposition_after
  outcome-Tried attempt row n = ground arith

  pass-Tried :
      (row : Row) (s : S)
      → row.recorded ≡ false
      → was_shed (handle world row.command s).0 ≡ false
      → Tried row (step world (pass true) row s).0
  unfolding step process_one
  pass-Tried row s r n = elim (Bool-cases (is_claimable row)) [
    | inr c ↦ inl (rw c c)
    | inl c ↦ rw (c, r) (outcome-Tried (handle world row.command s).0 row n)
  ]

  abbrev pub passes : ℕ → List (Event world)
  passes zero = []
  passes (suc n) = pass true ∷ passes n

  passes-count :
      (k : ℕ) (row : Row) (s : S)
      → row.recorded ≡ false
      → ((t : S) → was_shed (handle world row.command t).0 ≡ false)
      → (is_claimable (run world (passes k) row s).0 ≡ false)
        ⊎ ((run world (passes k) row s).0.attempts ≡ row.attempts + k)
  unfolding run
  passes-count zero row s r n = inr (omega arith)
  passes-count (suc k) row s r n =
      let (row', s') = step world (pass true) row s in
      elim (pass-Tried row s r (n s)) [
        | inl fin ↦ inl (rw (finished_stays (passes k) row' s' fin) fin)
        | inr (more, r', same) ↦
            elim (passes-count k row' s' r'
              (subst (λ c. (t : S) → was_shed (handle world c t).0 ≡ false) (sym same) n)) [
                | inl fin ↦ inl fin
                | inr m ↦ inr (omega (arith, m, more))
              ]
      ]

  -- A new command whose attempts are never shed by a breaker is processed or parked after fifteen
  -- passes that find it due.
  pub fifteen_passes_decide :
      (row : Row) (s : S)
      → IsPaced row
      → row.recorded ≡ false
      → ((t : S) → was_shed (handle world row.command t).0 ≡ false)
      → is_claimable (run world (passes 15) row s).0 ≡ false
  fifteen_passes_decide row s v r n =
      let after = run-IsPaced (passes 15) row s v in
      elim (passes-count 15 row s r n) [
        | inl fin ↦ fin
        | inr m ↦ elim (after.waiting) [
          | inl fin ↦ fin
          | inr less ↦ absurd (omega (arith, m, less))
        ]
      ]
