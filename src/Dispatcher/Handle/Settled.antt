-- ===== src/Dispatcher/Handle/Settled.antt =====
-- What it takes for a command to settle: workers/saga-dispatcher/app/main.py.
use ecommerce_platform.Base.{false, true, ℕ, List, [], ◌∷◌, ◌==◌, ◌≡◌, ◌<◌, ◌⊎◌}
use ecommerce_platform.Dispatcher.Handle.{
  Key, of_line, prefixed, Call, reserve_stock, release_order, status, World,
}
use ecommerce_platform.Dispatcher.Items.{ReservationPlan, planned, refused, ItemReservation}
use ecommerce_platform.Saga.{EventType, inventory_reserved_event, inventory_reservation_failed}

module _ {S : Type 0} (world : World S) where
  -- The saga acknowledged the event: applied, or rejected for good.
  abbrev pub Acknowledged : ℕ → EventType → Key → S → Type 0
  Acknowledged order e key s =
      (n : ℕ) × (s' : S) × (world (Call.advance_saga order e key) s ≡ (status n, s'))
      × ((n < 300) ⊎ (n ≡ 422))

  -- The lines were reserved one after another, from `s` to `s'`.
  abbrev pub Reserved : ℕ → ℕ → List ItemReservation → S → S → Type 0
  Reserved msg order [] s s' = s ≡ s'
  Reserved msg order (r ∷ rs) s s' =
      (t : S) × (world (reserve_stock order r (of_line msg r.product_id)) s ≡ (status 200, t))
      × Reserved msg order rs t s'

  -- A release of what the order holds from the state `s` was answered 200, and the failure was
  -- reported from the state that it left.
  abbrev pub Released : ℕ → ℕ → S → Type 0
  Released msg order s =
      (t : S) × (world (release_order order (prefixed "inv-rb" msg)) s ≡ (status 200, t))
      × Acknowledged order inventory_reservation_failed (prefixed "inv-fail" msg) t

  -- From the state `s`, some lines were reserved, the next was answered with another status, and
  -- the release and the report followed from there.
  abbrev pub RolledBack : ℕ → ℕ → List ItemReservation → S → Type 0
  RolledBack msg order [] s = true ≡ false
  RolledBack msg order (r ∷ rs) s =
      (n : ℕ) × (t : S) × (world (reserve_stock order r (of_line msg r.product_id)) s
        ≡ (status n, t))
      × (((n ≡ 200) × RolledBack msg order rs t) ⊎ (((n == 200) ≡ false) × Released msg order t))

  -- Every line was reserved and the success was reported; or the lines were rolled back.
  abbrev pub LinesSettled : ℕ → ℕ → List ItemReservation → S → Type 0
  LinesSettled msg order rs s =
      ((s' : S) × Reserved msg order rs s s'
        × Acknowledged order inventory_reserved_event (prefixed "inv-res" msg) s')
      ⊎ RolledBack msg order rs s

  -- What a settled reservation command comes to, by the plan of its lines.
  abbrev pub ReserveSettled : ℕ → ℕ → ReservationPlan → S → Type 0
  ReserveSettled msg order (refused e) s =
      Acknowledged order inventory_reservation_failed (prefixed "inv-fail" msg) s
  ReserveSettled msg order (planned rs) s = LinesSettled msg order rs s
