-- ===== src/Inventory/Service/Settle.antt =====
-- The loop that release_inventory and consume_inventory share
-- (services/inventory-service/app/services/inventory_service.py), over a table whose items cover
-- what its rows hold.
use ecommerce_platform.Base.Int.{
  +ℤ_parts, pos_part, neg_part, zero-+ℤ, +ℤ-zero, +ℤ_assoc, int_laws, ◌≤ℤ◌, ◌+ℤ◌, pos, ◌-ℤ◌, ℤ,
}
use ecommerce_platform.Base.{
  ==_refl, Bool-cases, inl, ==_iff, ◌∙◌, ◌⊎◌, inr, refl, ap, sym, false, ◌∷◌, ℕ, List, ◌≡◌, ◌&&◌,
  All, ◌==◌, if◌then◌else◌, ◌≢◌, [], arith, some, none, Bool, Option, true,
}
use ecommerce_platform.Base.Http.{Response, ok, http_error}
use ecommerce_platform.Inventory.{StockLevel, settled}
use ecommerce_platform.Inventory.Table.{
  InventoryItem, InventoryReservation, HoldStatus, find_item, find_item-set_level, set_level,
}
use ecommerce_platform.Inventory.Service.{
  Faults, Lock, granted, contended, broken, Settlement, Progress, settle_hold, settle_holds,
  settle_item, settle_plan, keep_row,
}

-- What a plan does to a level whose reserved units cover the hold.
pub record IsSettlement (S : Settlement) (shift : ℤ → StockLevel → StockLevel) : Type 0 where
  pub plan_settled :
      (l : StockLevel) (q : ℤ)
      → pos 1 ≤ℤ q
      → q ≤ℤ l.quantity_reserved
      → ((S.plan (some l) q).outcome ≡ settled) × ((S.plan (some l) q).new_level ≡ some (shift q l))
  pub shift_zero : (l : StockLevel) → shift (pos 0) l ≡ l
  pub shift_add : (a b : ℤ) (l : StockLevel) → shift b (shift a l) ≡ shift (a +ℤ b) l
  pub reserved_shift :
      (a : ℤ) (l : StockLevel) → (shift a l).quantity_reserved ≡ l.quantity_reserved -ℤ a

-- The units of a product in the rows that are chosen.
abbrev pub units_of : (InventoryReservation → Bool) → ℕ → List InventoryReservation → ℤ
units_of chosen p [] = pos 0
units_of chosen p (r ∷ rs) =
    (if chosen r && r.product_id == p then r.quantity else pos 0) +ℤ units_of chosen p rs

abbrev pub all_units : (InventoryReservation → Bool) → List InventoryReservation → ℤ
all_units chosen [] = pos 0
all_units chosen (r ∷ rs) = (if chosen r then r.quantity else pos 0) +ℤ all_units chosen rs

-- The rows afterwards.
abbrev pub mark :
    HoldStatus
    → (InventoryReservation → Bool)
    → List InventoryReservation
    → List InventoryReservation
mark final chosen [] = []
mark final chosen (r ∷ rs) =
    (if chosen r then record r { status = final } else r) ∷ mark final chosen rs

abbrev pub Positive : (InventoryReservation → Bool) → List InventoryReservation → Type 0
Positive chosen rows = All (λ r. chosen r ≡ true → pos 1 ≤ℤ r.quantity) rows

-- The row of a product has at least `n` units reserved; without a row, `n` is zero.
abbrev pub Enough : Option InventoryItem → ℤ → Type 0
Enough none n = n ≡ pos 0
Enough (some i) n = n ≤ℤ i.level.quantity_reserved

abbrev pub shifted : (ℤ → StockLevel → StockLevel) → ℤ → Option InventoryItem → Option InventoryItem
shifted shift n none = none
shifted shift n (some i) = some (record i { level = shift n i.level })

pub units_nonneg :
    (chosen : InventoryReservation → Bool) (p : ℕ) (rows : List InventoryReservation)
    → Positive chosen rows
    → pos 0 ≤ℤ units_of chosen p rows
units_nonneg chosen p [] h = omega arith
units_nonneg chosen p (r ∷ rs) h =
    let rest = units_nonneg chosen p rs h.1 in
    let own = if chosen r && r.product_id == p then r.quantity else pos 0 in
    let own_nonneg : pos 0 ≤ℤ own = ground (arith, h.0) in omega (int_laws, rest, own_nonneg)

pub Lock-cases : (l : Lock) → (l ≡ granted) ⊎ ((l ≡ contended) ⊎ (l ≡ broken))
Lock-cases granted = inl refl
Lock-cases contended = inr (inl refl)
Lock-cases broken = inr (inr refl)

module _ (faults : Faults) (S : Settlement) (shift : ℤ → StockLevel → StockLevel) where
  abbrev pub Settles :
      (InventoryReservation → Bool)
      → List InventoryReservation
      → Progress
      → Response (List InventoryReservation × Progress)
      → Type 0
  Settles chosen rows done (http_error code) = (p : ℕ) × (faults.lock p ≢ granted)
  Settles chosen rows done (ok (rows', done')) =
      (rows' ≡ mark S.final chosen rows)
      × ((p : ℕ)
          → find_item p done'.items
            ≡ shifted shift (units_of chosen p rows) (find_item p done.items))
      × (done'.units ≡ done.units +ℤ all_units chosen rows)

  module _ (law : IsSettlement S shift) where
    hold_settled :
        (r : InventoryReservation) (i : InventoryItem) (done : Progress)
        → faults.lock r.product_id ≡ granted
        → find_item r.product_id done.items ≡ some i
        → pos 1 ≤ℤ r.quantity
        → r.quantity ≤ℤ i.level.quantity_reserved
        → settle_hold faults S r done ≡ ok (settle_item S r i (shift r.quantity i.level) done)
    unfolding settle_hold
    hold_settled r i done g f one enough =
        let (o, n) = law.plan_settled i.level r.quantity one enough in
        rw (settle_hold, g, settle_plan, f, o, f, f, n)

    shifted_zero : (o : Option InventoryItem) → o ≡ shifted shift (pos 0) o
    shifted_zero none = refl
    shifted_zero (some i) = ap (λ l. some (record i { level = l })) (sym (law.shift_zero i.level))

    -- The product's own row, or another.
    shift_step :
        (p j : ℕ) (q n : ℤ) (i : InventoryItem) (items : List InventoryItem)
        → find_item j items ≡ some i
        → shifted shift n (find_item p (set_level j (shift q i.level) items))
          ≡ shifted shift ((if j == p then q else pos 0) +ℤ n) (find_item p items)
    shift_step p j q n i items f =
        rw (find_item-set_level p j (shift q i.level) items) (elim (Bool-cases (j == p)) [
          | inl e ↦
              let f' : find_item p items ≡ some i = rw ((==_iff j p).0 e) at f in
              rw (e, f') (ap (λ l. some (record i { level = l })) (law.shift_add q n i.level))
          | inr e ↦ rw (e, zero-+ℤ n)
        ])

    Enough-step :
        (p j : ℕ) (q n : ℤ) (i : InventoryItem) (items : List InventoryItem)
        → find_item j items ≡ some i
        → Enough (find_item p items) ((if j == p then q else pos 0) +ℤ n)
        → Enough (find_item p (set_level j (shift q i.level) items)) n
    Enough-step p j q n i items f h =
        rw (find_item-set_level p j (shift q i.level) items) (elim (Bool-cases (j == p)) [
          | inl e ↦
              let f' : find_item p items ≡ some i = rw ((==_iff j p).0 e) at f in
              let room : q +ℤ n ≤ℤ i.level.quantity_reserved = rw (e, f') at h in
              rw (e, f', law.reserved_shift q i.level) (omega (int_laws, room))
          | inr e ↦ rw e (rw (e, zero-+ℤ n) at h)
        ])

    Settles-kept :
        (chosen : InventoryReservation → Bool) (r : InventoryReservation)
        (rs : List InventoryReservation) (done : Progress)
        (res : Response (List InventoryReservation × Progress))
        → chosen r ≡ false
        → Settles chosen rs done res
        → Settles chosen (r ∷ rs) done (keep_row r res)
    Settles-kept chosen r rs done (http_error code) c h = h
    Settles-kept chosen r rs done (ok (rows, d)) c h =
        rw c (ap (λ t. r ∷ t) h.0, λ p. simp zero-+ℤ (h.1 p), rw zero-+ℤ h.2)

    Settles-settled :
        (chosen : InventoryReservation → Bool) (r : InventoryReservation)
        (rs : List InventoryReservation) (i : InventoryItem) (done : Progress)
        (res : Response (List InventoryReservation × Progress))
        → chosen r ≡ true
        → find_item r.product_id done.items ≡ some i
        → Settles chosen rs (settle_item S r i (shift r.quantity i.level) done) res
        → Settles chosen (r ∷ rs) done (keep_row (record r { status = S.final }) res)
    Settles-settled chosen r rs i done (http_error code) c f h = h
    Settles-settled chosen r rs i done (ok (rows, d)) c f h = rw c (
      ap (λ t. record r { status = S.final } ∷ t) h.0,
      λ p. h.1 p ∙ shift_step p r.product_id r.quantity (units_of chosen p rs) i done.items f,
      h.2 ∙ +ℤ_assoc done.units r.quantity (all_units chosen rs),
    )

    hold_refused :
        (r : InventoryReservation) (done : Progress)
        → (faults.lock r.product_id ≡ granted)
          ⊎ ((code : ℕ) × (settle_hold faults S r done ≡ http_error code)
              × (faults.lock r.product_id ≢ granted))
    unfolding settle_hold
    hold_refused r done = elim (Lock-cases (faults.lock r.product_id)) [
      | inl g ↦ inl g
      | inr (inl e) ↦ inr (409, rw (settle_hold, e), λ g. cc)
      | inr (inr e) ↦ inr (500, rw (settle_hold, e), λ g. cc)
    ]

    -- A chosen row's product has an item, with enough reserved for the row and for those after it.
    own_item :
        (chosen : InventoryReservation → Bool) (r : InventoryReservation)
        (rs : List InventoryReservation) (o : Option InventoryItem)
        → chosen r ≡ true
        → Positive chosen (r ∷ rs)
        → Enough o (units_of chosen r.product_id (r ∷ rs))
        → (i : InventoryItem) × (o ≡ some i) × (r.quantity ≤ℤ i.level.quantity_reserved)
    own_item chosen r rs none c positive enough =
        let rest = units_nonneg chosen r.product_id rs positive.1 in
        let zero_sum : r.quantity +ℤ units_of chosen r.product_id rs ≡ pos 0 =
          rw (c, ==_refl r.product_id) at enough in
        absurd (
          omega (
            int_laws,
            rest,
            positive.0 c,
            +ℤ_parts r.quantity (units_of chosen r.product_id rs),
            ap pos_part zero_sum,
            ap neg_part zero_sum,
          ))
    own_item chosen r rs (some i) c positive enough =
        let rest = units_nonneg chosen r.product_id rs positive.1 in
        let room : r.quantity +ℤ units_of chosen r.product_id rs ≤ℤ i.level.quantity_reserved =
          rw (c, ==_refl r.product_id) at enough in
        (i, refl, omega (int_laws, rest, room))

    -- The loop either meets a lock that is not granted, or settles every chosen row: the rows are
    -- marked, each product's level moves by its chosen units, and the units are counted.
    pub settle_holds-Settles :
        (chosen : InventoryReservation → Bool) (rows : List InventoryReservation) (done : Progress)
        → Positive chosen rows
        → ((p : ℕ) → Enough (find_item p done.items) (units_of chosen p rows))
        → Settles chosen rows done (settle_holds faults S chosen rows done)
    unfolding settle_holds
    settle_holds-Settles chosen [] done pos_rows enough =
        (refl, λ p. shifted_zero (find_item p done.items), sym (+ℤ-zero done.units))
    settle_holds-Settles chosen (r ∷ rs) done pos_rows enough = elim (Bool-cases (chosen r)) [
      | inr c ↦
          rw (settle_holds, c)
            (Settles-kept chosen r rs done (settle_holds faults S chosen rs done) c (
              settle_holds-Settles chosen rs done pos_rows.1
                (λ p. simp (c, zero-+ℤ) at (enough p))))
      | inl c ↦ elim (hold_refused r done) [
        | inr (code, e, g) ↦ rw (settle_holds, c, e) (r.product_id, g)
        | inl g ↦
            let (i, f, room) =
              own_item chosen r rs (find_item r.product_id done.items) c pos_rows
                (enough r.product_id) in
            let done' = settle_item S r i (shift r.quantity i.level) done in
            rw (settle_holds, c, hold_settled r i done g f (pos_rows.0 c) room)
              (Settles-settled chosen r rs i done (settle_holds faults S chosen rs done') c f (
                settle_holds-Settles chosen rs done' pos_rows.1 (λ p.
                  Enough-step p r.product_id r.quantity (units_of chosen p rs) i done.items f
                    (rw c at (enough p)))))
      ]
    ]
