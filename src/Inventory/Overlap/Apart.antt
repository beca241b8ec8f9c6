-- ===== src/Inventory/Overlap/Apart.antt =====
-- What a release or a consumption has read, while requests of other orders are served
-- (services/inventory-service/app/services/inventory_service.py): the rows that it selected are
-- still the rows that it would select.
use ecommerce_platform.Inventory.Table.{InventoryItem, InventoryReservation, HoldStatus, Database}
use ecommerce_platform.Inventory.{StockLevel}
use ecommerce_platform.Base.Int.{ℤ}
use ecommerce_platform.Base.{
  not, if◌then◌else◌, Bool, true, false, ℕ, List, [], ◌∷◌, ◌++◌, map, any, ◌≡◌, refl, ap, ◌∙◌, sym,
  arith, Bool-cases, inl, inr, ◌==◌, Option, some, none,
}
use mathlib.Core.Path.{subst}
use ecommerce_platform.Base.Http.{Response, ok, http_error}
use ecommerce_platform.Inventory.Service.{
  Faults, Settlement, Progress, settle_hold, settle_holds, keep_row, start, SettleRequest,
  SettleResponse, settle, ReserveRequest, hold_row, reserve_inventory,
}
use ecommerce_platform.Inventory.Service.Settle.{mark}
use ecommerce_platform.Inventory.Service.Release.{named, Done}
use ecommerce_platform.Inventory.Service.Reserve.{Reserves, reserve-Reserves}
use ecommerce_platform.Inventory.Overlap.{settle_seen, settle_later, go_on-same}

-- The rows that were seen are the chosen ones.
abbrev pub Agrees : (InventoryReservation → Bool) → List Bool → List InventoryReservation → Type 0
Agrees chosen [] rs = any chosen rs ≡ false
Agrees chosen (b ∷ bs) [] = b ≡ false × Agrees chosen bs []
Agrees chosen (b ∷ bs) (r ∷ rs) = (chosen r ≡ b) × Agrees chosen bs rs

pub map-Agrees :
    (chosen : InventoryReservation → Bool) (rs : List InventoryReservation)
    → Agrees chosen (map chosen rs) rs
map-Agrees chosen [] = refl
map-Agrees chosen (r ∷ rs) = (refl, map-Agrees chosen rs)

any-Agrees :
    (chosen : InventoryReservation → Bool) (seen : List Bool) (rs : List InventoryReservation)
    → Agrees chosen seen rs
    → any chosen rs ≡ any (λ (b : Bool). b) seen
any-Agrees chosen [] rs h = h
any-Agrees chosen (b ∷ bs) [] h = rw (h.0, sym (any-Agrees chosen bs [] h.1)) refl
any-Agrees chosen (b ∷ bs) (r ∷ rs) h = rw (h.0, any-Agrees chosen bs rs h.1) refl

-- A loop that chooses no row.
idle :
    (faults : Faults) (settlement : Settlement) (chosen : InventoryReservation → Bool)
    (rs : List InventoryReservation) (done : Progress)
    → any chosen rs ≡ false
    → settle_holds faults settlement chosen rs done ≡ ok (rs, done)
unfolding settle_holds
idle faults settlement chosen [] done h = refl
idle faults settlement chosen (r ∷ rs) done h = elim (Bool-cases (chosen r)) [
  | inl c ↦ (let f : true ≡ false = rw c at h in cc)
  | inr c ↦
      rw (settle_holds, c) (ap (keep_row r) (idle faults settlement chosen rs done (rw c at h)))
]

holds-Agrees :
    (faults : Faults) (settlement : Settlement) (chosen : InventoryReservation → Bool)
    (seen : List Bool) (rs : List InventoryReservation) (done : Progress)
    → Agrees chosen seen rs
    → settle_holds faults settlement chosen rs done ≡ settle_seen faults settlement seen rs done
unfolding settle_holds settle_seen
holds-Agrees faults settlement chosen [] rs done h = idle faults settlement chosen rs done h
holds-Agrees faults settlement chosen (b ∷ bs) [] done h = refl
holds-Agrees faults settlement chosen (false ∷ bs) (r ∷ rs) done h =
    rw (settle_holds, h.0) (ap (keep_row r) (holds-Agrees faults settlement chosen bs rs done h.1))
holds-Agrees faults settlement chosen (true ∷ bs) (r ∷ rs) done h =
    rw (settle_holds, h.0)
      (go_on-same (settle_holds faults settlement chosen rs) (settle_seen faults settlement bs rs)
        (record r { status = settlement.final }) (settle_hold faults settlement r done)
        (λ d. holds-Agrees faults settlement chosen bs rs d h.1))

-- A request that still sees what it would read settles as one that meets no other.
pub settle-Agrees :
    (settlement : Settlement) (faults : Faults) (request : SettleRequest) (seen : List Bool)
    (db : Database)
    → Agrees (named request) seen db.reservations
    → settle settlement faults request db ≡ settle_later settlement faults seen db
unfolding settle settle_later
settle-Agrees settlement faults request seen db h =
    rw
      (
        sym (any-Agrees (named request) seen db.reservations h),
        holds-Agrees faults settlement (named request) seen db.reservations (start db) h,
      )
      refl

none_chosen :
    (chosen : InventoryReservation → Bool) (r : InventoryReservation)
    (rs : List InventoryReservation)
    → any chosen (r ∷ rs) ≡ false
    → (chosen r ≡ false) × (any chosen rs ≡ false)
none_chosen chosen r rs h = ground arith

any-append :
    (chosen : InventoryReservation → Bool) (rs new : List InventoryReservation)
    → any chosen rs ≡ false
    → any chosen new ≡ false
    → any chosen (rs ++ new) ≡ false
any-append chosen [] new h n = n
any-append chosen (r ∷ rs) new h n =
    let (own, rest) = none_chosen chosen r rs h in rw own (any-append chosen rs new rest n)

pub Agrees-append :
    (chosen : InventoryReservation → Bool) (seen : List Bool) (rs new : List InventoryReservation)
    → Agrees chosen seen rs
    → any chosen new ≡ false
    → Agrees chosen seen (rs ++ new)
Agrees-append chosen [] rs new h n = any-append chosen rs new h n
Agrees-append chosen (b ∷ bs) [] [] h n = h
Agrees-append chosen (b ∷ bs) [] (r ∷ rs) h n =
    let (own, rest) = none_chosen chosen r rs n in
    (own ∙ sym h.0, Agrees-append chosen bs [] rs h.1 rest)
Agrees-append chosen (b ∷ bs) (r ∷ rs) new h n = (h.0, Agrees-append chosen bs rs new h.1 n)

module _ (chosen other : InventoryReservation → Bool) (final : HoldStatus)
    (apart : (r : InventoryReservation)
      → other r ≡ true
      → (chosen r ≡ false) × (chosen (record r { status = final }) ≡ false)) where
  marked : InventoryReservation → InventoryReservation
  marked r = if other r then record r { status = final } else r

  chosen-marked : (r : InventoryReservation) → chosen (marked r) ≡ chosen r
  unfolding marked
  chosen-marked r = elim (Bool-cases (other r)) [
    | inl o ↦ rw (marked, o) ((apart r o).1 ∙ sym (apart r o).0)
    | inr o ↦ rw (marked, o) refl
  ]

  any-marked :
      (rs : List InventoryReservation)
      → any chosen rs ≡ false
      → any chosen (mark final other rs) ≡ false
  unfolding marked
  any-marked [] h = refl
  any-marked (r ∷ rs) h =
      let (own, rest) = none_chosen chosen r rs h in rw (chosen-marked r ∙ own) (any-marked rs rest)

  pub Agrees-mark :
      (seen : List Bool) (rs : List InventoryReservation)
      → Agrees chosen seen rs
      → Agrees chosen seen (mark final other rs)
  unfolding marked
  Agrees-mark [] rs h = any-marked rs h
  Agrees-mark (b ∷ bs) [] h = h
  Agrees-mark (b ∷ bs) (r ∷ rs) h = (chosen-marked r ∙ h.0, Agrees-mark bs rs h.1)

-- Requests of two orders choose no row in common, whatever is done to its status.
named-apart :
    (mine other : SettleRequest) (final : HoldStatus) (r : InventoryReservation)
    → (other.order_id == mine.order_id) ≡ false
    → named other r ≡ true
    → (named mine r ≡ false) × (named mine (record r { status = final }) ≡ false)
named-apart mine other final r d h = ground arith

-- A release or a consumption of another order.
pub settle-keeps :
    (settlement : Settlement) (shift : ℤ → StockLevel → StockLevel) (faults : Faults)
    (mine other : SettleRequest) (seen : List Bool) (db : Database)
    (res : Response SettleResponse × Database)
    → (other.order_id == mine.order_id) ≡ false
    → Done settlement shift faults other db res
    → Agrees (named mine) seen db.reservations
    → Agrees (named mine) seen res.1.reservations
settle-keeps settlement shift faults mine other seen db (http_error code, db') d done h =
    subst (λ (x : Database). Agrees (named mine) seen x.reservations) (sym done.0) h
settle-keeps settlement shift faults mine other seen db (ok answer, db') d done h =
    subst (Agrees (named mine) seen) (sym done.1) (
      Agrees-mark (named mine) (named other) settlement.final
        (λ r. named-apart mine other settlement.final r d) seen db.reservations h)

-- A reservation for another order, or for none.
abbrev pub is_other : ℕ → Option ℕ → Bool
is_other order none = true
is_other order (some o) = not (o == order)

hold_row-other :
    (mine : SettleRequest) (request : ReserveRequest)
    → is_other mine.order_id request.order_id ≡ true
    → any (named mine) (hold_row request) ≡ false
hold_row-other mine request h = ground arith

reserved-keeps :
    (mine : SettleRequest) (seen : List Bool) (request : ReserveRequest) (key : ℕ) (db : Database)
    (res : Response InventoryItem × Database)
    → is_other mine.order_id request.order_id ≡ true
    → Reserves request key db res
    → Agrees (named mine) seen db.reservations
    → Agrees (named mine) seen res.1.reservations
reserved-keeps mine seen request key db (http_error code, db') d (inl e) h =
    subst (λ (x : Database). Agrees (named mine) seen x.reservations) (sym e) h
reserved-keeps mine seen request key db (http_error code, db') d (inr (i, f, short, c, e)) h =
    subst (λ (x : Database). Agrees (named mine) seen x.reservations) (sym e) h
reserved-keeps mine seen request key db (ok item, db') d (inl (rid, k, f, e)) h =
    subst (λ (x : Database). Agrees (named mine) seen x.reservations) (sym e) h
reserved-keeps mine seen request key db (ok item, db') d (inr (i, f, one, le, s, e)) h =
    subst (λ (x : Database). Agrees (named mine) seen x.reservations) (sym e)
      (Agrees-append (named mine) seen db.reservations (hold_row request) h
        (hold_row-other mine request d))

pub reserve-keeps :
    (mine : SettleRequest) (seen : List Bool) (faults : Faults) (request : ReserveRequest) (key : ℕ)
    (db : Database)
    → is_other mine.order_id request.order_id ≡ true
    → Agrees (named mine) seen db.reservations
    → Agrees (named mine) seen (reserve_inventory faults request key db).1.reservations
reserve-keeps mine seen faults request key db d h =
    reserved-keeps mine seen request key db (reserve_inventory faults request key db) d
      (reserve-Reserves faults request key db) h
