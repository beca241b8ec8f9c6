-- ===== src/Inventory/Runs.antt =====
-- Any sequence of requests to inventory-service
-- (services/inventory-service/app/services/inventory_service.py), each meeting whatever locks and
-- commits the database grants it. A release and a consumption are two steps: the held rows are read,
-- and later, when other requests may have been served, settled and committed. A reservation reads
-- what it decides on under a lock, and is one step.
use ecommerce_platform.Base.{
  arith, Option-cases, All, Bool-cases, inl, inr, ◌==◌, ◌&&◌, if◌then◌else◌, ℕ, [], ◌≡◌, ◌∷◌, List,
  some, Option, none, Bool, true, false,
}
use ecommerce_platform.Inventory.Overlap.Apart.{
  settle-Agrees, settle-keeps, reserve-keeps, map-Agrees, Agrees, is_other,
}
use ecommerce_platform.Inventory.Service.Keeps.{
  release-Done, consume-Done, release-IsSound, consume-IsSound,
}
use ecommerce_platform.Inventory.Service.Release.{put_back, retire, named}
use ecommerce_platform.Inventory.Service.{
  SettleResponse, release_inventory, consume_inventory, Faults, ReserveRequest, SettleRequest,
  Settlement, reserve_inventory, releasing, consuming,
}
use ecommerce_platform.Base.Http.{Response}
use ecommerce_platform.Saga.Run.{or_else}
use mathlib.Core.Path.{subst}
use ecommerce_platform.Base.Int.{pos, ◌≤ℤ◌}
use ecommerce_platform.Inventory.Table.{InventoryItem, Database, find_item}
use ecommerce_platform.Inventory.Service.Reserved.{reserve-IsSound}
use ecommerce_platform.Inventory.Invariant.{held_units, IsSound}
use ecommerce_platform.Inventory.Overlap.{seen_by, settle_later}

pub data Leg : Type 0 where
  release consume : Leg

unfoldable pub settlement_of : Leg → Settlement
unfolding releasing consuming
settlement_of release = releasing
settlement_of consume = consuming

-- A release or a consumption that has read its rows.
pub record Ticket : Type 0 where
  pub leg : Leg
  pub request : SettleRequest
  pub seen : List Bool

pub record System : Type 0 where
  pub db : Database
  pub tickets : List (ℕ × Ticket)

-- A reservation; or a worker, by number, that reads for a request, or settles what it has read.
pub data Step : Type 0 where
  reserve : Faults → ReserveRequest → ℕ → Step
  read : ℕ → Leg → SettleRequest → Step
  settle : ℕ → Faults → Step

abbrev pub ticket_of : ℕ → List (ℕ × Ticket) → Option Ticket
ticket_of n [] = none
ticket_of n ((m, t) ∷ ts) = if m == n then some t else ticket_of n ts

abbrev pub without : ℕ → List (ℕ × Ticket) → List (ℕ × Ticket)
without n [] = []
without n ((m, t) ∷ ts) = if m == n then ts else (m, t) ∷ without n ts

unfoldable pub step : Step → System → System
unfolding reserve_inventory settle_later settlement_of
step (reserve faults request key) sys = record sys {
  db = (reserve_inventory faults request key sys.db).1;
}
step (read n leg request) sys = record sys {
  tickets =
      (n, record { leg = leg; request = request; seen = seen_by request sys.db }) ∷ sys.tickets;
}
step (settle n faults) sys = elim (ticket_of n sys.tickets) [
  | none ↦ sys
  | some t ↦ record {
    db = (settle_later (settlement_of t.leg) faults t.seen sys.db).1;
    tickets = without n sys.tickets;
  }
]

unfoldable pub run : List Step → System → System
unfolding step
run [] sys = sys
run (s ∷ ss) sys = run ss (step s sys)

-- Every open ticket is for another order than this one.
abbrev pub others : Option ℕ → List (ℕ × Ticket) → Bool
others order [] = true
others order ((m, t) ∷ ts) = is_other t.request.order_id order && others order ts

-- A step commits nothing for an order for which another worker has read and not yet settled.
abbrev pub is_apart : Step → System → Bool
is_apart (reserve faults request key) sys = others request.order_id sys.tickets
is_apart (read n leg request) sys = true
is_apart (settle n faults) sys = elim (ticket_of n sys.tickets) [
  | none ↦ true
  | some t ↦ others (some t.request.order_id) (without n sys.tickets)
]

unfoldable pub are_apart : List Step → System → Bool
unfolding step
are_apart [] sys = true
are_apart (s ∷ ss) sys = is_apart s sys && are_apart ss (step s sys)

abbrev Current : Database → ℕ × Ticket → Type 0
Current db (n, t) = Agrees (named t.request) t.seen db.reservations

record IsValid (sys : System) : Type 0 where
  sound : IsSound sys.db
  current : All (Current sys.db) sys.tickets

ticket_of-Current :
    (db : Database) (n : ℕ) (ts : List (ℕ × Ticket)) (t : Ticket)
    → ticket_of n ts ≡ some t
    → All (Current db) ts
    → Agrees (named t.request) t.seen db.reservations
ticket_of-Current db n [] t f h = cc
ticket_of-Current db n ((m, u) ∷ ts) t f h = elim (Bool-cases (m == n)) [
  | inl e ↦
      subst
        (λ (x : Option Ticket).
          Agrees (named (or_else x u).request) (or_else x u).seen db.reservations)
        (rw e at f) h.0
  | inr e ↦ ticket_of-Current db n ts t (rw e at f) h.1
]

without-Current :
    (db : Database) (n : ℕ) (ts : List (ℕ × Ticket))
    → All (Current db) ts
    → All (Current db) (without n ts)
without-Current db n [] h = tt
without-Current db n ((m, u) ∷ ts) h = elim (Bool-cases (m == n)) [
  | inl e ↦ rw e h.1
  | inr e ↦ rw e (h.0, without-Current db n ts h.1)
]

both_true : (a b : Bool) → (a && b) ≡ true → (a ≡ true) × (b ≡ true)
both_true a b h = ground arith

-- A change of the database that leaves what the tickets of other orders have read as it was.
others-Current :
    (order : Option ℕ) (db db' : Database) (ts : List (ℕ × Ticket))
    → ((mine : SettleRequest) (seen : List Bool)
        → is_other mine.order_id order ≡ true
        → Agrees (named mine) seen db.reservations
        → Agrees (named mine) seen db'.reservations)
    → others order ts ≡ true
    → All (Current db) ts
    → All (Current db') ts
others-Current order db db' [] keeps apart h = tt
others-Current order db db' ((m, t) ∷ ts) keeps apart h =
    let (own, rest) = both_true (is_other t.request.order_id order) (others order ts) apart in
    (keeps t.request t.seen own h.0, others-Current order db db' ts keeps rest h.1)

-- A sound database, with what the tickets of other orders than `t` have read as it was.
abbrev SettledTo : Ticket → Database → Database → Type 0
SettledTo t db db' =
    IsSound db'
    × ((mine : SettleRequest) (seen : List Bool)
        → is_other mine.order_id (some t.request.order_id) ≡ true
        → Agrees (named mine) seen db.reservations
        → Agrees (named mine) seen db'.reservations)

other_false :
    (mine : SettleRequest) (t : Ticket)
    → is_other mine.order_id (some t.request.order_id) ≡ true
    → (t.request.order_id == mine.order_id) ≡ false
other_false mine t h = ground arith

leg-Settled :
    (leg : Leg) (faults : Faults) (t : Ticket) (db : Database)
    → IsSound db
    → Agrees (named t.request) t.seen db.reservations
    → SettledTo t db (settle_later (settlement_of leg) faults t.seen db).1
unfolding settlement_of release_inventory consume_inventory
leg-Settled release faults t db sound h =
    subst (λ (res : Response SettleResponse × Database). SettledTo t db res.1)
      (settle-Agrees releasing faults t.request t.seen db h)
      (
        release-IsSound faults t.request db sound,
        λ mine seen apart.
            settle-keeps releasing put_back faults mine t.request seen db
              (release_inventory faults t.request db) (other_false mine t apart)
              (release-Done faults t.request db sound),
      )
leg-Settled consume faults t db sound h =
    subst (λ (res : Response SettleResponse × Database). SettledTo t db res.1)
      (settle-Agrees consuming faults t.request t.seen db h)
      (
        consume-IsSound faults t.request db sound,
        λ mine seen apart.
            settle-keeps consuming retire faults mine t.request seen db
              (consume_inventory faults t.request db) (other_false mine t apart)
              (consume-Done faults t.request db sound),
      )

step-IsValid :
    (s : Step) (sys : System) → is_apart s sys ≡ true → IsValid sys → IsValid (step s sys)
unfolding step
step-IsValid (reserve faults request key) sys apart v = record {
  sound = reserve-IsSound faults request key sys.db v.sound;
  current =
      others-Current request.order_id sys.db (reserve_inventory faults request key sys.db).1
        sys.tickets (λ mine seen d. reserve-keeps mine seen faults request key sys.db d) apart
        v.current;
}
step-IsValid (read n leg request) sys apart v = record {
  sound = v.sound;
  current = (map-Agrees (named request) sys.db.reservations, v.current);
}
step-IsValid (settle n faults) sys apart v = elim (Option-cases (ticket_of n sys.tickets)) [
  | inl f ↦ rw (step, f) v
  | inr (t, f) ↦
      let (sound, keeps) =
        leg-Settled t.leg faults t sys.db v.sound
          (ticket_of-Current sys.db n sys.tickets t f v.current) in
      rw (step, f)
        (record {
          sound = sound;
          current =
              others-Current (some t.request.order_id) sys.db
                (settle_later (settlement_of t.leg) faults t.seen sys.db).1 (without n sys.tickets)
                keeps (rw (is_apart, f) at apart) (without-Current sys.db n sys.tickets v.current);
        })
]

run-IsValid :
    (steps : List Step) (sys : System)
    → are_apart steps sys ≡ true
    → IsValid sys
    → IsValid (run steps sys)
unfolding run are_apart
run-IsValid [] sys apart v = v
run-IsValid (s ∷ ss) sys apart v =
    let (own, rest) = both_true (is_apart s sys) (are_apart ss (step s sys)) apart in
    run-IsValid ss (step s sys) rest (step-IsValid s sys own v)

abbrev pub begin : Database → System
begin db = record { db = db; tickets = [] }

-- No sequence of requests oversells, where requests of different orders may overlap, and nothing is
-- committed for an order between the read and the commit of a release or a consumption of it: from a
-- sound database, every item that is found afterwards has a quantity available of zero or more, and
-- reserves at least what live reservations hold of it.
pub never_oversold :
    (steps : List Step) (db : Database) (p : ℕ) (i : InventoryItem)
    → IsSound db
    → are_apart steps (begin db) ≡ true
    → find_item p (run steps (begin db)).db.items ≡ some i
    → (pos 0 ≤ℤ i.level.quantity_available)
      × (held_units p (run steps (begin db)).db.reservations ≤ℤ i.level.quantity_reserved)
never_oversold steps db p i sound apart f =
    let v = run-IsValid steps (begin db) apart (record { sound = sound; current = tt }) in
    rw f at (v.sound.covered p)
