-- ===== src/Seller/Sessions/Vetted/Applied.antt =====
-- A decision that is applied keeps every seller's past true: _apply of
-- services/seller-service/app/services/seller_service.py.
use ecommerce_platform.Base.Int.{ℤ}
use ecommerce_platform.Base.{
  ◌≡◌, All, ==_refl, [], Bool, true, Option, ◌∷◌, List, ℕ, some, refl, false,
}
use ecommerce_platform.Seller.{
  String, SellerStatus, SellerEvent, Decision, moves, invalid, not_allowed,
}
use ecommerce_platform.Seller.Table.{Database, Seller, save}
use ecommerce_platform.Seller.Service.{apply, emit, message, or_else}
use ecommerce_platform.Seller.Sessions.Grows.{
  told, tells, event_code, Grows, Grows-refl, Grows-trans, any-append_left, any-append_right,
}
use ecommerce_platform.Seller.Sessions.Vetted.{Earned, Accepted, Vetted, All-Grows, save-Vetted}

-- The database keeps what it had, and every row's past is true.
abbrev pub Kept : Database → Database → Type 0
Kept before after = Grows before after × All (Vetted after) after.sellers

pub emit-Grows :
    (seller : Seller) (event : SellerEvent) (db : Database) (ss : List Seller)
    → Grows db (emit seller event (record db { sellers = ss }))
unfolding emit
emit-Grows seller event db ss = record {
  docs = λ t id h. h;
  events = λ e id h. any-append_left (tells e id) db.outbox (message seller event ∷ []) h;
}

emit-told :
    (seller : Seller) (event : SellerEvent) (db : Database) (ss : List Seller)
    → told event seller.id (emit seller event (record db { sellers = ss })) ≡ true
unfolding emit message
emit-told seller event db ss =
    any-append_right (tells event seller.id) db.outbox (message seller event ∷ [])
      (rw (==_refl (event_code event), ==_refl seller.id) refl)

-- The row and the database that a decision leads to.
abbrev pub moved : Seller → SellerStatus → Option String → Seller
moved seller status reason = record seller {
  status = some status;
  status_reason = or_else reason seller.status_reason;
}

abbrev pub moved_db :
    Seller → Seller → SellerStatus → SellerEvent → Option String → Database → Database
moved_db loaded seller status event reason written =
    let seller' = moved seller status reason in
    emit seller' event (record written { sellers = save loaded seller' written.sellers })

-- What a decision must show of the database that it leads to, when that holds at least `written`
-- and the decision's event.
abbrev pub Told : Decision → ℕ → Database → Type 0
Told (moves status event text) id db = told event id db ≡ true
Told _ id db = Unit

abbrev pub Earns : Decision → ℕ → Option ℤ → Database → Type 0
Earns (moves status event text) id version db = Earned (some status) id db × Accepted version id db
Earns _ id version db = Unit

abbrev pub applied_db : Seller → Seller → Decision → Option String → Database → Database
applied_db loaded seller (moves status event text) reason written =
    moved_db loaded seller status event reason written
applied_db loaded seller invalid reason written = written
applied_db loaded seller not_allowed reason written = written

pub applied-Grows :
    (loaded seller : Seller) (decision : Decision) (reason : Option String) (written : Database)
    → Grows written (applied_db loaded seller decision reason written)
applied-Grows loaded seller (moves status event text) reason written =
    let seller' = moved seller status reason in
    emit-Grows seller' event written (save loaded seller' written.sellers)
applied-Grows loaded seller invalid reason written = Grows-refl written
applied-Grows loaded seller not_allowed reason written = Grows-refl written

pub applied-Told :
    (loaded seller : Seller) (decision : Decision) (reason : Option String) (written : Database)
    → Told decision seller.id (applied_db loaded seller decision reason written)
applied-Told loaded seller (moves status event text) reason written =
    let seller' = moved seller status reason in
    emit-told seller' event written (save loaded seller' written.sellers)
applied-Told loaded seller invalid reason written = tt
applied-Told loaded seller not_allowed reason written = tt

module _ (loaded seller : Seller) (reason : Option String) (written db : Database)
    (same : seller.id ≡ loaded.id) (grows : Grows db written)
    (rows : All (Vetted db) written.sellers) (before : All (Vetted db) db.sellers) where
  pub apply-Kept :
      (commits : Bool) (decision : Decision)
      → Earns decision seller.id seller.accepted_contract_version
          (applied_db loaded seller decision reason written)
      → Kept db (apply commits loaded seller decision reason written db).1
  unfolding apply emit
  apply-Kept false (moves status event text) earns = (Grows-refl db, before)
  apply-Kept true (moves status event text) earns =
      let db' = moved_db loaded seller status event reason written in
      let g : Grows db db' =
        Grows-trans db written db' grows
          (applied-Grows loaded seller (moves status event text) reason written) in
      (
        g,
        save-Vetted db' loaded (moved seller status reason) written.sellers same earns
            (All-Grows db db' written.sellers g rows),
      )
  apply-Kept commits invalid earns = (Grows-refl db, before)
  apply-Kept commits not_allowed earns = (Grows-refl db, before)
