-- ===== src/Seller/Sessions/Race.antt =====
-- Two requests that overlap: ban_seller and reinstate_seller of
-- services/seller-service/app/services/seller_service.py.
use ecommerce_platform.Base.Int.{ℤ}
use ecommerce_platform.Base.Text.{strip}
use ecommerce_platform.Seller.Table.{same_status, same_version, column}
use ecommerce_platform.Seller.Sessions.Refused.{IsBanned}
use ecommerce_platform.Seller.Sessions.Banned.{banned_serve}
use ecommerce_platform.Seller.Sessions.Vetted.Loaded.{find_seller-id}
use ecommerce_platform.Base.{
  inr, inl, Option, Bool-cases, ◌==◌, Bool, ◌∙◌, ==_refl, ap, refl, List, false, ◌∷◌, [], true,
  some, ℕ, ◌≡◌,
}
use ecommerce_platform.Base.Http.{ok, http_error}
use ecommerce_platform.Base.Text.{is_blank}
use ecommerce_platform.Seller.{
  String, SellerStatus, may_list_products, plan_ban, plan_reinstatement, suspended, banned, active,
}
use ecommerce_platform.Seller.Table.{
  Database, Seller, save, update_row, find_seller, document_types,
}
use ecommerce_platform.Seller.Service.{Loaded, load, apply, emit, ban_seller, reinstate_seller}
use ecommerce_platform.Seller.Service.Queries.{SellerPermission, get_permission, permission}
use ecommerce_platform.Seller.Sessions.{
  System, Request, Event, run, happen, handle, serve, read, write, ban, reinstate,
}
use ecommerce_platform.Seller.Sessions.Shape.{find-save}

-- Two workers read the suspended seller; the first bans it, then the second reinstates it.
abbrev pub overlapping : ℕ → String → List Event
overlapping id reason =
    read 0 id (ban reason) ∷ read 1 id reinstate ∷ write 0 true ∷ write 1 true ∷ []

module _ (l : Loaded) (b : l.seller.status ≡ some suspended) where
  ban_sellers :
      (reason : String) (db : Database)
      → is_blank reason ≡ false
      → (new : Seller) × ((handle true l (ban reason) db).1.sellers ≡ save l.seller new db.sellers)
        × (new.status ≡ some banned)
        × (new.accepted_contract_version ≡ l.seller.accepted_contract_version)
  unfolding handle ban_seller plan_ban apply emit
  ban_sellers reason db given =
      rw (b, given)
        (
          record l.seller { status = some banned; status_reason = some (strip reason) },
          refl,
          refl,
          refl,
        )

  reinstate_sellers :
      (db : Database)
      → (new : Seller) × ((handle true l reinstate db).1.sellers ≡ save l.seller new db.sellers)
        × (new.status ≡ some active)
        × (new.accepted_contract_version ≡ l.seller.accepted_contract_version)
  unfolding handle reinstate_seller plan_reinstatement apply emit
  reinstate_sellers db =
      rw b (record l.seller { status = some active; status_reason = some "" }, refl, refl, refl)

in_order :
    (s : System) (id : ℕ) (seller : Seller) (reason : String)
    → find_seller id s.db.sellers ≡ some seller
    → let l : Loaded = record { seller = seller; documents = document_types id s.db.documents } in
      (run (overlapping id reason) s).db
      ≡ (handle true l reinstate (handle true l (ban reason) s.db).1).1
unfolding run happen load
in_order s id seller reason f = rw (load, f) refl

-- What a save leaves in a row: the new status if it differs from the loaded one, and the version
-- where nothing has changed it.
saved_status :
    (loaded new s : Seller) (status : Option SellerStatus)
    → loaded.status ≡ some suspended
    → new.status ≡ status
    → same_status (some suspended) status ≡ false
    → (update_row loaded new s).status ≡ status
unfolding update_row
saved_status loaded new s status b n e = rw (b, n, e) refl

column_same {ℓ} :
    {A : Type ℓ} (same : A → A → Bool) (loaded new current a : A)
    → new ≡ a
    → current ≡ a
    → column same loaded new current ≡ a
column_same same loaded new current a n c = elim (Bool-cases (same loaded new)) [
  | inl e ↦ rw e c
  | inr e ↦ rw e n
]

saved_version :
    (loaded new s : Seller) (v : Option ℤ)
    → new.accepted_contract_version ≡ v
    → s.accepted_contract_version ≡ v
    → (update_row loaded new s).accepted_contract_version ≡ v
unfolding update_row
saved_version loaded new s v n c =
    column_same same_version loaded.accepted_contract_version new.accepted_contract_version
      s.accepted_contract_version v n c

may_of :
    (s : Seller) (db : Database) (id : ℕ) (v : Option ℤ)
    → find_seller id db.sellers ≡ some s
    → s.status ≡ some active
    → s.accepted_contract_version ≡ v
    → may_list_products (some active) v ≡ true
    → (p : SellerPermission) × (get_permission id db ≡ ok p)
      × (p.status ≡ some active)
      × (p.may_list ≡ true)
unfolding get_permission permission
may_of s db id v f a e may = (permission s, rw (get_permission, f) refl, a, rw (a, e) may)

served :
    (db : Database) (id : ℕ) (seller : Seller) (request : Request)
    → find_seller id db.sellers ≡ some seller
    → serve true id request db
      ≡ handle true
          (record { seller = seller; documents = document_types id db.documents })
          request
          db
unfolding serve load
served db id seller request f = rw (serve, load, f) refl

refused :
    (db : Database) (id : ℕ) → IsBanned id db → serve true id reinstate db ≡ (http_error 409, db)
refused db id h = elim (banned_serve true reinstate db id h) [ inl e ↦ e | inr (given, e) ↦ cc e ]

-- A suspended seller that has accepted the current contract, a ban with a reason and a
-- reinstatement: if both requests read the seller before either writes, and the ban is committed
-- before the reinstatement, the seller is active and may list products afterwards; if the
-- reinstatement reads the seller after the ban, it is answered 409 and changes nothing.
pub ban_overlapped :
    (s : System) (id : ℕ) (seller : Seller) (reason : String)
    → find_seller id s.db.sellers ≡ some seller
    → seller.status ≡ some suspended
    → may_list_products (some active) seller.accepted_contract_version ≡ true
    → is_blank reason ≡ false
    → let after = (run (overlapping id reason) s).db in
      let in_turn = (serve true id (ban reason) s.db).1 in
      ((p : SellerPermission) × (get_permission id after ≡ ok p)
        × (p.status ≡ some active)
        × (p.may_list ≡ true))
      × (serve true id reinstate in_turn ≡ (http_error 409, in_turn))
ban_overlapped s id seller reason f b may given =
    let l : Loaded = record { seller = seller; documents = document_types id s.db.documents } in
    let mine : (seller.id == id) ≡ true =
      rw (find_seller-id id s.db.sellers seller f) (==_refl id) in
    let db1 = (handle true l (ban reason) s.db).1 in
    let db2 = (handle true l reinstate db1).1 in
    let (new1, e1, s1, v1) = ban_sellers l b reason s.db given in
    let (new2, e2, s2, v2) = reinstate_sellers l b db1 in
    let row1 = update_row seller new1 seller in
    let row2 = update_row seller new2 row1 in
    let f1 : find_seller id db1.sellers ≡ some row1 =
      ap (λ ss. find_seller id ss) e1 ∙ find-save id seller new1 s.db.sellers ∙ rw (mine, f) refl in
    let f2 : find_seller id db2.sellers ≡ some row2 =
      ap (λ ss. find_seller id ss) e2 ∙ find-save id seller new2 db1.sellers ∙ rw (mine, f1) refl in
    let banned1 : row1.status ≡ some banned =
      saved_status seller new1 seller (some banned) b s1 refl in
    let active2 : row2.status ≡ some active =
      saved_status seller new2 row1 (some active) b s2 refl in
    let v = seller.accepted_contract_version in
    let version2 : row2.accepted_contract_version ≡ v =
      saved_version seller new2 row1 v v2 (saved_version seller new1 seller v v1 refl) in
    (
      rw (in_order s id seller reason f) (may_of row2 db2 id v f2 active2 version2 may),
      rw (served s.db id seller (ban reason) f) (refused db1 id (row1, f1, banned1)),
    )
